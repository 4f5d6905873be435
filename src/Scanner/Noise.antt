-- ===== src/Scanner/Noise.antt =====
-- Bytes of no packet in front of a packet.
use prog.Prelude.{
  ℕ, zero, suc, ◌+◌, ◌<◌, ◌≡◌, ◌≢◌, refl, ◌∙◌, ap, ap₂, sym, arith, false, true, List, [], ◌∷◌,
  ◌++◌, Option, none, some, Run, ret, undefined, exited, ◌>>=◌, ltb, length, length-append,
  append_assoc, append-nil,
}
use prog.Memory.{Host}
use prog.Core.{Core}
use prog.Gdb.{Gdb, framed, check_sum, gdb_init_data, gdb_send_ack, gdb_require_retransmission}
use prog.Gdb.Text.{sprintf_02x}
use prog.Gdb.Packets.{Locals, command, gdb_packet_analysis}
use prog.Gdb.Packets.Framing.{gdb_packet_analysis-framed}
use prog.Scanner.{
  Token, packet, other, tokens, ParserData, handle_error, add_character_to_error, act, scan,
  gdb_scanner, with_gdb,
}
use prog.Scanner.Tokens.{IsPlain, tokens-framed}

-- No byte that another rule matches.
pub data IsNoise : List ℕ → Type 0 where
  silence : IsNoise []
  noise :
      {c : ℕ} {s : List ℕ} → c ≢ b'+' → c ≢ b'-' → c ≢ b'$' → c ≢ 10 → IsNoise s → IsNoise (c ∷ s)

abbrev others : List ℕ → List Token
others [] = []
others (c ∷ s) = other c ∷ others s

tokens-other :
    (fuel c : ℕ) (s : List ℕ)
    → c ≢ b'+'
    → c ≢ b'-'
    → c ≢ b'$'
    → c ≢ 10
    → tokens (suc fuel) (c ∷ s) ≡ other c ∷ tokens fuel s
unfolding tokens
tokens-other fuel c s p q r t = ground arith

tokens-noise :
    {before : List ℕ} (fuel : ℕ) (s : List ℕ)
    → IsNoise before
    → tokens (length before + fuel) (before ++ s) ≡ others before ++ tokens fuel s
tokens-noise {before = []} fuel s silence = ap (λ n. tokens n s) (omega arith)
tokens-noise {before = c ∷ before} fuel s (noise p q r t rest) =
    ap (λ n. tokens n (c ∷ (before ++ s))) (omega arith)
    ∙ tokens-other (length before + fuel) c (before ++ s) p q r t
    ∙ ap (λ ts. other c ∷ ts) (tokens-noise fuel s rest)

pub tokens_end : (fuel : ℕ) → tokens fuel [] ≡ []
unfolding tokens
tokens_end zero = refl
tokens_end (suc fuel) = refl

tokens_all :
    {n : ℕ} (m : ℕ) (before body : List ℕ)
    → n ≡ length before + suc m
    → IsNoise before
    → IsPlain body
    → tokens n (before ++ framed body) ≡ others before ++ (packet (framed body) ∷ [])
tokens_all m before body e noisy unmarked =
    ap (λ k. tokens k (before ++ framed body)) e
    ∙ tokens-noise (suc m) (framed body) noisy
    ∙ ap (λ ts. others before ++ ts)
        (ap (λ s. tokens (suc m) s) (sym (append-nil (framed body)))
          ∙ tokens-framed m body [] unmarked
          ∙ ap (λ ts. packet (framed body) ∷ ts) (tokens_end m))

-- What the scanner has asked for when the noise is over.
abbrev pub asked : List ℕ → Gdb → Gdb
asked [] g = g
asked (_ ∷ _) g = gdb_require_retransmission g

module _ (host : Host) (target rounds : ℕ) (l : ℕ → Locals) where
  scan_other :
      (k c : ℕ) (ts : List Token) (g : Gdb) (buffer : List ℕ)
      → length buffer < 1023
      → scan host target rounds l k (other c ∷ ts) record { gdb = g; buffer = buffer }
        ≡ scan host target rounds l (suc k) ts record { gdb = g; buffer = buffer ++ (c ∷ []) }
  unfolding scan act add_character_to_error
  scan_other k c ts g buffer h =
      let short : ltb 1022 (length buffer) ≡ false = ground arith in
      let fits : ltb (length buffer) 1024 ≡ true = ground arith in rw (short, fits) refl

  scan_noise :
      (k : ℕ) (before : List ℕ) (ts : List Token) (g : Gdb) (buffer : List ℕ)
      → length buffer + length before < 1024
      → scan host target rounds l k (others before ++ ts) record { gdb = g; buffer = buffer }
        ≡ scan host target rounds l
            (k + length before)
            ts
            record { gdb = g; buffer = buffer ++ before }
  scan_noise k [] ts g buffer h =
      ap₂ (λ n b. scan host target rounds l n ts record { gdb = g; buffer = b }) (omega arith)
        (sym (append-nil buffer))
  scan_noise k (c ∷ before) ts g buffer h =
      let one : length (buffer ++ (c ∷ [])) ≡ length buffer + 1 = length-append buffer (c ∷ []) in
      scan_other k c (others before ++ ts) g buffer (omega arith)
      ∙ scan_noise (suc k) before ts g (buffer ++ (c ∷ [])) (omega (arith, one))
      ∙ ap₂ (λ n b. scan host target rounds l n ts record { gdb = g; buffer = b }) (omega arith)
          (append_assoc buffer (c ∷ []) before)

  pub handle_error_lem :
      (before : List ℕ) (g : Gdb)
      → length before < 1024
      → handle_error record { gdb = g; buffer = before }
        ≡ ret record { gdb = asked before g; buffer = [] }
  unfolding handle_error
  handle_error_lem [] g h = refl
  handle_error_lem (c ∷ before) g h = ground arith

  at_end :
      (k : ℕ) (m : Run (Option Gdb))
      → (m >>= (λ o. ret (with_gdb o)))
          >>= (λ o. elim o [ none ↦ ret none | some after ↦ scan host target rounds l k [] after ])
        ≡ (m >>= (λ o. ret (with_gdb o)))
  unfolding scan handle_error
  at_end k (ret none) = refl
  at_end k (ret (some g)) = refl
  at_end k undefined = refl
  at_end k (exited n) = refl

  -- The last packet's analysis, and the end of the input.
  last_packet :
      (k : ℕ) (before text : List ℕ) (g : Gdb)
      → length before < 1024
      → scan host target rounds l k (packet text ∷ []) record { gdb = g; buffer = before } ≡ (
          gdb_packet_analysis host target rounds (l k) (asked before g) text
          >>= (λ o. ret (with_gdb o)))
  unfolding scan act
  last_packet k before text g h =
      rw (handle_error_lem before g h)
        (at_end (suc k) (gdb_packet_analysis host target rounds (l k) (asked before g) text))

  -- From bytes that no rule but the last matches, 1023 at most, and then the frame of a text without `$`
  -- and `#`: the scanner asks for the bytes again, if there are any, and then acknowledges the frame and
  -- carries out its command.
  pub gdb_scanner-noise :
      (arm : Core) (before body : List ℕ)
      → IsNoise before
      → length before < 1024
      → IsPlain body
      → gdb_scanner host target rounds l arm (before ++ framed body) ≡ (
          command host target rounds
            (l (length before))
            (gdb_send_ack (asked before (gdb_init_data arm)))
            (body ++ (0 ∷ (sprintf_02x (check_sum 0 body) ++ (0 ∷ []))))
          >>= (λ o. ret (with_gdb o)))
  unfolding gdb_scanner
  gdb_scanner-noise arm before body noisy short unmarked =
      let m = length (body ++ (b'#' ∷ sprintf_02x (check_sum 0 body))) in
      let n : length (before ++ framed body) ≡ length before + suc m =
        length-append before (framed body) in
      let start : ParserData = record { gdb = gdb_init_data arm; buffer = [] } in
      ap (λ ts. scan host target rounds l 0 ts start) (tokens_all m before body n noisy unmarked)
      ∙ scan_noise 0 before (packet (framed body) ∷ []) (gdb_init_data arm) []
          (omega (arith, short))
      ∙ ap
          (λ k.
            scan host target rounds l k (packet (framed body) ∷ [])
              record { gdb = gdb_init_data arm; buffer = before })
          (omega arith)
      ∙ last_packet (length before) before (framed body) (gdb_init_data arm) short
      ∙ ap (λ r. r >>= (λ o. ret (with_gdb o)))
          (gdb_packet_analysis-framed host target rounds (l (length before))
            (asked before (gdb_init_data arm)) body)
