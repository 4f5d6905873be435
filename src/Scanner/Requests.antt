-- ===== src/Scanner/Requests.antt =====
-- One request after the other on a connection.
use prog.Prelude.{
  ℕ, suc, ◌+◌, ◌≡◌, refl, ap, ◌∙◌, arith, Option, none, some, List, [], ◌∷◌, ◌++◌, Run, ret,
  undefined, exited, ◌>>=◌, length, length-append,
}
use prog.Memory.{Host}
use prog.Core.{Core}
use prog.Gdb.{Gdb, framed, check_sum, gdb_init_data, gdb_send_ack}
use prog.Gdb.Text.{sprintf_02x}
use prog.Gdb.Packets.{Locals, command}
use prog.Gdb.Packets.Framing.{gdb_packet_analysis-framed}
use prog.Scanner.{Token, packet, tokens, handle_error, act, scan, gdb_scanner, with_gdb}
use prog.Scanner.Tokens.{IsPlain, tokens-framed}
use prog.Scanner.Noise.{tokens_end}

-- The frames of the requests' texts, with nothing between them.
unfoldable pub stream : List (List ℕ) → List ℕ
stream [] = []
stream (body ∷ bodies) = framed body ++ stream bodies

-- No text has a `$` or a `#`.
pub data ArePlain : List (List ℕ) → Type 0 where
  no_requests : ArePlain []
  request :
      {body : List ℕ} {bodies : List (List ℕ)}
      → IsPlain body
      → ArePlain bodies
      → ArePlain (body ∷ bodies)

packets : List (List ℕ) → List Token
packets [] = []
packets (body ∷ bodies) = packet (framed body) ∷ packets bodies

tokens-stream :
    {bodies : List (List ℕ)} (n : ℕ)
    → ArePlain bodies
    → tokens (length (stream bodies) + n) (stream bodies) ≡ packets bodies
unfolding stream packets
tokens-stream n no_requests = tokens_end (0 + n)
tokens-stream {bodies = body ∷ bodies} n (request unmarked rest) =
    let m = length (body ++ (b'#' ∷ sprintf_02x (check_sum 0 body))) in
    let e : length (stream (body ∷ bodies)) + n ≡ suc (length (stream bodies) + (m + n)) =
      omega (arith, length-append (framed body) (stream bodies)) in
    ap (λ k. tokens k (framed body ++ stream bodies)) e
    ∙ tokens-framed (length (stream bodies) + (m + n)) body (stream bodies) unmarked
    ∙ ap (λ ts. packet (framed body) ∷ ts) (tokens-stream (m + n) rest)

module _ (host : Host) (target rounds : ℕ) (l : ℕ → Locals) where
  -- The requests' commands in turn, each after the acknowledgement of its frame.
  unfoldable pub served : ℕ → List (List ℕ) → Gdb → Run (Option Gdb)
  served k [] g = ret (some g)
  served k (body ∷ bodies) g =
      command host target rounds (l k) (gdb_send_ack g)
        (body ++ (0 ∷ (sprintf_02x (check_sum 0 body) ++ (0 ∷ []))))
      >>= (λ o. elim o [ none ↦ ret none | some after ↦ served (suc k) bodies after ])

  next_packet :
      (k : ℕ) (ts : List Token) (body : List ℕ) (m : Run (Option Gdb))
      (rest : Gdb → Run (Option Gdb))
      → ((g : Gdb)
          → scan host target rounds l k ts record { gdb = g; buffer = [] }
            ≡ (rest g >>= (λ o. ret (with_gdb o))))
      → ((m >>= (λ o. ret (with_gdb o)))
          >>= (λ o. elim o [ none ↦ ret none | some after ↦ scan host target rounds l k ts after ]))
        ≡ ((m >>= (λ o. elim o [ none ↦ ret none | some after ↦ rest after ]))
            >>= (λ o. ret (with_gdb o)))
  next_packet k ts body (ret none) rest h = refl
  next_packet k ts body (ret (some g)) rest h = h g
  next_packet k ts body undefined rest h = refl
  next_packet k ts body (exited n) rest h = refl

  scan-packets :
      (k : ℕ) (bodies : List (List ℕ)) (g : Gdb)
      → scan host target rounds l k (packets bodies) record { gdb = g; buffer = [] }
        ≡ (served k bodies g >>= (λ o. ret (with_gdb o)))
  unfolding scan act handle_error packets served
  scan-packets k [] g = refl
  scan-packets k (body ∷ bodies) g =
      rw (gdb_packet_analysis-framed host target rounds (l k) g body) (
        next_packet (suc k) (packets bodies) body
          (command host target rounds (l k) (gdb_send_ack g)
            (body ++ (0 ∷ (sprintf_02x (check_sum 0 body) ++ (0 ∷ [])))))
          (served (suc k) bodies) (scan-packets (suc k) bodies))

  -- From the frames of any requests without `$` and `#`, one after the other: the scanner acknowledges
  -- each and carries out its command, in their order and each on the processor that the one before left,
  -- up to the first whose command does not end.
  pub gdb_scanner-stream :
      (arm : Core) {bodies : List (List ℕ)}
      → ArePlain bodies
      → gdb_scanner host target rounds l arm (stream bodies)
        ≡ (served 0 bodies (gdb_init_data arm) >>= (λ o. ret (with_gdb o)))
  unfolding gdb_scanner
  gdb_scanner-stream arm {bodies} unmarked =
      ap (λ ts. scan host target rounds l 0 ts record { gdb = gdb_init_data arm; buffer = [] })
        (ap (λ n. tokens n (stream bodies)) (omega arith) ∙ tokens-stream 0 unmarked)
      ∙ scan-packets 0 bodies (gdb_init_data arm)
