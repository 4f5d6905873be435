-- ===== src/Scanner/Tokens.antt =====
-- The tokens of a frame as `gdb_send_buffer` writes it.
use prog.Prelude.{
  ℕ, suc, ◌/◌, ◌%◌, ◌<◌, ◌≡◌, ◌≢◌, refl, ◌∙◌, ap, arith, List, [], ◌∷◌, ◌++◌, some, append_assoc,
}
use prog.Gdb.{framed, check_sum}
use prog.Gdb.Text.{hex_digit, sprintf_02x}
use prog.Gdb.Text.Digits.{digit_of-hex_digit}
use prog.Gdb.Packets.Framing.{check_sum-lt}
use prog.Scanner.{packet, tokens, packet_rest, packet_end, with_front}

-- No `$` and no `#`.
pub data IsPlain : List ℕ → Type 0 where
  plain_end : IsPlain []
  plain : {c : ℕ} {s : List ℕ} → c ≢ b'$' → c ≢ b'#' → IsPlain s → IsPlain (c ∷ s)

packet_end-digits :
    (a b : ℕ) (s : List ℕ)
    → a < 16
    → b < 16
    → packet_end (hex_digit a ∷ hex_digit b ∷ s) ≡ some (b'#' ∷ hex_digit a ∷ hex_digit b ∷ [], s)
unfolding packet_end
packet_end-digits a b s ha hb = ground (arith, digit_of-hex_digit a, digit_of-hex_digit b)

packet_rest_plain :
    (c : ℕ) (s : List ℕ) → c ≢ b'$' → c ≢ b'#' → packet_rest (c ∷ s) ≡ with_front c (packet_rest s)
unfolding packet_rest
packet_rest_plain c s n m = ground arith

packet_rest-digits :
    {body : List ℕ} (a b : ℕ) (s : List ℕ)
    → IsPlain body
    → a < 16
    → b < 16
    → packet_rest (body ++ (b'#' ∷ hex_digit a ∷ hex_digit b ∷ s))
      ≡ some (body ++ (b'#' ∷ hex_digit a ∷ hex_digit b ∷ []), s)
unfolding packet_rest
packet_rest-digits a b s plain_end ha hb = packet_end-digits a b s ha hb
packet_rest-digits {body = c ∷ body} a b s (plain n m rest) ha hb =
    packet_rest_plain c (body ++ (b'#' ∷ hex_digit a ∷ hex_digit b ∷ s)) n m
    ∙ ap (with_front c) (packet_rest-digits a b s rest ha hb)

-- A frame, whatever follows it, is one token of its own.
pub tokens-framed :
    (fuel : ℕ) (body s : List ℕ)
    → IsPlain body
    → tokens (suc fuel) (framed body ++ s) ≡ packet (framed body) ∷ tokens fuel s
unfolding tokens sprintf_02x
tokens-framed fuel body s h =
    let sum = check_sum 0 body in
    let low = check_sum-lt 0 body (omega arith) in
    rw
      (
        append_assoc body (b'#' ∷ hex_digit (sum / 16) ∷ hex_digit (sum % 16) ∷ []) s,
        packet_rest-digits (sum / 16) (sum % 16) s h (omega (arith, low)) (omega arith),
      )
      refl
