-- ===== src/Gdb/Text/Digits.antt =====
-- `sscanf` on what `%02x` writes.
use prog.Prelude.{ℕ, suc, ◌+◌, ◌*◌, ◌/◌, ◌%◌, ◌≤◌, ◌<◌, ◌≡◌, ◌≢◌, arith, some, List, ◌∷◌, ◌++◌, ret}
use prog.Gdb.Text.{
  hex_digit, sprintf_02x, digit_of, is_space, skip_space, text_at, hex_digits, some_digits,
  has_prefix, unsigned_hex, signed_hex, sscanf_2x,
}

-- What a hexadecimal digit is not.
pub hex_digit_range :
    (d : ℕ) → d < 16 → (48 ≤ hex_digit d) × (hex_digit d ≤ 102) × (hex_digit d ≢ 88)
unfolding hex_digit
hex_digit_range d h = ground arith

pub digit_of-hex_digit : (d : ℕ) → d < 16 → digit_of (hex_digit d) ≡ some d
unfolding hex_digit digit_of
digit_of-hex_digit d h = ground arith

module _ (d : ℕ) (small : d < 16) (s : List ℕ) where
  pub text_at-hex_digit : text_at (hex_digit d ∷ s) ≡ hex_digit d ∷ text_at s
  unfolding text_at
  text_at-hex_digit = ground (arith, hex_digit_range d)

  pub skip_space-hex_digit : skip_space (hex_digit d ∷ s) ≡ hex_digit d ∷ s
  unfolding skip_space is_space
  skip_space-hex_digit = ground (arith, hex_digit_range d)

  pub signed_hex-hex_digit :
      (w : ℕ) → signed_hex w (hex_digit d ∷ s) ≡ unsigned_hex w (hex_digit d ∷ s)
  unfolding signed_hex
  signed_hex-hex_digit w = ground (arith, hex_digit_range d)

-- Two digits, whatever follows them within the width.
pub unsigned_hex-two :
    (w a b : ℕ) (s : List ℕ)
    → a < 16
    → b < 16
    → unsigned_hex (suc (suc w)) (hex_digit a ∷ hex_digit b ∷ s)
      ≡ some (hex_digits w (a * 16 + b) s)
unfolding unsigned_hex has_prefix some_digits hex_digits
unsigned_hex-two w a b s ha hb =
    ground (arith, hex_digit_range b, digit_of-hex_digit a, digit_of-hex_digit b)

pub sscanf_2x-sprintf_02x :
    (v : ℕ) (s : List ℕ) → v < 256 → sscanf_2x (sprintf_02x v ++ s) ≡ ret (some v)
unfolding sscanf_2x sprintf_02x hex_digits
sscanf_2x-sprintf_02x v s h =
    let high : v / 16 < 16 = omega arith in
    let low : v % 16 < 16 = omega arith in
    rw
      (
        text_at-hex_digit (v / 16) high (hex_digit (v % 16) ∷ s),
        text_at-hex_digit (v % 16) low s,
        skip_space-hex_digit (v / 16) high (hex_digit (v % 16) ∷ text_at s),
        signed_hex-hex_digit (v / 16) high (hex_digit (v % 16) ∷ text_at s) 2,
        unsigned_hex-two 0 (v / 16) (v % 16) (text_at s) high low,
      )
      (ground arith)
