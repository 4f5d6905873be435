-- ===== src/Util/Macros.antt =====
-- The macros of util.h against arithmetic and bit by bit.
use prog.Prelude.{
  ℕ, ◌+◌, ◌-◌, ◌*◌, ◌/◌, ◌%◌, ◌^◌, ◌≤◌, ◌<◌, bit_and, bit_or, ◌≡◌, refl, ap, ap₂, ◌∙◌, ◌≢◌, arith,
}
use prog.Prelude.{true, ◌==◌, ==→eq, every_below, every_below→}
use prog.Word.{bit, shr, shl32, not32}
use prog.Word.Bits.{bit-bit_and, bit-bit_or, bit_and-lt, bit_or-lt, bit-pow_self, bit-pow_ne}
use prog.Word.Shift.{bit-not32}
use prog.Word.Fields.{bit_and-mask, bit_or-field}
use prog.Util.{get_bit, set_bit, clr_bit, get_bits, reverse_2, reverse_4}

pub get_bit-eq-bit : (x i : ℕ) → get_bit x i ≡ bit x i
unfolding get_bit
get_bit-eq-bit x i = bit_and-mask 1 (shr x i)

pub get_bit-lt : (x i : ℕ) → get_bit x i < 2
get_bit-lt x i = omega (arith, get_bit-eq-bit x i)

low_mask_table : every_below 32 (λ k. not32 (shl32 0xffff_ffff k) == (2 ^ k - 1)) ≡ true
unfolding every_below
low_mask_table = refl

low_mask : (k : ℕ) → k < 32 → not32 (shl32 0xffff_ffff k) ≡ 2 ^ k - 1
low_mask k h = ==→eq _ _ (every_below→ 32 _ k low_mask_table h)

-- `get_bits(x, h, l)` is the field of bits l to h.
pub get_bits-eq-field :
    (x h l : ℕ) → l ≤ h → h < l + 31 → get_bits x h l ≡ x / 2 ^ l % 2 ^ (h - l + 1)
unfolding get_bits
get_bits-eq-field x h l p q =
    ap (bit_and (shr x l)) (low_mask (h - l + 1) (omega arith)) ∙ bit_and-mask (h - l + 1) (shr x l)

one_shl_table : every_below 32 (λ k. shl32 1 k == 2 ^ k) ≡ true
unfolding every_below
one_shl_table = refl

one_shl : (k : ℕ) → k < 32 → shl32 1 k ≡ 2 ^ k
one_shl k h = ==→eq _ _ (every_below→ 32 _ k one_shl_table h)

-- Setting and clearing a bit: that bit, the others, and the width.
module _ (x i : ℕ) (in_word : i < 32) where
  pub bit-set_bit_self : bit (set_bit x i) i ≡ 1
  unfolding set_bit
  bit-set_bit_self = rw (one_shl i in_word) (omega (arith, bit-bit_or x (2 ^ i) i, bit-pow_self i))

  pub bit-set_bit_ne : (j : ℕ) → j ≢ i → bit (set_bit x i) j ≡ bit x j
  unfolding set_bit
  bit-set_bit_ne j h =
      rw (one_shl i in_word) (omega (arith, bit-bit_or x (2 ^ i) j, bit-pow_ne i j h))

  pub set_bit-lt : x < 2 ^ 32 → set_bit x i < 2 ^ 32
  unfolding set_bit
  set_bit-lt h = bit_or-lt x (shl32 1 i) 32 h (omega arith)

  bit-clear_mask : (j : ℕ) → j < 32 → bit (not32 (shl32 1 i)) j ≡ 1 - bit (2 ^ i) j
  bit-clear_mask j h = bit-not32 (shl32 1 i) j (omega arith) h ∙ rw (one_shl i in_word)

  pub bit-clr_bit_self : bit (clr_bit x i) i ≡ 0
  unfolding clr_bit
  bit-clr_bit_self =
      omega (arith, bit-bit_and x (not32 (shl32 1 i)) i, bit-clear_mask i in_word, bit-pow_self i)

  pub bit-clr_bit_ne : (j : ℕ) → j < 32 → j ≢ i → bit (clr_bit x i) j ≡ bit x j
  unfolding clr_bit
  bit-clr_bit_ne j h ne =
      omega (arith, bit-bit_and x (not32 (shl32 1 i)) j, bit-clear_mask j h, bit-pow_ne i j ne)

  pub clr_bit-lt : x < 2 ^ 32 → clr_bit x i < 2 ^ 32
  unfolding clr_bit
  clr_bit-lt h = bit_and-lt x (not32 (shl32 1 i)) 32 h (omega arith)

low_byte : (x : ℕ) → bit_and x 0xff ≡ x % 256
low_byte x = bit_and-mask 8 x

or_bytes :
    (p q r s : ℕ)
    → p < 256
    → q < 256
    → r < 256
    → s < 256
    → bit_or (bit_or (bit_or (shl32 p 24) (shl32 q 16)) (shl32 r 8)) s
      ≡ p * 2 ^ 24 + q * 2 ^ 16 + r * 2 ^ 8 + s
or_bytes p q r s hp hq hr hs =
    ap (λ t. bit_or (bit_or t (shl32 r 8)) s) top_half
    ∙ ap (λ t. bit_or t s) top_three
    ∙ ap (λ t. bit_or t s) (omega arith)
    ∙ bit_or-field 8 (p * 2 ^ 16 + q * 2 ^ 8 + r) s (omega arith)
    ∙ omega arith
  where
    top_half : bit_or (shl32 p 24) (shl32 q 16) ≡ (p * 2 ^ 8 + q) * 2 ^ 16
    top_half =
        ap₂ bit_or (omega arith) (omega arith)
        ∙ bit_or-field 24 p (q * 2 ^ 16) (omega arith)
        ∙ omega arith

    top_three : bit_or ((p * 2 ^ 8 + q) * 2 ^ 16) (shl32 r 8) ≡ (p * 2 ^ 8 + q) * 2 ^ 16 + r * 2 ^ 8
    top_three =
        ap (bit_or ((p * 2 ^ 8 + q) * 2 ^ 16)) (omega arith)
        ∙ bit_or-field 16 (p * 2 ^ 8 + q) (r * 2 ^ 8) (omega arith)

-- The byte reversals as sums.
pub reverse_2-eq-sum : (x : ℕ) → x < 2 ^ 16 → reverse_2 x ≡ x % 256 * 256 + x / 256
unfolding reverse_2
reverse_2-eq-sum x h =
    ap₂ bit_or (ap (λ t. shl32 t 8) (low_byte x)) (low_byte (shr x 8))
    ∙ ap₂ bit_or (omega arith) (omega arith)
    ∙ bit_or-field 8 (x % 256) (x / 256) (omega arith)

pub reverse_4-eq-sum :
    (x : ℕ)
    → x < 2 ^ 32
    → reverse_4 x
      ≡ x % 256 * 2 ^ 24 + x / 2 ^ 8 % 256 * 2 ^ 16 + x / 2 ^ 16 % 256 * 2 ^ 8 + x / 2 ^ 24
unfolding reverse_4
reverse_4-eq-sum x h =
    rw (low_byte x, low_byte (shr x 8), low_byte (shr x 16), low_byte (shr x 24))
      (or_bytes (x % 256) (shr x 8 % 256) (shr x 16 % 256) (shr x 24 % 256) (omega arith)
          (omega arith) (omega arith) (omega arith)
        ∙ omega arith)
