-- ===== src/Word/Shift.antt =====
-- Shifts and truncation to a width, bit by bit.
use native.Mathlib.Nat.{div-div-eq-div-mul, div-add-mod, pow-suc, pow-succ'}
use prog.Prelude.{
  ℕ, zero, suc, ◌+◌, ◌-◌, ◌*◌, ◌/◌, ◌%◌, ◌^◌, ◌≤◌, ◌<◌, ◌≡◌, ap, ap₂, sym, ◌∙◌, arith,
}
use prog.Word.{bit, shl32, shr, not32}
use prog.Word.Bits.{bit-suc, bit-zero_left, bit-not}

pub bit-shr : (k a i : ℕ) → bit (shr a k) i ≡ bit a (i + k)
bit-shr zero a i = ap₂ bit (omega arith) (omega arith)
bit-shr (suc k) a i =
    ap (λ x. bit x i) halve
    ∙ sym (bit-suc (a / 2 ^ k) i)
    ∙ bit-shr k a (suc i)
    ∙ ap (bit a) (omega arith)
  where
    halve : shr a (suc k) ≡ a / 2 ^ k / 2
    halve = rw (pow-suc, ← div-div-eq-div-mul)

pub bit-ge : (w a i : ℕ) → a < 2 ^ w → w ≤ i → bit a i ≡ 0
bit-ge zero a i p q = ap (λ x. bit x i) (omega arith) ∙ bit-zero_left i
bit-ge (suc w) a zero p q = absurd (omega arith)
bit-ge (suc w) a (suc i) p q =
    bit-suc a i ∙ bit-ge w (a / 2) i (omega (arith, pow-succ' 2 w)) (omega arith)

pub mod_double : (a m : ℕ) → a % (2 * m) ≡ a / 2 % m * 2 + a % 2
mod_double a m = omega (
  arith,
  div-add-mod a (2 * m),
  div-add-mod (a / 2) m,
  ap (λ (t : ℕ). m * t) (div-div-eq-div-mul a 2 m),
)

pub bit-mod : (w a i : ℕ) → i < w → bit (a % 2 ^ w) i ≡ bit a i
bit-mod zero a i h = absurd (omega arith)
bit-mod (suc w) a zero h = rw (pow-succ', mod_double) (omega arith)
bit-mod (suc w) a (suc i) h =
    bit-suc (a % 2 ^ suc w) i
    ∙ ap (λ x. bit x i) halve
    ∙ bit-mod w (a / 2) i (omega arith)
    ∙ sym (bit-suc a i)
  where
    halve : a % 2 ^ suc w / 2 ≡ a / 2 % 2 ^ w
    halve = rw (pow-succ', mod_double) (omega arith)

bit-mul_pow_ge : (k a i : ℕ) → k ≤ i → bit (a * 2 ^ k) i ≡ bit a (i - k)
bit-mul_pow_ge zero a i h = ap₂ bit (omega arith) (omega arith)
bit-mul_pow_ge (suc k) a zero h = absurd (omega arith)
bit-mul_pow_ge (suc k) a (suc i) h =
    bit-suc (a * 2 ^ suc k) i
    ∙ ap (λ x. bit x i) halve
    ∙ bit-mul_pow_ge k a i (omega arith)
    ∙ ap (bit a) (omega arith)
  where
    halve : a * 2 ^ suc k / 2 ≡ a * 2 ^ k
    halve = omega (arith, ap (λ (t : ℕ). a * t) (pow-succ' 2 k))

bit-mul_pow_lt : (k a i : ℕ) → i < k → bit (a * 2 ^ k) i ≡ 0
bit-mul_pow_lt zero a i h = absurd (omega arith)
bit-mul_pow_lt (suc k) a zero h = omega (arith, ap (λ (t : ℕ). a * t) (pow-succ' 2 k))
bit-mul_pow_lt (suc k) a (suc i) h =
    bit-suc (a * 2 ^ suc k) i ∙ ap (λ x. bit x i) halve ∙ bit-mul_pow_lt k a i (omega arith)
  where
    halve : a * 2 ^ suc k / 2 ≡ a * 2 ^ k
    halve = omega (arith, ap (λ (t : ℕ). a * t) (pow-succ' 2 k))

pub bit-shl32_ge : (k a i : ℕ) → i < 32 → k ≤ i → bit (shl32 a k) i ≡ bit a (i - k)
bit-shl32_ge k a i h g = bit-mod 32 (a * 2 ^ k) i h ∙ bit-mul_pow_ge k a i g

pub bit-shl32_lt : (k a i : ℕ) → i < 32 → i < k → bit (shl32 a k) i ≡ 0
bit-shl32_lt k a i h g = bit-mod 32 (a * 2 ^ k) i h ∙ bit-mul_pow_lt k a i g

pub bit-not32 : (a i : ℕ) → a < 2 ^ 32 → i < 32 → bit (not32 a) i ≡ 1 - bit a i
bit-not32 a i p q = bit-not 32 a i p q

pub bit-all_ones : (i : ℕ) → i < 32 → bit 0xffff_ffff i ≡ 1
bit-all_ones i h = bit-not 32 0 i (omega arith) h ∙ ap (λ x. 1 - x) (bit-zero_left i)
