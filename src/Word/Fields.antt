-- ===== src/Word/Fields.antt =====
-- `&` with a mask of low ones, and `|` of disjoint fields, as arithmetic.
use native.Mathlib.Nat.{div-div-eq-div-mul, pow-suc, pow-succ', one-le-pow}
use prog.Word.{shr}
use prog.Prelude.{
  ℕ, zero, suc, ◌+◌, ◌-◌, ◌*◌, ◌/◌, ◌%◌, ◌^◌, ◌<◌, min, max, bit_and, bit_or, ◌≡◌, ap, ap₂, sym,
  ◌∙◌, arith,
}
use prog.Word.Shift.{mod_double}
use prog.Word.Bits.{
  bit-zero_left, bit-suc, bit-bit_and, bit-bit_or, bit_and-lt, bit_or-lt, bits_ext,
}

lt_pow : (n : ℕ) → n < 2 ^ n
lt_pow zero = omega arith
lt_pow (suc n) = omega (arith, lt_pow n, pow-succ' 2 n)

-- The half of `a | b` is that of the halves; so for `&`.
pub half-bit_or : (a b : ℕ) → bit_or a b / 2 ≡ bit_or (a / 2) (b / 2)
half-bit_or a b =
    bits_ext (a + b) (bit_or a b / 2) (bit_or (a / 2) (b / 2))
      (omega (arith, bit_or-lt a b (a + b), wide))
      (bit_or-lt (a / 2) (b / 2) (a + b) (omega (arith, wide)) (omega (arith, wide)))
      λ i _.
        sym (bit-suc (bit_or a b) i)
        ∙ bit-bit_or a b (suc i)
        ∙ ap₂ max (bit-suc a i) (bit-suc b i)
        ∙ sym (bit-bit_or (a / 2) (b / 2) i)
  where
    wide : a + b < 2 ^ (a + b)
    wide = lt_pow (a + b)

pub half-bit_and : (a b : ℕ) → bit_and a b / 2 ≡ bit_and (a / 2) (b / 2)
half-bit_and a b =
    bits_ext (a + b) (bit_and a b / 2) (bit_and (a / 2) (b / 2))
      (omega (arith, bit_and-lt a b (a + b), wide))
      (bit_and-lt (a / 2) (b / 2) (a + b) (omega (arith, wide)) (omega (arith, wide)))
      λ i _.
        sym (bit-suc (bit_and a b) i)
        ∙ bit-bit_and a b (suc i)
        ∙ ap₂ min (bit-suc a i) (bit-suc b i)
        ∙ sym (bit-bit_and (a / 2) (b / 2) i)
  where
    wide : a + b < 2 ^ (a + b)
    wide = lt_pow (a + b)

pub bit_or-zero : (a : ℕ) → bit_or a 0 ≡ a
bit_or-zero a =
    bits_ext a (bit_or a 0) a (bit_or-lt a 0 a (lt_pow a) (omega (arith, lt_pow a))) (lt_pow a)
      λ i _. omega (arith, bit-bit_or a 0 i, bit-zero_left i)

pub bit_and-zero : (a : ℕ) → bit_and a 0 ≡ 0
bit_and-zero a =
    bits_ext a (bit_and a 0) 0 (bit_and-lt a 0 a (lt_pow a) (omega (arith, lt_pow a)))
      (omega (arith, lt_pow a)) λ i _. omega (arith, bit-bit_and a 0 i, bit-zero_left i)

-- `(q << k) | r` is a sum where r fits k bits.
pub bit_or-field : (k q r : ℕ) → r < 2 ^ k → bit_or (q * 2 ^ k) r ≡ q * 2 ^ k + r
bit_or-field zero q r h = ap₂ bit_or (omega arith) (omega arith) ∙ bit_or-zero q ∙ omega arith
bit_or-field (suc k) q r h = omega (
  arith,
  half-bit_or (q * 2 ^ suc k) r,
  bit-bit_or (q * 2 ^ suc k) r 0,
  ap (λ (t : ℕ). q * t) (pow-succ' 2 k),
  pow-succ' 2 k,
  ap (λ (t : ℕ). bit_or t (r / 2)) halve,
  bit_or-field k q (r / 2) (omega (arith, pow-succ' 2 k)),
)
  where
    halve : q * 2 ^ suc k / 2 ≡ q * 2 ^ k
    halve = omega (arith, ap (λ (t : ℕ). q * t) (pow-succ' 2 k))

-- `&` with k low ones is the remainder by 2 ^ k.
pub bit_and-mask : (k a : ℕ) → bit_and a (2 ^ k - 1) ≡ a % 2 ^ k
bit_and-mask zero a = bit_and-zero a ∙ omega arith
bit_and-mask (suc k) a = omega (
  arith,
  half-bit_and a (2 ^ suc k - 1),
  bit-bit_and a (2 ^ suc k - 1) 0,
  pow-succ' 2 k,
  one-le-pow k 2,
  ap (λ (t : ℕ). bit_and (a / 2) t) halve,
  bit_and-mask k (a / 2),
  ap (λ (t : ℕ). a % t) (pow-succ' 2 k),
  mod_double a (2 ^ k),
)
  where
    halve : (2 ^ suc k - 1) / 2 ≡ 2 ^ k - 1
    halve = omega (arith, pow-succ' 2 k, one-le-pow k 2)

-- A shift distributes over `&`.
pub shr-bit_and : (k a b : ℕ) → shr (bit_and a b) k ≡ bit_and (shr a k) (shr b k)
shr-bit_and zero a b = ground arith
shr-bit_and (suc k) a b =
    twice (bit_and a b)
    ∙ ap (λ x. x / 2) (shr-bit_and k a b)
    ∙ half-bit_and (shr a k) (shr b k)
    ∙ ap₂ bit_and (sym (twice a)) (sym (twice b))
  where
    twice : (x : ℕ) → shr x (suc k) ≡ shr x k / 2
    twice x = rw (pow-suc, ← div-div-eq-div-mul)

-- `|` with a word whose k low digits are zero leaves those digits alone.
pub bit_or-high :
    (k q m r : ℕ) → r < 2 ^ k → bit_or (q * 2 ^ k + r) (m * 2 ^ k) ≡ bit_or q m * 2 ^ k + r
bit_or-high zero q m r h = ground arith
bit_or-high (suc k) q m r h = omega (
  arith,
  half-bit_or (q * 2 ^ suc k + r) (m * 2 ^ suc k),
  bit-bit_or (q * 2 ^ suc k + r) (m * 2 ^ suc k) 0,
  ap (λ (t : ℕ). q * t) (pow-succ' 2 k),
  ap (λ (t : ℕ). m * t) (pow-succ' 2 k),
  ap (λ (t : ℕ). bit_or q m * t) (pow-succ' 2 k),
  ap₂ bit_or left right,
  bit_or-high k q m (r / 2) (omega (arith, pow-succ' 2 k)),
)
  where
    left : (q * 2 ^ suc k + r) / 2 ≡ q * 2 ^ k + r / 2
    left = omega (arith, ap (λ (t : ℕ). q * t) (pow-succ' 2 k))

    right : m * 2 ^ suc k / 2 ≡ m * 2 ^ k
    right = omega (arith, ap (λ (t : ℕ). m * t) (pow-succ' 2 k))
