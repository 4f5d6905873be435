-- ===== src/Word/Bits.antt =====
-- Bit by bit: what `&`, `|`, `^`, `~` and a lone bit read at each position, the widths that they
-- keep, and equality of words by their bits.
use Prim.Native.Nat.{digits, differ, bit_and-bitwise, bit_or-bitwise, bit_xor-bitwise}
use native.Mathlib.Nat.{div-div-eq-div-mul, pow-succ', one-le-pow}
use prog.Prelude.{
  ℕ, zero, suc, ◌+◌, ◌-◌, ◌*◌, ◌/◌, ◌%◌, ◌^◌, ◌≤◌, ◌<◌, min, max, bit_and, bit_or, bit_xor, ◌≡◌,
  refl, ap, ap₂, sym, ◌∙◌, ◌≢◌, arith,
}
use prog.Word.{bit}

pub bit-suc : (x i : ℕ) → bit x (suc i) ≡ bit (x / 2) i
bit-suc x i = rw (pow-succ', div-div-eq-div-mul)

pub bit-zero_left : (i : ℕ) → bit 0 i ≡ 0
bit-zero_left zero = refl
bit-zero_left (suc i) = bit-suc 0 i ∙ bit-zero_left i

pub bit-lt : (x i : ℕ) → bit x i < 2
bit-lt x i = omega arith

bit-zero : (x : ℕ) → bit x 0 ≡ x % 2
bit-zero x = omega arith

bit-push_zero : (q d : ℕ) → d < 2 → bit (q * 2 + d) 0 ≡ d
bit-push_zero q d h = omega arith

bit-push_suc : (q d i : ℕ) → d < 2 → bit (q * 2 + d) (suc i) ≡ bit q i
bit-push_suc q d i h = rw (bit-suc, drop_digit)
  where
    drop_digit : (q * 2 + d) / 2 ≡ q
    drop_digit = omega arith

-- A digit recursion acts on each position on its own, when its end case `z` agrees with `f`.
module _ (z : ℕ → ℕ) (f : ℕ → ℕ → ℕ) (f_digit : (d e : ℕ) → d < 2 → e < 2 → f d e < 2) where
  module _ (z_bits : (b i : ℕ) → bit (z b) i ≡ f 0 (bit b i)) where
    digits-bit : (n a b i : ℕ) → a ≤ n → bit (digits z f n a b) i ≡ f (bit a i) (bit b i)
    digits-bit zero zero b i h = z_bits b i ∙ ap (λ d. f d (bit b i)) (sym (bit-zero_left i))
    digits-bit zero (suc a) b i h = absurd (omega arith)
    digits-bit (suc n) zero b i h = z_bits b i ∙ ap (λ d. f d (bit b i)) (sym (bit-zero_left i))
    digits-bit (suc n) (suc a) b zero h =
        bit-push_zero (digits z f n (suc a / 2) (b / 2)) (f (suc a % 2) (b % 2))
          (f_digit _ _ (omega arith) (omega arith))
        ∙ ap₂ f (sym (bit-zero (suc a))) (sym (bit-zero b))
    digits-bit (suc n) (suc a) b (suc i) h =
        bit-push_suc (digits z f n (suc a / 2) (b / 2)) (f (suc a % 2) (b % 2)) i
          (f_digit _ _ (omega arith) (omega arith))
        ∙ digits-bit n (suc a / 2) (b / 2) i (omega arith)
        ∙ ap₂ f (sym (bit-suc (suc a) i)) (sym (bit-suc b i))

  module _ (z_width : (b w : ℕ) → b < 2 ^ w → z b < 2 ^ w) where
    digits-lt : (n a b w : ℕ) → a ≤ n → a < 2 ^ w → b < 2 ^ w → digits z f n a b < 2 ^ w
    digits-lt zero a b w h p q = z_width b w q
    digits-lt (suc n) zero b w h p q = z_width b w q
    digits-lt (suc n) (suc a) b zero h p q = absurd (omega arith)
    digits-lt (suc n) (suc a) b (suc w) h p q = omega (
      arith,
      pow-succ' 2 w,
      digits-lt n (suc a / 2) (b / 2) w (omega arith) (omega (arith, pow-succ' 2 w))
          (omega (arith, pow-succ' 2 w)),
      f_digit (suc a % 2) (b % 2) (omega arith) (omega arith),
    )

min_digit : (d e : ℕ) → d < 2 → e < 2 → min d e < 2
min_digit d e p q = omega arith

max_digit : (d e : ℕ) → d < 2 → e < 2 → max d e < 2
max_digit d e p q = omega arith

differ_digit : (d e : ℕ) → d < 2 → e < 2 → differ d e < 2
differ_digit zero e p q = q
differ_digit (suc zero) zero p q = omega arith
differ_digit (suc zero) (suc zero) p q = omega arith
differ_digit (suc zero) (suc (suc e)) p q = absurd (omega arith)
differ_digit (suc (suc d)) e p q = absurd (omega arith)

pub bit-bit_and : (a b i : ℕ) → bit (bit_and a b) i ≡ min (bit a i) (bit b i)
bit-bit_and a b i = rw bit_and-bitwise (
    digits-bit (λ _. 0) min min_digit (λ b' j. bit-zero_left j ∙ omega arith) a a b i (omega arith))

pub bit-bit_or : (a b i : ℕ) → bit (bit_or a b) i ≡ max (bit a i) (bit b i)
bit-bit_or a b i =
    rw bit_or-bitwise
      (digits-bit (λ y. y) max max_digit (λ b' j. omega arith) a a b i (omega arith))

pub bit-bit_xor : (a b i : ℕ) → bit (bit_xor a b) i ≡ differ (bit a i) (bit b i)
bit-bit_xor a b i =
    rw bit_xor-bitwise
      (digits-bit (λ y. y) differ differ_digit (λ b' j. refl) a a b i (omega arith))

pub bit_and-lt : (a b w : ℕ) → a < 2 ^ w → b < 2 ^ w → bit_and a b < 2 ^ w
bit_and-lt a b w p q = rw bit_and-bitwise (
    digits-lt (λ _. 0) min min_digit (λ b' v h. one-le-pow v 2 (omega arith)) a a b w (omega arith)
      p q)

pub bit_or-lt : (a b w : ℕ) → a < 2 ^ w → b < 2 ^ w → bit_or a b < 2 ^ w
bit_or-lt a b w p q =
    rw bit_or-bitwise (digits-lt (λ y. y) max max_digit (λ b' v h. h) a a b w (omega arith) p q)

pub bit_xor-lt : (a b w : ℕ) → a < 2 ^ w → b < 2 ^ w → bit_xor a b < 2 ^ w
bit_xor-lt a b w p q =
    rw bit_xor-bitwise
      (digits-lt (λ y. y) differ differ_digit (λ b' v h. h) a a b w (omega arith) p q)

-- The bits of `~a` at width `w`.
pub bit-not : (w a i : ℕ) → a < 2 ^ w → i < w → bit (2 ^ w - 1 - a) i ≡ 1 - bit a i
bit-not zero a i p q = absurd (omega arith)
bit-not (suc w) a zero p q = omega (arith, pow-succ' 2 w, one-le-pow w 2)
bit-not (suc w) a (suc i) p q =
    bit-suc (2 ^ suc w - 1 - a) i
    ∙ ap (λ x. bit x i) halve
    ∙ bit-not w (a / 2) i (omega (arith, pow-succ' 2 w)) (omega arith)
    ∙ ap (λ x. 1 - x) (sym (bit-suc a i))
  where
    halve : (2 ^ suc w - 1 - a) / 2 ≡ 2 ^ w - 1 - a / 2
    halve = omega (arith, pow-succ' 2 w)

-- 2 ^ j has the bit j and no other.
pub bit-pow_self : (j : ℕ) → bit (2 ^ j) j ≡ 1
bit-pow_self zero = refl
bit-pow_self (suc j) = bit-suc (2 ^ suc j) j ∙ ap (λ x. bit x j) halve ∙ bit-pow_self j
  where
    halve : 2 ^ suc j / 2 ≡ 2 ^ j
    halve = omega (arith, pow-succ' 2 j)

pub bit-pow_ne : (j i : ℕ) → i ≢ j → bit (2 ^ j) i ≡ 0
bit-pow_ne zero zero h = absurd (h refl)
bit-pow_ne zero (suc i) h = bit-suc 1 i ∙ bit-zero_left i
bit-pow_ne (suc j) zero h = omega (arith, pow-succ' 2 j)
bit-pow_ne (suc j) (suc i) h =
    bit-suc (2 ^ suc j) i ∙ ap (λ x. bit x i) halve ∙ bit-pow_ne j i (λ e. h (ap suc e))
  where
    halve : 2 ^ suc j / 2 ≡ 2 ^ j
    halve = omega (arith, pow-succ' 2 j)

-- Two words of one width with the same bits are equal.
pub bits_ext : (w a b : ℕ) → a < 2 ^ w → b < 2 ^ w → ((i : ℕ) → i < w → bit a i ≡ bit b i) → a ≡ b
bits_ext zero a b p q h = omega arith
bits_ext (suc w) a b p q h = omega (
  arith,
  h 0 (omega arith),
  bits_ext w (a / 2) (b / 2) (omega (arith, pow-succ' 2 w)) (omega (arith, pow-succ' 2 w))
      (λ i k. sym (bit-suc a i) ∙ h (suc i) (omega arith) ∙ bit-suc b i),
)

-- `&` of words is associative.
pub bit_and_assoc :
    (a b c : ℕ)
    → a < 2 ^ 32
    → b < 2 ^ 32
    → c < 2 ^ 32
    → bit_and (bit_and a b) c ≡ bit_and a (bit_and b c)
bit_and_assoc a b c ha hb hc =
    bits_ext 32 (bit_and (bit_and a b) c) (bit_and a (bit_and b c))
      (bit_and-lt (bit_and a b) c 32 (bit_and-lt a b 32 ha hb) hc)
      (bit_and-lt a (bit_and b c) 32 ha (bit_and-lt b c 32 hb hc))
      λ i _. omega (
        arith,
        bit-bit_and (bit_and a b) c i,
        bit-bit_and a b i,
        bit-bit_and a (bit_and b c) i,
        bit-bit_and b c i,
      )
