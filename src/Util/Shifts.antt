-- ===== src/Util/Shifts.antt =====
-- The C shifts, `asr` and `ror`: range, definedness, and bit by bit.
use prog.Prelude.{
  ℕ, ◌+◌, ◌-◌, ◌%◌, ◌^◌, ◌≤◌, ◌<◌, ◌≡◌, ◌∙◌, refl, ap, inl, inr, Bool-cases, arith, min, bit_or,
  ltb, if◌then◌else◌, truth, ret, undefined, Ensures, value, no_value, Ensures-bind, choice,
}
use native.Mathlib.Nat.{div-le_self}
use prog.Word.{bit, shr, shl32}
use prog.Word.Bits.{bit-zero_left, bit_or-lt, bit-bit_or}
use prog.Word.Shift.{bit-shr, bit-shl32_ge, bit-shl32_lt, bit-all_ones, bit-ge}
use prog.Word.Fields.{bit_or-zero}
use prog.Util.{get_bit, shift_left, shift_right, asr, ror}
use prog.Util.Macros.{get_bit-eq-bit}

abbrev pub IsWord : ℕ → Type 0
IsWord x = x < 2 ^ 32

pub shift_left-lt : (a k : ℕ) → Ensures IsWord (shift_left a k)
unfolding shift_left
shift_left-lt a k = elim (Bool-cases (ltb k 32)) [
  | inl small ↦ rw small (value (omega arith))
  | inr large ↦ rw large no_value
]

pub shift_right-lt : (a k : ℕ) → a < 2 ^ 32 → Ensures IsWord (shift_right a k)
unfolding shift_right
shift_right-lt a k h = elim (Bool-cases (ltb k 32)) [
  | inl small ↦ rw small (value (omega arith))
  | inr large ↦ rw large no_value
]

pub asr-lt : (a k : ℕ) → a < 2 ^ 32 → Ensures IsWord (asr a k)
unfolding asr
asr-lt a k h = Ensures-bind (shift_right-lt a k h) λ low hl.
    Ensures-bind {P = IsWord}
      (choice (Ensures IsWord) _ (shift_left-lt 0xffff_ffff (32 - k)) (value (omega arith)))
      λ high hh. value (bit_or-lt low high 32 hl hh)

pub ror-lt : (a k : ℕ) → a < 2 ^ 32 → Ensures IsWord (ror a k)
unfolding ror
ror-lt a k h =
    Ensures-bind (shift_right-lt a k h) λ low hl.
      Ensures-bind (shift_left-lt a (32 - k)) λ high hh. value (bit_or-lt low high 32 hl hh)

-- The word of 32 - s low zeros below ones, where v is negative.
sign_fill : ℕ → ℕ → ℕ
sign_fill v s = if truth (get_bit v 31) then shl32 0xffff_ffff (32 - s) else 0

module _ (v s i : ℕ) (pos : 0 < s) (small : s < 32) (in_word : i < 32) where
  sign_fill_low : i < 32 - s → bit (sign_fill v s) i ≡ 0
  unfolding sign_fill
  sign_fill_low h = ground (arith, bit-shl32_lt (32 - s) 0xffff_ffff i in_word h, bit-zero_left i)

  sign_fill_high : 32 - s ≤ i → bit (sign_fill v s) i ≡ bit v 31
  unfolding sign_fill
  sign_fill_high h = ground (
    arith,
    bit-shl32_ge (32 - s) 0xffff_ffff i in_word h,
    bit-all_ones (i - (32 - s)) (omega arith),
    bit-zero_left i,
    get_bit-eq-bit v 31,
  )

asr_bits :
    (v s i : ℕ)
    → v < 2 ^ 32
    → 0 < s
    → s < 32
    → i < 32
    → bit (bit_or (shr v s) (sign_fill v s)) i ≡ bit v (min (i + s) 31)
asr_bits v s i word pos small h =
    bit-bit_or (shr v s) (sign_fill v s) i ∙ elim (Bool-cases (ltb i (32 - s))) [
      | inl low ↦
          let e : i + s ≡ min (i + s) 31 = ground arith in
          omega (arith, bit-shr s v i, sign_fill_low v s i pos small h (ground arith), ap (bit v) e)
      | inr high ↦
          let e : 31 ≡ min (i + s) 31 = ground arith in
          omega (
            arith,
            bit-shr s v i,
            bit-ge 32 v (i + s) word (ground arith),
            sign_fill_high v s i pos small h (ground arith),
            ap (bit v) e,
          )
    ]

-- For 0 < s < 32 `asr(v, s)` is the arithmetic shift: bit i of the result is bit i + s of v, and
-- from the top on v's sign.
pub asr_lem :
    (v s : ℕ)
    → v < 2 ^ 32
    → 0 < s
    → s < 32
    → (r : ℕ) × (asr v s ≡ ret r)
      × (r < 2 ^ 32)
      × ((i : ℕ) → i < 32 → bit r i ≡ bit v (min (i + s) 31))
unfolding asr shift_left shift_right sign_fill
asr_lem v s word pos small = (
  bit_or (shr v s) (sign_fill v s),
  ground arith,
  bit_or-lt (shr v s) (sign_fill v s) 32 (omega (arith, div-le_self v (2 ^ s)))
      (ground (arith, word)),
  λ i h. asr_bits v s i word pos small h,
)

ror_bits :
    (v s i : ℕ)
    → v < 2 ^ 32
    → 0 < s
    → s < 32
    → i < 32
    → bit (bit_or (shr v s) (shl32 v (32 - s))) i ≡ bit v ((i + s) % 32)
ror_bits v s i word pos small h =
    bit-bit_or (shr v s) (shl32 v (32 - s)) i ∙ elim (Bool-cases (ltb i (32 - s))) [
      | inl low ↦
          let e : i + s ≡ (i + s) % 32 = ground arith in
          omega (arith, bit-shr s v i, bit-shl32_lt (32 - s) v i h (ground arith), ap (bit v) e)
      | inr high ↦
          let e : i - (32 - s) ≡ (i + s) % 32 = ground arith in
          omega (
            arith,
            bit-shr s v i,
            bit-ge 32 v (i + s) word (ground arith),
            bit-shl32_ge (32 - s) v i h (ground arith),
            ap (bit v) e,
          )
    ]

-- For 0 < s < 32 `ror(v, s)` is the rotation: bit i of the result is bit i + s of v, round at 32.
pub ror_lem :
    (v s : ℕ)
    → v < 2 ^ 32
    → 0 < s
    → s < 32
    → (r : ℕ) × (ror v s ≡ ret r)
      × (r < 2 ^ 32)
      × ((i : ℕ) → i < 32 → bit r i ≡ bit v ((i + s) % 32))
unfolding ror shift_left shift_right
ror_lem v s word pos small = (
  bit_or (shr v s) (shl32 v (32 - s)),
  ground arith,
  bit_or-lt (shr v s) (shl32 v (32 - s)) 32 (omega (arith, div-le_self v (2 ^ s))) (omega arith),
  λ i h. ror_bits v s i word pos small h,
)

-- A shift count of 0 is defined for `asr` on a non-negative value alone, and never for `ror`.
pub shift_by_zero :
    (v : ℕ)
    → v < 2 ^ 32
    → (asr v 0 ≡ (if ltb v (2 ^ 31) then ret v else undefined)) × (ror v 0 ≡ undefined)
unfolding asr ror shift_left shift_right
shift_by_zero v word = (ground (arith, get_bit-eq-bit v 31, bit_or-zero (shr v 0)), refl)
