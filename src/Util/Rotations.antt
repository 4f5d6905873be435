-- ===== src/Util/Rotations.antt =====
-- `ror` as single steps.
use prog.Prelude.{
  ℕ, zero, suc, ◌+◌, ◌*◌, ◌/◌, ◌%◌, ◌^◌, ◌<◌, ◌≡◌, ap, sym, ◌∙◌, arith, ltb, Bool-cases, inl, inr,
  ret,
}
use prog.Word.{bit}
use prog.Word.Bits.{bit-suc, bits_ext}
use prog.Word.Shift.{bit-mod}
use prog.Util.{ror}
use prog.Util.Shifts.{ror_lem}

-- A rotation to the right by one bit, and by s of them.
abbrev rotation : ℕ → ℕ
rotation v = v / 2 + v % 2 * 2 ^ 31

unfoldable pub rotations : (s : ℕ) → ℕ → ℕ
rotations zero v = v
rotations (suc s) v = rotations s (rotation v)

bit-rotation : (v i : ℕ) → v < 2 ^ 32 → i < 32 → bit (rotation v) i ≡ bit v ((i + 1) % 32)
bit-rotation v i word h = elim (Bool-cases (ltb i 31)) [
  | inl low ↦
      let below : i < 31 = ground arith in
      let half : rotation v % 2 ^ 31 ≡ v / 2 = omega arith in
      let next : suc i ≡ (i + 1) % 32 = omega arith in
      sym (bit-mod 31 (rotation v) i below)
      ∙ ap (λ x. bit x i) half
      ∙ sym (bit-suc v i)
      ∙ ap (bit v) next
  | inr high ↦
      let top : i ≡ 31 = ground arith in
      let first : 0 ≡ (i + 1) % 32 = omega arith in
      let carried : bit (rotation v) 31 ≡ bit v 0 = omega arith in
      ap (bit (rotation v)) top ∙ carried ∙ ap (bit v) first
]

pub rotations-lt : (s v : ℕ) → v < 2 ^ 32 → rotations s v < 2 ^ 32
unfolding rotations
rotations-lt zero v word = word
rotations-lt (suc s) v word = rotations-lt s (rotation v) (omega arith)

bit-rotations : (s v i : ℕ) → v < 2 ^ 32 → i < 32 → bit (rotations s v) i ≡ bit v ((i + s) % 32)
unfolding rotations
bit-rotations zero v i word h = ap (bit v) (omega arith)
bit-rotations (suc s) v i word h =
    bit-rotations s (rotation v) i (omega arith) h
    ∙ bit-rotation v ((i + s) % 32) word (omega arith)
    ∙ ap (bit v) (omega arith)

-- For 0 < s < 32 `ror(v, s)` is s rotations by one bit.
pub ror-eq-rotations : (v s : ℕ) → v < 2 ^ 32 → 0 < s → s < 32 → ror v s ≡ ret (rotations s v)
ror-eq-rotations v s word pos small =
    let (r, runs, r_word, r_bits) = ror_lem v s word pos small in
    runs
    ∙ ap ret (
        bits_ext 32 r (rotations s v) r_word (rotations-lt s v word)
          λ i h. r_bits i h ∙ sym (bit-rotations s v i word h))
