-- ===== src/DataProcessing/Shifter.antt =====
-- The shifter operand: its range, when it is defined, and what it is.
use mathlib.Core.Option
use prog.Prelude.{
  ℕ, zero, suc, ◌-◌, ◌*◌, ◌/◌, ◌%◌, ◌^◌, ◌<◌, ◌≡◌, inl, inr, Bool-cases, Option, none, some, arith,
  bit_and, bit_or, if◌then◌else◌, Run, ret, undefined, Ensures, value, no_value, Ensures-bind, ◌==◌,
  ◌>>=◌, choice, leb,
}
use prog.Word.{u8, shr, shl32, bit}
use prog.Word.Bits.{bit-bit_and, bit_or-lt}
use prog.Word.Fields.{bit_and-mask, half-bit_and, shr-bit_and}
use prog.Util.{get_bit, shift_left, shift_right, asr}
use prog.Util.Macros.{get_bit-eq-bit}
use prog.Util.Shifts.{IsWord, shift_left-lt, shift_right-lt, asr-lt, ror-lt}
use prog.Core.{Core, arm_read_register}
use prog.Core.Valid.{IsValid, arm_read_register-lt}
use prog.DataProcessing.Operand.{apply_rotation_imm, shifted, shifter_operand, decode_operand}

apply_rotation_imm-lt : (ins : ℕ) → Ensures IsWord (apply_rotation_imm ins)
unfolding apply_rotation_imm
apply_rotation_imm-lt ins =
    let immed_8 = u8 (bit_and ins 0xff) in
    let small : IsWord immed_8 = omega arith in
    choice (Ensures IsWord) (u8 (shr (bit_and ins 0xf00) 8) == 0) (value small) (
      Ensures-bind (shift_right-lt immed_8 _ small) λ low hl.
        Ensures-bind {P = IsWord} (choice (Ensures IsWord) _ (shift_left-lt immed_8 _) no_value)
          λ high hh. value (bit_or-lt low high 32 hl hh))

shifted-lt : (k v s : ℕ) → v < 2 ^ 32 → Ensures IsWord (shifted k v s)
unfolding shifted
shifted-lt k v s h = choice (Ensures IsWord) _ (shift_left-lt v s) (
    choice (Ensures IsWord) _ (shift_right-lt v s h) (
      choice (Ensures IsWord) _ (asr-lt v s h)
        (choice (Ensures IsWord) _ (ror-lt v s h) (value h))))

-- Both operands are words.
abbrev pub AreWords : Option (ℕ × ℕ) → Type 0
AreWords none = Unit {0}
AreWords (some (a, b)) = (a < 2 ^ 32) × (b < 2 ^ 32)

abbrev IsWord? : Option ℕ → Type 0
IsWord? none = Unit {0}
IsWord? (some b) = b < 2 ^ 32

present : (m : Run ℕ) → Ensures IsWord m → Ensures IsWord? (m >>= (λ v. ret (some v)))
present m e = Ensures-bind e (λ v h. value h)

module _ {p : Core} (valid : IsValid p) (ins : ℕ) where
  shifter_operand-lt : Ensures IsWord? (shifter_operand p ins)
  unfolding shifter_operand
  shifter_operand-lt =
      let shift = u8 (bit_and (shr ins 5) 2) in
      let rm_word = arm_read_register-lt valid (bit_and ins 0xf) in
      let val_shift = u8 (arm_read_register p (bit_and (shr ins 8) 0xf)) in
      choice (Ensures IsWord?) (get_bit ins 25 == 1) (present _ (apply_rotation_imm-lt ins)) (
        choice (Ensures IsWord?) (get_bit ins 4 == 0)
          (present _ (shifted-lt shift _ (bit_and (shr ins 7) 31) rm_word))
          (choice (Ensures IsWord?) (get_bit ins 7 == 0)
            (present _ (shifted-lt shift _ val_shift rm_word)) (value {a = none} (tt {0}))))

  pub decode_operand-AreWords : Ensures AreWords (decode_operand p ins)
  unfolding decode_operand
  decode_operand-AreWords = Ensures-bind shifter_operand-lt λ o h. pair o h
    where
      pair :
          (o : Option ℕ)
          → IsWord? o
          → Ensures AreWords
              (ret (Option.map (λ v. (arm_read_register p (bit_and (shr ins 16) 0xf), v)) o))
      pair none h = value tt
      pair (some v) h = value (arm_read_register-lt valid _, h)

-- The fields of a shifted register, and of a rotated immediate.
kind_lem : (ins : ℕ) → u8 (bit_and (shr ins 5) 2) ≡ bit ins 6 * 2
kind_lem ins =
    omega (
      arith,
      half-bit_and (shr ins 5) 2,
      bit-bit_and (shr ins 5) 2 0,
      bit_and-mask 1 (shr ins 5 / 2),
    )

rotation_lem : (ins : ℕ) → u8 (shr (bit_and ins 0xf00) 8) ≡ ins / 2 ^ 8 % 16
rotation_lem ins = omega (arith, shr-bit_and 8 ins 0xf00, bit_and-mask 4 (shr ins 8))

immed_lem : (ins : ℕ) → u8 (bit_and ins 0xff) ≡ ins % 256
immed_lem ins = omega (arith, bit_and-mask 8 ins)

-- A register shifted by an immediate count, whatever the shift's kind in bits 6 and 5: where bit 6 is
-- 0 the register is shifted left by bits 11 to 7, and where it is 1 `asr` is applied. So the
-- encodings of LSR are shifted left, and those of ROR arithmetically right.
shifter_operand_kinds :
    (p : Core) (ins : ℕ)
    → bit ins 25 ≡ 0
    → bit ins 4 ≡ 0
    → let rm_value = arm_read_register p (ins % 16) in
      let count = ins / 2 ^ 7 % 32 in
      shifter_operand p ins ≡ (
        if bit ins 6 == 0
        then ret (some (shl32 rm_value count))
        else asr rm_value count >>= (λ v. ret (some v)))
unfolding shifter_operand shifted shift_left
shifter_operand_kinds p ins register immediate = ground (
  arith,
  kind_lem ins,
  get_bit-eq-bit ins 25,
  get_bit-eq-bit ins 4,
  bit_and-mask 4 ins,
  bit_and-mask 5 (shr ins 7),
)

rotated_high :
    (rotation immed : ℕ)
    → rotation < 5
    → immed < 256
    → shl32 immed (8 - rotation * 2) ≡ immed * 2 ^ (8 - rotation * 2)
rotated_high zero immed low small = omega arith
rotated_high (suc zero) immed low small = omega arith
rotated_high (suc (suc zero)) immed low small = omega arith
rotated_high (suc (suc (suc zero))) immed low small = omega arith
rotated_high (suc (suc (suc (suc zero)))) immed low small = omega arith
rotated_high (suc (suc (suc (suc (suc _))))) immed low small = omega arith

rotated :
    (rotation immed : ℕ)
    → immed < 256
    → (if rotation == 0 then ret immed else do
      low ← shift_right immed (rotation * 2)
      high ← if leb (rotation * 2) 8 then shift_left immed (8 - rotation * 2) else undefined
      ret (bit_or low high))
      ≡ (if rotation == 0
          then ret immed
          else if leb rotation 4
          then ret (bit_or (shr immed (rotation * 2)) (immed * 2 ^ (8 - rotation * 2)))
          else undefined)
unfolding shift_left shift_right
rotated rotation immed small = elim (Bool-cases (leb rotation 4)) [
  | inl low ↦ ground (arith, rotated_high rotation immed)
  | inr high ↦ ground arith
]

-- A rotated immediate is its low byte at rotation 0; at rotations 1 to 4 it is that byte shifted
-- right, `|` the byte shifted left within eight bits, and from 5 on it is undefined.
pub apply_rotation_imm_lem :
    (ins : ℕ)
    → let rotation = ins / 2 ^ 8 % 16 in
      let immed = ins % 256 in
      apply_rotation_imm ins ≡ (
        if rotation == 0
        then ret immed
        else if leb rotation 4
        then ret (bit_or (shr immed (rotation * 2)) (immed * 2 ^ (8 - rotation * 2)))
        else undefined)
unfolding apply_rotation_imm
apply_rotation_imm_lem ins =
    rw (rotation_lem ins, immed_lem ins) (rotated (ins / 2 ^ 8 % 16) (ins % 256) (omega arith))

-- The shifter operand of every instruction. With bit 25 it is the rotated immediate. Without it, a
-- register is shifted by bits 11 to 7 where bit 4 is 0, and by the low byte of the register in bits 11
-- to 8 where bit 4 is 1 and bit 7 is 0: to the left where bit 6 is 0, whatever bit 5, and by `asr` where
-- bit 6 is 1. So the encodings of LSR are shifted left, those of ROR arithmetically right, and a shift to
-- the left by 32 or more is undefined. With bits 4 and 7 there is no operand.
pub shifter_operand_lem :
    (p : Core) (ins : ℕ)
    → let rm_value = arm_read_register p (ins % 16) in
      let by : ℕ → Run (Option ℕ) = λ count.
        (if bit ins 6 == 0 then shift_left rm_value count else asr rm_value count)
        >>= (λ v. ret (some v)) in
      shifter_operand p ins ≡ (
        if bit ins 25 == 1
        then apply_rotation_imm ins >>= (λ v. ret (some v))
        else if bit ins 4 == 0
        then by (ins / 2 ^ 7 % 32)
        else if bit ins 7 == 0
        then by (arm_read_register p (ins / 2 ^ 8 % 16) % 256)
        else ret none)
unfolding shifter_operand shifted
shifter_operand_lem p ins = ground (
  arith,
  kind_lem ins,
  get_bit-eq-bit ins 25,
  get_bit-eq-bit ins 4,
  get_bit-eq-bit ins 7,
  bit_and-mask 4 ins,
  bit_and-mask 5 (shr ins 7),
  bit_and-mask 4 (shr ins 8),
)
