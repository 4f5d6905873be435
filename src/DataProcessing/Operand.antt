-- ===== src/DataProcessing/Operand.antt =====
-- `apply_rotation_imm` and `decode_operand` of arm_data_processing.c.
use prog.Prelude.{
  ℕ, ◌-◌, ◌*◌, Option, none, some, bit_and, bit_or, leb, ◌==◌, if◌then◌else◌, Run, ret, undefined,
  ◌>>=◌,
}
use mathlib.Core.Option
use prog.Word.{u8, shr}
use prog.Util.{get_bit, shift_left, shift_right, asr, ror}
use prog.Core.{Core, arm_read_register}

-- The left shift is undefined once its count, 8 - 2 * rotation_imm, is negative.
unfoldable pub apply_rotation_imm : ℕ → Run ℕ
apply_rotation_imm ins =
    let rotation_imm = u8 (shr (bit_and ins 0xf00) 8) in
    let immed_8 = u8 (bit_and ins 0xff) in
    if rotation_imm == 0 then ret immed_8 else do
      low ← shift_right immed_8 (rotation_imm * 2)
      high ←
          if leb (rotation_imm * 2) 8 then shift_left immed_8 (8 - rotation_imm * 2) else undefined
      ret (bit_or low high)

-- The `switch` on the shift's kind: LSL, LSR, ASR, ROR.
unfoldable pub shifted : ℕ → ℕ → ℕ → Run ℕ
shifted shift value val_shift =
    if shift == 0
    then shift_left value val_shift
    else if shift == 1
    then shift_right value val_shift
    else if shift == 2
    then asr value val_shift
    else if shift == 3
    then ror value val_shift
    else ret value

-- `*val_2`, or `none` for the return of -1.
unfoldable pub shifter_operand : Core → ℕ → Run (Option ℕ)
shifter_operand p ins =
    let shift = u8 (bit_and (shr ins 5) 2) in
    let value = arm_read_register p (bit_and ins 0xf) in
    let val_shift = u8 (arm_read_register p (bit_and (shr ins 8) 0xf)) in
    if get_bit ins 25 == 1
    then apply_rotation_imm ins >>= (λ v. ret (some v))
    else if get_bit ins 4 == 0
    then shifted shift value (bit_and (shr ins 7) 31) >>= (λ v. ret (some v))
    else if get_bit ins 7 == 0
    then shifted shift value val_shift >>= (λ v. ret (some v))
    else ret none

-- `some (val_1, val_2)` for a return of 0.
unfoldable pub decode_operand : Core → ℕ → Run (Option (ℕ × ℕ))
decode_operand p ins = do
  operand ← shifter_operand p ins
  ret (Option.map (λ val_2. (arm_read_register p (bit_and (shr ins 16) 0xf), val_2)) operand)
