-- ===== src/Tests/Operations.antt =====
-- Data processing, at inputs.
use prog.Prelude.{
  ℕ, none, Option, Run, ◌/◌, ◌%◌, ◌^◌, ◌<◌, ◌≡◌, refl, true, not, ◌&&◌, some, arith, ltb, leb, ◌==◌,
  if◌then◌else◌, ret, ◌>>=◌,
}
use prog.Tests.{moves_core}
use prog.Constants.{undefined_instruction}
use prog.Core.{arm_read_cpsr, arm_read_register, arm_write_register}
use prog.DataProcessing.{arm_data_processing_shift}
use prog.DataProcessing.Compare.{arm_cmp_flags}
use prog.DataProcessing.Conditions.{arm_cmp_unsigned}
use prog.DataProcessing.Flags.{flag}
use prog.DataProcessing.Msr.{Locals, arm_data_processing_immediate_msr, msr_never}
use prog.DataProcessing.Operand.{apply_rotation_imm, decode_operand, shifter_operand}
use prog.DataProcessing.Operations.{arm_cmp}
use prog.DataProcessing.Results.{alu, arm_data_processing_shift_result}
use prog.DataProcessing.Shifter.{shifter_operand_lem}
use prog.Util.{asr, shift_left, cc_lo, condition_holds, condition_passed, cs_hs, eq, hi, ls, ne}
use prog.Word.{bit, sub32}

abbrev locals : Locals
locals = record { tmp = 0; tmp2 = 0; tmp3 = 0; tmp4 = 0 }

added :
    (condition_passed (arm_read_cpsr moves_core) 0xe080_2001 ≡ true)
    × (decode_operand moves_core 0xe080_2001 ≡ ret (some (0, 0)))
unfolding prog.Util.condition_passed prog.Util.condition_holds prog.Util.arm_get_cond
    prog.Util.cond_of prog.DataProcessing.Operand.decode_operand
    prog.DataProcessing.Operand.shifter_operand prog.DataProcessing.Operand.shifted
    prog.Util.shift_left prog.Util.get_bit prog.Core.arm_read_register prog.Registers.read_register
    prog.Core.arm_write_cpsr prog.Core.arm_write_usr_register prog.Exception.arm_create
    prog.Exception.arm_exception
added = (refl, refl)

sum : alu 4 0 0 (bit (arm_read_cpsr moves_core) 29) ≡ some 0
unfolding prog.DataProcessing.Results.alu
sum = refl

arm_cmp_flags_example :
    let q = arm_cmp moves_core 5 7 (flag moves_core 29) 0 in
    (flag q 31 ≡ bit (sub32 5 7) 31)
    × (flag q 30 ≡ (if 5 == 7 then 1 else 0))
    × (flag q 29 ≡ (if ltb 0 7 && leb 7 5 then 1 else 0))
    × (flag q 28
        ≡ (if (bit 5 31 == bit 7 31) && not (bit 5 31 == bit (sub32 5 7) 31) then 1 else 0))
    × ((j : ℕ) → j < 28 → flag q j ≡ flag moves_core j)
arm_cmp_flags_example = arm_cmp_flags moves_core 5 7 (omega arith) (omega arith) 0

arm_cmp_unsigned_example :
    (condition_holds (some eq) (arm_read_cpsr (arm_cmp moves_core 7 5 (flag moves_core 29) 0))
      ≡ (7 == 5))
    × (condition_holds (some ne) (arm_read_cpsr (arm_cmp moves_core 7 5 (flag moves_core 29) 0))
        ≡ not (7 == 5))
    × (condition_holds (some cs_hs) (arm_read_cpsr (arm_cmp moves_core 7 5 (flag moves_core 29) 0))
        ≡ leb 5 7)
    × (condition_holds (some cc_lo) (arm_read_cpsr (arm_cmp moves_core 7 5 (flag moves_core 29) 0))
        ≡ ltb 7 5)
    × (condition_holds (some hi) (arm_read_cpsr (arm_cmp moves_core 7 5 (flag moves_core 29) 0))
        ≡ ltb 5 7)
    × (condition_holds (some ls) (arm_read_cpsr (arm_cmp moves_core 7 5 (flag moves_core 29) 0))
        ≡ leb 7 5)
arm_cmp_unsigned_example =
    arm_cmp_unsigned moves_core 7 5 0 (omega arith) (omega arith) (omega arith)

shifter_operand_lem_example :
    let rm_value = arm_read_register moves_core (0xe1a0_1310 % 16) in
    let by : ℕ → Run (Option ℕ) = λ count.
      (if bit 0xe1a0_1310 6 == 0 then shift_left rm_value count else asr rm_value count)
      >>= (λ v. ret (some v)) in
    shifter_operand moves_core 0xe1a0_1310 ≡ (
      if bit 0xe1a0_1310 25 == 1
      then apply_rotation_imm 0xe1a0_1310 >>= (λ v. ret (some v))
      else if bit 0xe1a0_1310 4 == 0
      then by (0xe1a0_1310 / 2 ^ 7 % 32)
      else if bit 0xe1a0_1310 7 == 0
      then by (arm_read_register moves_core (0xe1a0_1310 / 2 ^ 8 % 16) % 256)
      else ret none)
shifter_operand_lem_example = shifter_operand_lem moves_core 0xe1a0_1310

msr_never_example :
    arm_data_processing_immediate_msr locals moves_core 0xe321_f0d3
    ≡ (apply_rotation_imm 0xe321_f0d3 >>= (λ _. ret (undefined_instruction, moves_core)))
msr_never_example = msr_never locals moves_core 0xe321_f0d3

arm_data_processing_shift_result_example :
    arm_data_processing_shift moves_core 0xe080_2001
    ≡ ret (0, arm_write_register moves_core (0xe080_2001 / 2 ^ 12 % 16) 0)
arm_data_processing_shift_result_example =
    arm_data_processing_shift_result moves_core 0xe080_2001 0 0 0 refl (omega arith) (omega arith)
      added.0 added.1 sum
