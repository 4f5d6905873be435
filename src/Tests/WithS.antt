-- ===== src/Tests/WithS.antt =====
-- A subtraction with S, at inputs.
use prog.Prelude.{ℕ, ◌≡◌, refl, true, some, arith, ret, Returns}
use prog.Tests.{moves_core}
use prog.Word.{bit}
use prog.Util.{condition_passed}
use prog.Core.{arm_read_cpsr}
use prog.DataProcessing.{arm_data_processing_shift}
use prog.DataProcessing.Operand.{decode_operand}
use prog.DataProcessing.Results.{alu}
use prog.DataProcessing.Written.{IsWritten}
use prog.DataProcessing.WithS.{arm_data_processing_shift_flags}

-- subs r2, r0, r1
abbrev subtraction : ℕ
subtraction = 0xe050_2001

subtracted :
    (condition_passed (arm_read_cpsr moves_core) subtraction ≡ true)
    × (decode_operand moves_core subtraction ≡ ret (some (0, 0)))
unfolding prog.Util.condition_passed prog.Util.condition_holds prog.Util.arm_get_cond
    prog.Util.cond_of prog.DataProcessing.Operand.decode_operand
    prog.DataProcessing.Operand.shifter_operand prog.DataProcessing.Operand.shifted
    prog.Util.shift_left prog.Util.get_bit prog.Core.arm_read_register prog.Registers.read_register
    prog.Core.arm_write_cpsr prog.Core.arm_write_usr_register prog.Exception.arm_create
    prog.Exception.arm_exception
subtracted = (refl, refl)

difference : alu 2 0 0 (bit (arm_read_cpsr moves_core) 29) ≡ some 0
unfolding prog.DataProcessing.Results.alu
difference = refl

arm_data_processing_shift_flags_example :
    Returns
      (λ (result, q). (result ≡ 0) × IsWritten moves_core 2 0 q)
      (arm_data_processing_shift moves_core subtraction)
arm_data_processing_shift_flags_example =
    arm_data_processing_shift_flags moves_core subtraction 0 0 0 refl (omega arith) (omega arith)
      (omega arith) (omega arith) (omega arith) subtracted.0 subtracted.1 difference
