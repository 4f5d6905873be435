-- ===== src/Branch.antt =====
-- arm_branch_other.c: B, BL and SWI.
pub mod Target
use prog.Prelude.{ℕ, bit_and, bit_or, ◌==◌, if◌then◌else◌, truth, Run, ret, exited}
use prog.Word.{add32, sub32, shl32}
use prog.Constants.{undefined_instruction, software_interrupt}
use prog.Util.{get_bit, condition_passed}
use prog.Core.{Core, arm_read_register, arm_read_cpsr, arm_write_register}

-- `get_bit(ins, 23) ? ins | ~0<<23 : ins & ~0>>(32-23)`, shifted left by 2. `~0` is the int -1:
-- shifted right it stays -1.
unfoldable pub branch_offset : ℕ → ℕ
branch_offset ins =
    shl32
      (if truth (get_bit ins 23)
        then bit_or ins (shl32 0xffff_ffff 23)
        else bit_and ins 0xffff_ffff)
      2

unfoldable pub arm_branch : Core → ℕ → ℕ × Core
arm_branch p ins =
    let p1 =
      if get_bit ins 24 == 1
      then arm_write_register p 14 (sub32 (arm_read_register p 15) 4)
      else p in
    (
      0,
      if condition_passed (arm_read_cpsr p) ins
          then arm_write_register p1 15 (add32 (arm_read_register p1 15) (branch_offset ins))
          else p,
    )

-- `swi 0x123456` ends the simulation.
unfoldable pub arm_coprocessor_others_swi : Core → ℕ → Run ℕ
arm_coprocessor_others_swi p ins =
    if truth (get_bit ins 24)
    then if bit_and ins 0xff_ffff == 0x12_3456 then exited 0 else ret software_interrupt
    else ret undefined_instruction

unfoldable pub arm_miscellaneous : Core → ℕ → ℕ
arm_miscellaneous p ins = undefined_instruction
