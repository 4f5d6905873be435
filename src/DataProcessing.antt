-- ===== src/DataProcessing.antt =====
-- arm_data_processing.c: the flags, the sixteen operations, the shifter operand and the decoders.
-- Each function that takes the core returns the new one, behind its result where it has one.
pub mod Operations
pub mod Operand
pub mod Msr
pub mod Frame
pub mod Flags
pub mod Compare
pub mod Conditions
pub mod Valid
pub mod Shifter
pub mod Results
pub mod Written
pub mod WithS
use prog.Prelude.{
  ℕ, ◌+◌, Bool, not, ◌&&◌, Option, none, some, bit_and, bit_or, bit_xor, ltb, leb, ◌==◌,
  if◌then◌else◌, truth, Run, ret, ◌>>=◌,
}
use prog.Word.{u8, add32, sub32, not32, shr}
use prog.Constants.{undefined_instruction}
use prog.Util.{get_bit, set_bit, clr_bit, condition_passed}
use prog.Core.{Core, arm_read_register, arm_read_cpsr, arm_write_register}
use Operand.{decode_operand}
use Operations.{
  arm_and, arm_eor, arm_sub, arm_orr, arm_add, arm_bic, arm_mov, arm_mvn, arm_sbc, arm_adc, arm_teq,
  arm_tst, arm_cmp, arm_cmn, arm_rsb, arm_rsc,
}

-- The `switch` on the opcode.
unfoldable pub dispatch : Core → ℕ → ℕ → ℕ → ℕ → ℕ × Core
dispatch p ins opcode val_1 val_2 =
    let bit_s = get_bit ins 20 in
    let bit_c = get_bit (arm_read_cpsr p) 29 in
    let bit_v = get_bit (arm_read_cpsr p) 28 in
    let rd = u8 (bit_and (shr ins 12) 0xf) in
    let written : ℕ × Core → ℕ × Core = λ done. (0, arm_write_register done.1 rd done.0) in
    if opcode == 0
    then written (arm_and p val_1 val_2 bit_s)
    else if opcode == 1
    then written (arm_eor p val_1 val_2 bit_s)
    else if opcode == 2
    then written (arm_sub p val_1 val_2 bit_s bit_c bit_v)
    else if opcode == 3
    then (0, arm_rsb p rd val_1 val_2 bit_s bit_c bit_v)
    else if opcode == 4
    then written (arm_add p val_1 val_2 bit_s bit_c bit_v)
    else if opcode == 5
    then written (arm_adc p val_1 val_2 bit_c bit_s)
    else if opcode == 6
    then written (arm_sbc p val_1 val_2 bit_c bit_s bit_v)
    else if opcode == 7
    then (0, arm_rsc p (u8 val_1) rd val_2 bit_s bit_c)
    else if opcode == 8
    then (0, arm_tst p val_1 val_2)
    else if opcode == 9
    then (0, arm_teq p val_1 val_2)
    else if opcode == 10
    then (0, arm_cmp p val_1 val_2 bit_c bit_v)
    else if opcode == 11
    then (0, arm_cmn p val_1 val_2 bit_c)
    else if opcode == 12
    then written (arm_orr p val_1 val_2 bit_s)
    else if opcode == 13
    then (0, arm_mov p rd val_2 bit_s)
    else if opcode == 14
    then written (arm_bic p val_1 val_2 bit_s)
    else if opcode == 15
    then (0, arm_mvn p rd val_2 bit_s)
    else (undefined_instruction, p)

-- What follows `decode_operand`.
unfoldable pub run_operands : Core → ℕ → Option (ℕ × ℕ) → ℕ × Core
run_operands p ins none = (undefined_instruction, p)
run_operands p ins (some (val_1, val_2)) =
    dispatch p ins (u8 (bit_and (shr ins 21) 0xf)) val_1 val_2

unfoldable pub arm_data_processing_shift : Core → ℕ → Run (ℕ × Core)
arm_data_processing_shift p ins =
    if condition_passed (arm_read_cpsr p) ins
    then decode_operand p ins >>= (λ operands. ret (run_operands p ins operands))
    else ret (undefined_instruction, p)
