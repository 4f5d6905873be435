-- ===== src/DataProcessing/Results.antt =====
-- What the operations write without S.
use prog.Prelude.{
  ℕ, ◌+◌, ◌-◌, ◌/◌, ◌%◌, ◌^◌, ◌<◌, ◌≡◌, ap, true, Option, none, some, arith, bit_and, bit_or,
  bit_xor, ◌==◌, if◌then◌else◌, ret,
}
use prog.Word.{bit, u8, shr}
use prog.Word.Fields.{bit_and-mask}
use prog.Util.{condition_passed}
use prog.Util.Macros.{get_bit-eq-bit}
use prog.Core.{Core, arm_read_cpsr, arm_write_register}
use prog.DataProcessing.Operand.{decode_operand}
use prog.DataProcessing.Operations.{
  arm_and, arm_eor, arm_sub, arm_orr, arm_add, arm_bic, arm_mov, arm_mvn, arm_sbc, arm_adc, arm_rsb,
  arm_rsc,
}
use prog.DataProcessing.{dispatch, run_operands, arm_data_processing_shift}

-- The result of an opcode on operands and carry, in arithmetic modulo 2 ^ 32, for the operations that
-- have one but RSC: AND, EOR, SUB, RSB, ADD, ADC, SBC, ORR, MOV, BIC, MVN. RSB is as SUB.
unfoldable pub alu : (opcode a b carry : ℕ) → Option ℕ
alu opcode a b carry =
    if opcode == 0
    then some (bit_and a b)
    else if opcode == 1
    then some (bit_xor a b)
    else if opcode == 2
    then some ((a + (2 ^ 32 - b)) % 2 ^ 32)
    else if opcode == 3
    then some ((a + (2 ^ 32 - b)) % 2 ^ 32)
    else if opcode == 4
    then some ((a + b) % 2 ^ 32)
    else if opcode == 5
    then some ((a + b + carry) % 2 ^ 32)
    else if opcode == 6
    then some ((a + (2 ^ 32 - b) + (2 ^ 32 - (1 - carry))) % 2 ^ 32)
    else if opcode == 12
    then some (bit_or a b)
    else if opcode == 13
    then some b
    else if opcode == 14
    then some (bit_and a (2 ^ 32 - 1 - b))
    else if opcode == 15
    then some (2 ^ 32 - 1 - b)
    else none

pub opcode_lem : (ins : ℕ) → u8 (bit_and (shr ins 21) 0xf) ≡ ins / 2 ^ 21 % 16
opcode_lem ins = omega (arith, bit_and-mask 4 (shr ins 21))

module _ (p : Core) (ins a b r : ℕ) (silent : bit ins 20 ≡ 0) (a_word : a < 2 ^ 32)
    (b_word : b < 2 ^ 32) where
  dispatch_lem :
      (opcode : ℕ)
      → alu opcode a b (bit (arm_read_cpsr p) 29) ≡ some r
      → dispatch p ins opcode a b ≡ (0, arm_write_register p (ins / 2 ^ 12 % 16) r)
  unfolding alu dispatch arm_and arm_eor arm_sub arm_orr arm_add arm_bic arm_mov arm_mvn arm_sbc
      arm_adc arm_rsb
  dispatch_lem opcode result = ground (
    arith,
    get_bit-eq-bit ins 20,
    get_bit-eq-bit (arm_read_cpsr p) 29,
    bit_and-mask 4 (shr ins 12),
  )

  -- Without S and when its condition passes, an instruction whose operands are the words a and b and
  -- whose opcode has a result r writes r to rd, and changes nothing else.
  pub arm_data_processing_shift_result :
      condition_passed (arm_read_cpsr p) ins ≡ true
      → decode_operand p ins ≡ ret (some (a, b))
      → alu (ins / 2 ^ 21 % 16) a b (bit (arm_read_cpsr p) 29) ≡ some r
      → arm_data_processing_shift p ins ≡ ret (0, arm_write_register p (ins / 2 ^ 12 % 16) r)
  unfolding arm_data_processing_shift run_operands
  arm_data_processing_shift_result passed operands result =
      rw (passed, operands) (ap ret (dispatch_lem _ (rw (opcode_lem ins) result)))

rsc_lem :
    (p : Core) (ins a b : ℕ)
    → bit ins 20 ≡ 0
    → b < 2 ^ 32
    → dispatch p ins 7 a b ≡ (
      0,
      arm_write_register p
          (a % 256)
          ((b + (2 ^ 32 - ins / 2 ^ 12 % 16) + (2 ^ 32 - (1 - bit (arm_read_cpsr p) 29))) % 2 ^ 32),
    )
unfolding dispatch arm_rsc
rsc_lem p ins a b silent b_word =
    ground (
      arith,
      get_bit-eq-bit ins 20,
      get_bit-eq-bit (arm_read_cpsr p) 29,
      bit_and-mask 4 (shr ins 12),
    )

-- RSC without S, when its condition passes and its operands are a and the word b, writes b less the
-- number of the destination register and less the inverted carry; and it writes it to the register
-- whose number is the low byte of a.
pub arm_data_processing_shift_rsc :
    (p : Core) (ins a b : ℕ)
    → bit ins 20 ≡ 0
    → b < 2 ^ 32
    → ins / 2 ^ 21 % 16 ≡ 7
    → condition_passed (arm_read_cpsr p) ins ≡ true
    → decode_operand p ins ≡ ret (some (a, b))
    → arm_data_processing_shift p ins
      ≡ ret (
        0,
        arm_write_register p (a % 256) (
            (b + (2 ^ 32 - ins / 2 ^ 12 % 16) + (2 ^ 32 - (1 - bit (arm_read_cpsr p) 29)))
            % 2 ^ 32),
      )
unfolding arm_data_processing_shift run_operands
arm_data_processing_shift_rsc p ins a b silent b_word opcode passed operands =
    rw (passed, operands, opcode_lem ins, opcode) (ap ret (rsc_lem p ins a b silent b_word))
