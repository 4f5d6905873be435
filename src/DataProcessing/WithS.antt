-- ===== src/DataProcessing/WithS.antt =====
-- What the data processing instructions with S leave, by opcode.
use mathlib.Core.Path.{subst}
use prog.Prelude.{
  ℕ, zero, suc, ◌/◌, ◌%◌, ◌^◌, ◌<◌, ◌≡◌, ◌≢◌, refl, ap, ◌∙◌, true, none, some, some_injective,
  arith, bit_and, bit_or, ret, Returns, returns,
}
use prog.Word.{bit, u8, shr, not32}
use prog.Word.Fields.{bit_and-mask}
use prog.Util.{get_bit, condition_passed}
use prog.Util.Macros.{get_bit-eq-bit}
use prog.Core.{Core, arm_read_cpsr}
use prog.DataProcessing.Operand.{decode_operand}
use prog.DataProcessing.Operations.{
  arm_and, arm_eor, arm_sub, arm_orr, arm_bic, arm_mov, arm_mvn, arm_adc,
}
use prog.DataProcessing.Results.{alu, opcode_lem}
use prog.DataProcessing.{dispatch, run_operands, arm_data_processing_shift}
use prog.DataProcessing.Written.{
  IsWritten, carry, tst_lem, teq_lem, sub_lem, rsb_lem, cmn_lem, zn_lem, moved_lem,
}

no_result : {r : ℕ} {A : Type 0} → none ≡ some r → A
no_result {r} {A} e = subst (λ o. elim o [ none ↦ Unit {0} | some _ ↦ A ]) e tt

-- The opcodes whose flags are those of their result: all that have one but ADD and SBC, which take the
-- flags of other differences, and RSC.
module _ (p : Core) (ins : ℕ) {rd : ℕ} (low : rd < 15) (a b : ℕ) (a_word : a < 2 ^ 32)
    (b_word : b < 2 ^ 32) (on : get_bit ins 20 ≡ 1) (to : u8 (bit_and (shr ins 12) 0xf) ≡ rd) where
  named : {x r : ℕ} {q : Core} → some x ≡ some r → IsWritten p rd x q → IsWritten p rd r q
  named {q = q} e = subst (λ y. IsWritten p rd y q) (some_injective e)

  dispatch_lem :
      (opcode : ℕ) {r : ℕ}
      → opcode < 16
      → opcode ≢ 4
      → opcode ≢ 6
      → alu opcode a b (carry p) ≡ some r
      → IsWritten p rd r ((dispatch p ins opcode a b).1)
  unfolding dispatch alu arm_and arm_eor arm_sub arm_orr arm_bic arm_mov arm_mvn arm_adc
  dispatch_lem zero h add sbc e = rw (on, to) (named e (tst_lem p low a b a_word b_word a b))
  dispatch_lem (suc zero) h add sbc e = rw (on, to) (named e (teq_lem p low a b a_word b_word))
  dispatch_lem (suc (suc zero)) h add sbc e =
      rw (on, to)
        (named (ap some (omega arith) ∙ e)
          (sub_lem p low a b a_word b_word (get_bit (arm_read_cpsr p) 28)))
  dispatch_lem (suc (suc (suc zero))) h add sbc e =
      rw (on, to)
        (named (ap some (omega arith) ∙ e)
          (rsb_lem p low a b a_word b_word (get_bit (arm_read_cpsr p) 28)))
  dispatch_lem (suc (suc (suc (suc zero)))) h add sbc e = absurd (add refl)
  dispatch_lem (suc (suc (suc (suc (suc zero))))) h add sbc e =
      rw (on, to) (named (ap some (omega arith) ∙ e) (cmn_lem p low a b a_word b_word))
  dispatch_lem (suc (suc (suc (suc (suc (suc zero)))))) h add sbc e = absurd (sbc refl)
  dispatch_lem (suc (suc (suc (suc (suc (suc (suc zero))))))) h add sbc e = no_result e
  dispatch_lem (suc (suc (suc (suc (suc (suc (suc (suc zero)))))))) h add sbc e = no_result e
  dispatch_lem (suc (suc (suc (suc (suc (suc (suc (suc (suc zero))))))))) h add sbc e = no_result e
  dispatch_lem (suc (suc (suc (suc (suc (suc (suc (suc (suc (suc zero)))))))))) h add sbc e =
      no_result e
  dispatch_lem (suc (suc (suc (suc (suc (suc (suc (suc (suc (suc (suc zero))))))))))) h add sbc e =
      no_result e
  dispatch_lem (suc (suc (suc (suc (suc (suc (suc (suc (suc (suc (suc (suc zero)))))))))))) h add
        sbc e =
      rw (on, to) (named e (zn_lem p low a b a_word b_word (bit_or a b)))
  dispatch_lem (suc (suc (suc (suc (suc (suc (suc (suc (suc (suc (suc (suc (suc zero))))))))))))) h
        add sbc e =
      rw (on, to) (named e (moved_lem p low a b a_word b_word b))
  dispatch_lem
        (suc (suc (suc (suc (suc (suc (suc (suc (suc (suc (suc (suc (suc (suc zero)))))))))))))) h
        add sbc e =
      rw (on, to)
        (named (ap (λ x. some (bit_and a x)) (omega arith) ∙ e)
          (tst_lem p low a b a_word b_word a (not32 b)))
  dispatch_lem
        (suc
          (suc (suc (suc (suc (suc (suc (suc (suc (suc (suc (suc (suc (suc (suc zero)))))))))))))))
        h add sbc e =
      rw (on, to) (named (ap some (omega arith) ∙ e) (moved_lem p low a b a_word b_word (not32 b)))
  dispatch_lem
        (suc (
          suc (
            suc (
              suc (suc (suc (suc (suc (suc (suc (suc (suc (suc (suc (suc (suc opcode))))))))))))))))
        h add sbc e =
      absurd (omega arith)

dispatch_zero : (p : Core) (ins opcode a b : ℕ) → opcode < 16 → (dispatch p ins opcode a b).0 ≡ 0
unfolding dispatch
dispatch_zero p ins opcode a b h = ground (arith, h)

-- With S and when its condition passes, an instruction whose destination is not the pc, whose operands are
-- the words a and b and whose opcode has the result r and is not ADD or SBC: it returns 0, writes r to its
-- destination, sets N and Z as r has them, and leaves the other registers, the mode and the memory.
pub arm_data_processing_shift_flags :
    (p : Core) (ins a b r : ℕ)
    → bit ins 20 ≡ 1
    → ins / 2 ^ 12 % 16 < 15
    → a < 2 ^ 32
    → b < 2 ^ 32
    → ins / 2 ^ 21 % 16 ≢ 4
    → ins / 2 ^ 21 % 16 ≢ 6
    → condition_passed (arm_read_cpsr p) ins ≡ true
    → decode_operand p ins ≡ ret (some (a, b))
    → alu (ins / 2 ^ 21 % 16) a b (bit (arm_read_cpsr p) 29) ≡ some r
    → Returns
        (λ (result, q). (result ≡ 0) × IsWritten p (ins / 2 ^ 12 % 16) r q)
        (arm_data_processing_shift p ins)
unfolding arm_data_processing_shift run_operands
arm_data_processing_shift_flags p ins a b r s low a_word b_word add sbc passed operands result =
    let opcode = ins / 2 ^ 21 % 16 in
    let small : opcode < 16 = omega arith in
    let on : get_bit ins 20 ≡ 1 = get_bit-eq-bit ins 20 ∙ s in
    let to : u8 (bit_and (shr ins 12) 0xf) ≡ ins / 2 ^ 12 % 16 =
      omega (arith, bit_and-mask 4 (shr ins 12)) in
    let written =
      dispatch_lem p ins low a b a_word b_word on to opcode small add sbc
        (ap (alu opcode a b) (get_bit-eq-bit (arm_read_cpsr p) 29) ∙ result) in
    rw (passed, operands, opcode_lem ins) (returns (dispatch_zero p ins opcode a b small, written))
