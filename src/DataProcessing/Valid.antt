-- ===== src/DataProcessing/Valid.antt =====
-- Data processing keeps the processor state valid.
use prog.Prelude.{
  ℕ, ◌^◌, ◌<◌, Bool, true, false, Option, none, some, arith, bit_and, if◌then◌else◌, Ensures, value,
  Ensures-bind, ◌==◌, choice,
}
use prog.Word.{u8, shr, sub32, not32}
use prog.Word.Bits.{bit_and-lt, bit_or-lt, bit_xor-lt}
use prog.Util.{get_bit}
use prog.Core.{Core, arm_write_register, arm_read_cpsr}
use prog.Core.Valid.{IsValid, arm_write_register-IsValid}
use prog.DataProcessing.{dispatch, run_operands, arm_data_processing_shift}
use prog.DataProcessing.Shifter.{AreWords, decode_operand-AreWords}
use prog.DataProcessing.Operations.{
  arm_and, arm_eor, arm_sub, arm_orr, arm_add, arm_bic, arm_mov, arm_mvn, arm_sbc, arm_adc, arm_rsb,
  arm_rsc,
}
use prog.DataProcessing.Frame.{
  update_zn-IsFlagUpdate, update_v-IsFlagUpdate, update_v_rsc-IsFlagUpdate, update_c-IsFlagUpdate,
  arm_tst-IsFlagUpdate, arm_teq-IsFlagUpdate, arm_cmp-IsFlagUpdate, arm_cmn-IsFlagUpdate,
}

if-IsValid : {p q : Core} (b : Bool) → IsValid p → IsValid q → IsValid (if b then p else q)
if-IsValid true x y = x
if-IsValid false x y = y

-- A result that is a word, beside a valid core.
abbrev IsResult : ℕ × Core → Type 0
IsResult done = (done.0 < 2 ^ 32) × IsValid done.1

module _ {p : Core} (valid : IsValid p) (a b s : ℕ) (a_word : a < 2 ^ 32)
    (b_word : b < 2 ^ 32) where
  arm_and-IsResult : IsResult (arm_and p a b s)
  unfolding arm_and
  arm_and-IsResult = (
    bit_and-lt a b 32 a_word b_word,
    if-IsValid _ ((arm_tst-IsFlagUpdate p a b).valid valid) valid,
  )

  arm_eor-IsResult : IsResult (arm_eor p a b s)
  unfolding arm_eor
  arm_eor-IsResult = (
    bit_xor-lt a b 32 a_word b_word,
    if-IsValid _ ((arm_teq-IsFlagUpdate p a b).valid valid) valid,
  )

  arm_sub-IsResult : (c v : ℕ) → IsResult (arm_sub p a b s c v)
  unfolding arm_sub
  arm_sub-IsResult c v =
      (omega arith, if-IsValid _ ((arm_cmp-IsFlagUpdate p a b c v).valid valid) valid)

  arm_orr-IsResult : IsResult (arm_orr p a b s)
  unfolding arm_orr
  arm_orr-IsResult = (
    bit_or-lt a b 32 a_word b_word,
    if-IsValid _ ((update_zn-IsFlagUpdate p _).valid valid) valid,
  )

  arm_add-IsResult : (c v : ℕ) → IsResult (arm_add p a b s c v)
  unfolding arm_add
  arm_add-IsResult c v =
      (omega arith, if-IsValid _ ((arm_cmp-IsFlagUpdate p a b c v).valid valid) valid)

  arm_bic-IsResult : IsResult (arm_bic p a b s)
  unfolding arm_bic
  arm_bic-IsResult = (
    bit_and-lt a (not32 b) 32 a_word (omega arith),
    if-IsValid _ ((arm_tst-IsFlagUpdate p a (not32 b)).valid valid) valid,
  )

  arm_sbc-IsResult : (c v : ℕ) → IsResult (arm_sbc p a b c s v)
  unfolding arm_sbc
  arm_sbc-IsResult c v =
      (omega arith, if-IsValid _ ((arm_cmp-IsFlagUpdate p a _ c v).valid valid) valid)

  arm_adc-IsResult : (c : ℕ) → IsResult (arm_adc p a b c s)
  unfolding arm_adc
  arm_adc-IsResult c =
      (omega arith, if-IsValid _ ((arm_cmn-IsFlagUpdate p a _ c).valid valid) valid)

module _ {p : Core} (valid : IsValid p) (rd s : ℕ) where
  arm_mov-IsValid : (b : ℕ) → b < 2 ^ 32 → IsValid (arm_mov p rd b s)
  unfolding arm_mov
  arm_mov-IsValid b h =
      let w = arm_write_register-IsValid valid rd b h in
      if-IsValid _ ((update_zn-IsFlagUpdate (arm_write_register p rd b) _).valid w) w

  arm_mvn-IsValid : (b : ℕ) → IsValid (arm_mvn p rd b s)
  unfolding arm_mvn
  arm_mvn-IsValid b =
      let w = arm_write_register-IsValid valid rd (not32 b) (omega arith) in
      if-IsValid _ ((update_zn-IsFlagUpdate (arm_write_register p rd (not32 b)) _).valid w) w

  arm_rsb-IsValid : (a b c v : ℕ) → IsValid (arm_rsb p rd a b s c v)
  unfolding arm_rsb
  arm_rsb-IsValid a b c v =
      let w = arm_write_register-IsValid valid rd (sub32 a b) (omega arith) in
      if-IsValid _
        ((update_v-IsFlagUpdate _ b a (sub32 a b)).valid (
          (update_c-IsFlagUpdate _ _ _ c).valid
            ((update_zn-IsFlagUpdate (arm_write_register p rd (sub32 a b)) _).valid w)))
        w

  arm_rsc-IsValid : (a b c : ℕ) → IsValid (arm_rsc p rd a b s c)
  unfolding arm_rsc
  arm_rsc-IsValid a b c =
      let r : ℕ = sub32 (sub32 b a) (if c == 0 then 1 else 0) in
      let w = arm_write_register-IsValid valid rd r (omega arith) in
      if-IsValid _
        ((update_v_rsc-IsFlagUpdate _ b r).valid (
          (update_c-IsFlagUpdate _ _ _ c).valid
            ((update_zn-IsFlagUpdate (arm_write_register p rd r) _).valid w)))
        w

-- The sixteen operations, as the `switch` runs them.
dispatch-IsValid :
    {p : Core} (ins opcode a b : ℕ)
    → IsValid p
    → a < 2 ^ 32
    → b < 2 ^ 32
    → IsValid (dispatch p ins opcode a b).1
unfolding dispatch
dispatch-IsValid {p} ins opcode a b v ha hb =
    let s = get_bit ins 20 in
    let c = get_bit (arm_read_cpsr p) 29 in
    let o = get_bit (arm_read_cpsr p) 28 in
    let rd = u8 (bit_and (shr ins 12) 0xf) in
    let Keeps : ℕ × Core → Type 0 = λ done. IsValid done.1 in
    let writes : (done : ℕ × Core) → IsResult done → IsValid (arm_write_register done.1 rd done.0) =
      λ done r. arm_write_register-IsValid r.1 rd done.0 r.0 in
    choice Keeps (opcode == 0) (writes _ (arm_and-IsResult v a b s ha hb)) (
      choice Keeps (opcode == 1) (writes _ (arm_eor-IsResult v a b s ha hb)) (
        choice Keeps (opcode == 2) (writes _ (arm_sub-IsResult v a b s ha hb c o)) (
          choice Keeps (opcode == 3) (arm_rsb-IsValid v rd s a b c o) (
            choice Keeps (opcode == 4) (writes _ (arm_add-IsResult v a b s ha hb c o)) (
              choice Keeps (opcode == 5) (writes _ (arm_adc-IsResult v a b s ha hb c)) (
                choice Keeps (opcode == 6) (writes _ (arm_sbc-IsResult v a b s ha hb c o)) (
                  choice Keeps (opcode == 7) (arm_rsc-IsValid v (u8 a) s rd b c) (
                    choice Keeps (opcode == 8) ((arm_tst-IsFlagUpdate p a b).valid v) (
                      choice Keeps (opcode == 9) ((arm_teq-IsFlagUpdate p a b).valid v) (
                        choice Keeps (opcode == 10) ((arm_cmp-IsFlagUpdate p a b c o).valid v) (
                          choice Keeps (opcode == 11) ((arm_cmn-IsFlagUpdate p a b c).valid v) (
                            choice Keeps (opcode == 12) (writes _ (arm_orr-IsResult v a b s ha hb))
                              (choice Keeps (opcode == 13) (arm_mov-IsValid v rd s b hb) (
                                choice Keeps (opcode == 14)
                                  (writes _ (arm_bic-IsResult v a b s ha hb))
                                  (choice Keeps (opcode == 15) (arm_mvn-IsValid v rd s b)
                                    v)))))))))))))))

run_operands-IsValid :
    {p : Core} (ins : ℕ) (o : Option (ℕ × ℕ))
    → IsValid p
    → AreWords o
    → IsValid (run_operands p ins o).1
unfolding run_operands
run_operands-IsValid ins none v h = v
run_operands-IsValid ins (some (a, b)) v h =
    dispatch-IsValid ins (u8 (bit_and (shr ins 21) 0xf)) a b v h.0 h.1

-- A data-processing instruction that gives a value leaves a valid core valid.
pub arm_data_processing_shift-IsValid :
    {p : Core} (ins : ℕ)
    → IsValid p
    → Ensures (λ done. IsValid done.1) (arm_data_processing_shift p ins)
unfolding arm_data_processing_shift
arm_data_processing_shift-IsValid {p} ins v =
    choice (Ensures (λ done. IsValid done.1)) _
      (Ensures-bind (decode_operand-AreWords v ins) (λ o h. value (run_operands-IsValid ins o v h)))
      (value v)
