-- ===== src/DataProcessing/Msr.antt =====
-- `arm_data_processing_immediate_msr`.
use prog.Prelude.{
  ℕ, ◌≡◌, Bool, not, false, ◌&&◌, bit_and, bit_or, ◌==◌, if◌then◌else◌, truth, arith, Run, ret,
  ◌>>=◌, Bool-cases, inl, inr,
}
use prog.Word.{not32}
use prog.Constants.{undefined_instruction, unalloc_mask, user_mask, priv_mask, state_mask}
use prog.Util.{get_bit, get_bits, condition_passed}
use prog.Util.Macros.{get_bits-eq-field}
use prog.Core.{
  Core, arm_read_cpsr, arm_read_spsr, arm_write_cpsr, arm_write_spsr, arm_in_a_privileged_mode,
  arm_current_mode_has_spsr,
}
use prog.DataProcessing.Operand.{apply_rotation_imm}

-- The four `tmp` variables, each set only where its field bit is set: what they hold before.
pub record Locals : Type 0 where
  pub tmp : ℕ
  pub tmp2 : ℕ
  pub tmp3 : ℕ
  pub tmp4 : ℕ

unfoldable pub byte_mask : Locals → ℕ → ℕ
byte_mask l ins =
    bit_or
      (bit_or
        (bit_or (if truth (get_bit ins 16) then 0x0000_00ff else l.tmp)
          (if truth (get_bit ins 17) then 0x0000_ff00 else l.tmp2))
        (if truth (get_bit ins 18) then 0x00ff_0000 else l.tmp3))
      (if truth (get_bit ins 19) then 0xff00_0000 else l.tmp4)

abbrev pub masked : ℕ → ℕ → ℕ → ℕ
masked old mask v = bit_or (bit_and old (not32 mask)) (bit_and v mask)

-- The writes, once the instruction is known to be an MSR.
unfoldable pub msr_cpsr : Locals → Core → ℕ → ℕ → ℕ × Core
msr_cpsr l p ins val_rotated =
    let written : ℕ → ℕ × Core =
      λ mask. (0, arm_write_cpsr p (masked (arm_read_cpsr p) mask val_rotated)) in
    if arm_in_a_privileged_mode p
    then if not (bit_and val_rotated state_mask == 0)
      then (undefined_instruction, p)
      else written (bit_and (byte_mask l ins) (bit_or user_mask priv_mask))
    else written (bit_and (byte_mask l ins) user_mask)

unfoldable pub msr_spsr : Locals → Core → ℕ → ℕ → ℕ × Core
msr_spsr l p ins val_rotated =
    let mask = bit_and (byte_mask l ins) (bit_or (bit_or user_mask priv_mask) state_mask) in
    if arm_current_mode_has_spsr p
    then (0, arm_write_spsr p (masked (arm_read_spsr p) mask val_rotated))
    else (undefined_instruction, p)

unfoldable pub is_msr : ℕ → Bool
is_msr ins = (get_bits ins 23 5 == 6) && (get_bits ins 20 2 == 2)

unfoldable pub arm_data_processing_immediate_msr : Locals → Core → ℕ → Run (ℕ × Core)
arm_data_processing_immediate_msr l p ins = apply_rotation_imm ins >>= (λ val_rotated. ret (
    if condition_passed (arm_read_cpsr p) ins && is_msr ins
    then if not (bit_and val_rotated unalloc_mask == 0)
      then (undefined_instruction, p)
      else if get_bit ins 22 == 0
      then msr_cpsr l p ins val_rotated
      else msr_spsr l p ins val_rotated
    else (undefined_instruction, p)))

-- The two field tests look at overlapping bits, of which they ask different values.
is_msr_never : (ins : ℕ) → is_msr ins ≡ false
unfolding is_msr
is_msr_never ins = ground (arith, get_bits-eq-field ins 23 5, get_bits-eq-field ins 20 2)

-- For every instruction word the MSR function reports an undefined instruction and changes nothing,
-- unless the rotation of its operand is undefined: no word passes its test.
pub msr_never :
    (l : Locals) (p : Core) (ins : ℕ)
    → arm_data_processing_immediate_msr l p ins
      ≡ (apply_rotation_imm ins >>= (λ _. ret (undefined_instruction, p)))
unfolding arm_data_processing_immediate_msr
msr_never l p ins = elim (Bool-cases (condition_passed (arm_read_cpsr p) ins)) [
  | inl passed ↦ simp (passed, is_msr_never)
  | inr failed ↦ simp failed
]
