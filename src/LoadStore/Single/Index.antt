-- ===== src/LoadStore/Single/Index.antt =====
-- The index of LDR and STR in each of their addressing modes.
use prog.Prelude.{
  ℕ, ◌*◌, ◌/◌, ◌%◌, ◌^◌, ◌<◌, ◌≡◌, refl, ap, arith, true, ◌||◌, ltb, ◌==◌, truth, if◌then◌else◌,
  Bool-cases, inl, inr, ret,
}
use prog.Word.{bit, shl32, shr}
use prog.Util.{get_bit, get_bits, shift_left, shift_right, condition_passed}
use prog.Util.Macros.{get_bit-eq-bit, get_bits-eq-field}
use prog.Util.Shifts.{asr_lem}
use prog.Util.Rotations.{rotations, rotations-lt, ror-eq-rotations}
use prog.Core.{Core, arm_read_register, arm_read_cpsr}
use prog.Core.Valid.{IsValid, arm_read_register-lt}
use prog.LoadStore.Single.{ror_case, asr_case, lsr_case, scaled_index, load_store_index}

-- A scaled register: shifted to the left for the kind 0, and rotated for every other kind, where a count of
-- 0 leaves one bit, that of the carry or the rest of the register.
unfoldable pub scaled_value : (cpsr rm_value kind count : ℕ) → ℕ
scaled_value cpsr rm_value kind count =
    if kind == 0
    then rm_value * 2 ^ count % 2 ^ 32
    else if count == 0
    then if (bit cpsr 29 == 1) || truth (rm_value / 2) then 1 else 0
    else rotations count rm_value

unfoldable pub index_value : Core → ℕ → ℕ
index_value p ins =
    if bit ins 25 == 0
    then ins % 2 ^ 12
    else scaled_value (arm_read_cpsr p) (arm_read_register p (ins % 2 ^ 4)) (ins / 2 ^ 5 % 4)
        (ins / 2 ^ 7 % 32)

module _ (cpsr v s : ℕ) (word : v < 2 ^ 32) (small : s < 32) where
  abbrev rotated : ℕ
  rotated = if s == 0 then if (bit cpsr 29 == 1) || truth (v / 2) then 1 else 0 else rotations s v

  carry_lem :
      (truth (shl32 (get_bit cpsr 29) 31) || truth (shr v 1))
      ≡ ((bit cpsr 29 == 1) || truth (v / 2))
  carry_lem = ground (arith, get_bit-eq-bit cpsr 29)

  ror_case_lem : ror_case cpsr v s ≡ ret rotated
  unfolding ror_case
  ror_case_lem = elim (Bool-cases (s == 0)) [
    | inl alone ↦ rw alone (ap (λ b. ret (if b then 1 else 0)) carry_lem)
    | inr counted ↦ rw counted (ror-eq-rotations v s word (ground arith) small)
  ]

  -- The cases that run on end as the last one.
  asr_case_lem : asr_case cpsr v s ≡ ror_case cpsr v s
  unfolding asr_case
  asr_case_lem = elim (Bool-cases (s == 0)) [
    | inl alone ↦ rw alone refl
    | inr counted ↦ rw (counted, (asr_lem v s word (ground arith) small).1) refl
  ]

  lsr_case_lem : lsr_case cpsr v s ≡ ror_case cpsr v s
  unfolding lsr_case shift_right
  lsr_case_lem =
      let inside : ltb s 32 ≡ true = ground arith in
      elim (Bool-cases (s == 0)) [
        | inl alone ↦ rw alone asr_case_lem
        | inr counted ↦ rw (counted, inside) asr_case_lem
      ]

  scaled_index_lem :
      (kind : ℕ) → kind < 4 → scaled_index cpsr v kind s ≡ ret (scaled_value cpsr v kind s)
  unfolding scaled_index scaled_value shift_left
  scaled_index_lem kind h =
      let inside : ltb s 32 ≡ true = ground arith in
      rw (inside, lsr_case_lem, asr_case_lem, ror_case_lem) (ground (arith, h))

-- On a valid core and with the condition passing, the index is defined in each mode.
pub load_store_index_lem :
    {p : Core} (ins : ℕ)
    → IsValid p
    → condition_passed (arm_read_cpsr p) ins ≡ true
    → load_store_index p ins ≡ ret (index_value p ins)
unfolding load_store_index index_value
load_store_index_lem {p} ins valid passed =
    let kind : get_bits ins 6 5 ≡ ins / 2 ^ 5 % 4 = omega (arith, get_bits-eq-field ins 6 5) in
    let count : get_bits ins 11 7 ≡ ins / 2 ^ 7 % 32 = omega (arith, get_bits-eq-field ins 11 7) in
    let rm : get_bits ins 3 0 ≡ ins % 2 ^ 4 = omega (arith, get_bits-eq-field ins 3 0) in
    let offset : get_bits ins 11 0 ≡ ins % 2 ^ 12 = omega (arith, get_bits-eq-field ins 11 0) in
    let scaled =
      scaled_index_lem (arm_read_cpsr p) (arm_read_register p (ins % 2 ^ 4)) (ins / 2 ^ 7 % 32)
        (arm_read_register-lt valid (ins % 2 ^ 4)) (omega arith) (ins / 2 ^ 5 % 4) (omega arith) in
    rw (kind, count, rm, offset, scaled, passed)
      (ground (arith, get_bit-eq-bit ins 25, get_bit-eq-bit ins 24))

pub index_value-lt : {p : Core} (ins : ℕ) → IsValid p → index_value p ins < 2 ^ 32
unfolding index_value scaled_value
index_value-lt {p} ins valid =
    let rm_value = arm_read_register p (ins % 2 ^ 4) in
    ground
      (arith, rotations-lt (ins / 2 ^ 7 % 32) rm_value (arm_read_register-lt valid (ins % 2 ^ 4)))
