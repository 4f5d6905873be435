-- ===== src/LoadStore/Half/Valid.antt =====
-- `arm_load_store_half` is never undefined on a valid core, and keeps it valid.
use prog.Prelude.{
  ℕ, ◌^◌, ◌<◌, ◌≡◌, refl, Option, none, some, arith, inl, inr, Bool-cases, ◌&&◌, ◌==◌,
  if◌then◌else◌, truth, Returns, returns, Returns-bind, choice,
}
use prog.Word.{add32, sub32, u16}
use prog.Util.{get_bit, get_bits, condition_passed}
use prog.Util.Shifts.{IsWord}
use prog.Memory.{Host, little, big}
use prog.Core.{Core, arm_read_register, arm_read_cpsr}
use prog.Core.Valid.{IsValid, arm_read_register-lt, arm_write_register-IsValid}
use prog.Core.Access.{Below, arm_read_half-Below, arm_write_half-IsValid}
use prog.LoadStore.Half.{
  half_offset, half_address, half_post_index, half_pre_index, low_half_set, half_transfer,
  arm_load_store_half,
}

low_half_set-lt : (host : Host) (o : Option ℕ) → Below (2 ^ 16) o → IsWord (low_half_set host o)
low_half_set-lt host none h = omega arith
low_half_set-lt little (some v) h = omega arith
low_half_set-lt big (some v) h = omega arith

module _ {p : Core} (valid : IsValid p) (ins : ℕ) where
  half_address-lt : half_address p ins < 2 ^ 32
  unfolding half_address
  half_address-lt =
      let sum_lt : IsWord (add32 (arm_read_register p (get_bits ins 19 16)) (half_offset p ins)) =
        omega arith in
      let difference_lt : IsWord
          (sub32 (arm_read_register p (get_bits ins 19 16)) (half_offset p ins)) =
        omega arith in
      choice IsWord (get_bit ins 24 == 1)
        (choice IsWord (truth (get_bit ins 23)) sum_lt difference_lt) (arm_read_register-lt valid _)

  half_post_index-IsValid : IsValid (half_post_index p ins)
  unfolding half_post_index
  half_post_index-IsValid =
      choice IsValid (get_bit ins 24 == 1) valid
        (arm_write_register-IsValid valid _ _ (omega arith))

  half_pre_index-IsValid : (address : ℕ) → address < 2 ^ 32 → IsValid (half_pre_index p ins address)
  unfolding half_pre_index
  half_pre_index-IsValid address h =
      choice IsValid ((get_bit ins 21 == 1) && condition_passed (arm_read_cpsr p) ins)
        (arm_write_register-IsValid valid _ address h) valid

module _ (host : Host) (ins : ℕ) where
  half_transfer-IsValid :
      {p : Core} (address : ℕ) → IsValid p → Returns IsValid (half_transfer host p ins address)
  unfolding half_transfer
  half_transfer-IsValid {p} address valid =
      let rd = get_bits ins 15 12 in
      let half_lt : u16 (get_bits (arm_read_register p rd) 15 0) < 2 ^ 16 = omega arith in
      choice (Returns IsValid) (condition_passed (arm_read_cpsr p) ins)
        (choice (Returns IsValid) (get_bit ins 20 == 1)
          (Returns-bind (arm_read_half-Below valid address host)
            λ o h. returns (arm_write_register-IsValid valid rd _ (low_half_set-lt host o h)))
          (Returns-bind (arm_write_half-IsValid valid address host _ half_lt) λ done h. returns h))
        (returns valid)

  -- From a valid core, LDRH and STRH in every addressing mode, taken or not, are defined and leave
  -- the core valid; the result is 1 exactly when bits 7 to 4 are not 1011, and else 0.
  pub arm_load_store_half-IsValid :
      {p : Core}
      → IsValid p
      → Returns
          (λ (result, q). (result ≡ (if get_bits ins 7 4 == 0xb then 0 else 1)) × IsValid q)
          (arm_load_store_half host p ins)
  unfolding arm_load_store_half
  arm_load_store_half-IsValid {p} valid = elim (Bool-cases (get_bits ins 7 4 == 0xb)) [
    | inl right ↦
        let address = half_address p ins in
        rw right (
          Returns-bind
            (half_transfer-IsValid address (
              half_pre_index-IsValid (half_post_index-IsValid valid ins) ins address
                (half_address-lt valid ins)))
            λ q k. returns (refl, k))
    | inr wrong ↦ rw wrong (returns (refl, valid))
  ]
