-- ===== src/LoadStore/Multiple/Transfer.antt =====
-- What LDM and STM transfer.
use mathlib.Core.Path.{subst}
use mathlib.Core.List.{map}
use prog.Prelude.{
  ℕ, zero, suc, ◌+◌, ◌*◌, ◌-◌, ◌/◌, ◌%◌, ◌^◌, ◌≤◌, ◌≡◌, refl, ap, ◌∙◌, arith, true, List, ◌==◌,
  if◌then◌else◌, ret, length, Returns, returns, inl, inr, Bool-cases,
}
use prog.Word.{bit, add32, sub32}
use prog.Util.{get_bit, get_bits, condition_passed}
use prog.Util.Macros.{get_bit-eq-bit, get_bit-lt, get_bits-eq-field}
use prog.Memory.{Host}
use prog.Core.{Core, arm_read_register, arm_read_cpsr, arm_write_register}
use prog.Core.Valid.{IsValid, arm_read_register-lt}
use prog.LoadStore.Multiple.{
  nb_reg, start_address, end_address, block_write_back, load_pc, block_transfer,
  arm_load_store_multiple,
}
use prog.LoadStore.Multiple.Valid.{
  listed, nb_reg_lem, cpsr_write_back, block_write_back-IsValid, arm_load_store_multiple-IsValid,
}
use prog.LoadStore.Multiple.Block.{
  registers, put_words, load_words, block_end, store_loop_lem, load_loop_lem,
}

listed-length : (ins left ri : ℕ) → listed ins left ri ≡ length (registers ins left ri)
unfolding listed registers
listed-length ins zero ri = refl
listed-length ins (suc left) ri = elim (Bool-cases (get_bit ins ri == 1)) [
  | inl on ↦ rw on (ground (arith, on, listed-length ins left (ri + 1)))
  | inr off ↦ rw off (ground (arith, off, get_bit-lt ins ri, listed-length ins left (ri + 1)))
]

-- The registers of an instruction, in the order of their addresses; the pc is apart.
abbrev pub block_registers : ℕ → List ℕ
block_registers ins = registers ins 15 0

-- The base register, and the lowest address of n words next to it: above it or below by the bit U, with
-- or without its own address by the bit P.
abbrev pub base : Core → ℕ → ℕ
base p ins = arm_read_register p (ins / 2 ^ 16 % 16)

unfoldable pub lowest : Core → ℕ → (n : ℕ) → ℕ
lowest p ins n =
    if bit ins 23 == 1
    then if bit ins 24 == 1 then (base p ins + 4) % 2 ^ 32 else base p ins
    else if bit ins 24 == 1
    then (base p ins + 2 ^ 32 - n * 4) % 2 ^ 32
    else (base p ins + 2 ^ 32 - n * 4 + 4) % 2 ^ 32

-- The core with the base moved past n words, where the bit W asks for it.
unfoldable pub moved : Core → ℕ → (n : ℕ) → Core
moved p ins n =
    if bit ins 21 == 1
    then arm_write_register p (ins / 2 ^ 16 % 16) (
        if bit ins 23 == 1
        then (base p ins + n * 4) % 2 ^ 32
        else (base p ins + 2 ^ 32 - n * 4) % 2 ^ 32)
    else p

module _ {p : Core} (valid : IsValid p) (ins : ℕ)
    (passed : condition_passed (arm_read_cpsr p) ins ≡ true) where
  abbrev n : ℕ
  n = length (block_registers ins)

  pub count_lem : (nb_reg ins ≡ n) × (n ≤ 15)
  count_lem = omega (arith, nb_reg_lem ins, listed-length ins 15 0)

  field_lem : get_bits ins 19 16 ≡ ins / 2 ^ 16 % 16
  field_lem = omega (arith, get_bits-eq-field ins 19 16)

  pub start_lem : start_address p ins ≡ lowest p ins n
  unfolding start_address lowest
  start_lem =
      rw (field_lem, count_lem.0, get_bit-eq-bit ins 24, get_bit-eq-bit ins 23)
        (ground (arith, arm_read_register-lt valid (ins / 2 ^ 16 % 16), count_lem.1))

  pub moved_lem : block_write_back p ins ≡ moved p ins n
  unfolding block_write_back moved
  moved_lem = rw (passed, field_lem, count_lem.0, get_bit-eq-bit ins 21, get_bit-eq-bit ins 23) refl

  still_passed : condition_passed (arm_read_cpsr (block_write_back p ins)) ins ≡ true
  still_passed = ap (λ c. condition_passed c ins) (cpsr_write_back valid ins) ∙ passed

  -- The result of a run that is taken.
  result_lem :
      (host : Host) {x : ℕ} {q : Core}
      → arm_load_store_multiple host p ins ≡ ret (x, q)
      → x ≡ (if get_bit ins 20 == 1 then 1 else 0)
  result_lem host {x} {q} e =
      go (subst (Returns _) e (arm_load_store_multiple-IsValid valid ins host))
    where
      go :
          Returns
            (λ (result, q').
              (result ≡ (
                if condition_passed (arm_read_cpsr p) ins
                then if get_bit ins 20 == 1 then 1 else 0
                else if end_address p ins == 0xffff_fffc
                then 0
                else 1))
              × IsValid q')
            (ret (x, q))
          → x ≡ (if get_bit ins 20 == 1 then 1 else 0)
      go (returns (r, _)) = r ∙ rw passed refl

  -- STM in each of its addressing modes, from a valid core and with its condition passing: of r0 to r14 the
  -- listed registers are put one after the other into the memory, the lowest first, as the core has them
  -- after the base has moved; the pc is not stored where it is listed, and takes no address. The result is 0.
  pub arm_load_store_multiple_store :
      (host : Host)
      → bit ins 20 ≡ 0
      → arm_load_store_multiple host p ins ≡ (
          let p1 = moved p ins n in
          ret (
            0,
            record p1 {
              mem =
                  put_words p1.mem
                    (lowest p ins n)
                    (map (arm_read_register p1) (block_registers ins));
            },
          ))
  unfolding arm_load_store_multiple block_transfer
  arm_load_store_multiple_store host store =
      let p1 = block_write_back p ins in
      let start = start_address p ins in
      let q = record p1 {
        mem = put_words p1.mem start (map (arm_read_register p1) (block_registers ins));
      } in
      let result : ℕ =
        if end_address p ins == sub32 (block_end start (block_registers ins)) 4 then 0 else 1 in
      let is_store : get_bit ins 20 ≡ 0 = get_bit-eq-bit ins 20 ∙ store in
      let run : arm_load_store_multiple host p ins ≡ ret (result, q) =
        rw
          (
            still_passed,
            is_store,
            store_loop_lem host ins 15 0 start (block_write_back-IsValid valid ins),
          )
          refl in
      let known : result ≡ 0 = result_lem host run ∙ rw is_store refl in
      run ∙ ap (λ x. ret (x, q)) known ∙ rw (moved_lem, start_lem) refl

  -- LDM in each of its addressing modes, from a valid core and with its condition passing, where the pc is
  -- not listed: the listed registers are loaded from words one after the other, the lowest first, after
  -- the base has moved. The result is 1.
  pub arm_load_store_multiple_load :
      (host : Host)
      → bit ins 20 ≡ 1
      → bit ins 15 ≡ 0
      → arm_load_store_multiple host p ins
        ≡ ret (1, (load_words 0 (moved p ins n) (lowest p ins n) (block_registers ins)).1)
  unfolding arm_load_store_multiple block_transfer load_pc
  arm_load_store_multiple_load host load no_pc =
      let p1 = block_write_back p ins in
      let start = start_address p ins in
      let q = (load_words 0 p1 start (block_registers ins)).1 in
      let result : ℕ =
        if end_address p ins == sub32 (add32 (block_end start (block_registers ins)) 4) 4
        then 0
        else 1 in
      let is_load : get_bit ins 20 ≡ 1 = get_bit-eq-bit ins 20 ∙ load in
      let skipped : get_bit ins 15 ≡ 0 = get_bit-eq-bit ins 15 ∙ no_pc in
      let run : arm_load_store_multiple host p ins ≡ ret (result, q) =
        rw
          (
            still_passed,
            is_load,
            load_loop_lem host ins 15 0 start 0 (block_write_back-IsValid valid ins) (omega arith),
            skipped,
          )
          refl in
      let known : result ≡ 1 = result_lem host run ∙ rw is_load refl in
      run ∙ ap (λ x. ret (x, q)) known ∙ rw (moved_lem, start_lem) refl
