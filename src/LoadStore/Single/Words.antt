-- ===== src/LoadStore/Single/Words.antt =====
-- What LDR and STR of a word transfer.
use prog.Prelude.{
  ℕ, ◌+◌, ◌-◌, ◌/◌, ◌%◌, ◌^◌, ◌<◌, ◌≡◌, ap, refl, true, none, some, arith, ◌==◌, if◌then◌else◌, ret,
  ◌>>=◌,
}
use prog.Word.{bit}
use prog.Util.{get_bits, condition_passed}
use prog.Util.Macros.{get_bit-eq-bit, get_bits-eq-field}
use prog.Memory.{Host}
use prog.Memory.Spec.{word_at, put_word}
use prog.Memory.Access.{accepts, memory_read_word_lem, memory_write_word_lem}
use prog.Core.{Core, arm_read_register, arm_read_cpsr, arm_read_word, arm_write_word}
use prog.Core.Valid.{IsValid, arm_read_register-lt}
use prog.LoadStore.Single.{
  load_store_index, load_store_address, post_index, pre_index, load_into, load_value, store_value,
  transfer, arm_load_store,
}

module _ {p : Core} (valid : IsValid p) (host : Host) (address : ℕ) where
  pub read_word :
      arm_read_word host p address
      ≡ ret (if accepts p.mem 4 address then some (word_at p.mem address) else none)
  unfolding arm_read_word
  read_word = memory_read_word_lem valid.memory host address

  pub write_word :
      (v : ℕ)
      → v < 2 ^ 32
      → arm_write_word host p address v >>= (λ done. ret done.1)
        ≡ ret
            (record p { mem = if accepts p.mem 4 address then put_word p.mem address v else p.mem })
  unfolding arm_write_word
  write_word v word = rw (memory_write_word_lem valid.memory host address v word) (ground arith)

-- The base register plus or minus the 12-bit offset, by the bit U.
abbrev pub offset_address : Core → ℕ → ℕ
offset_address p ins =
    let rn_value = arm_read_register p (ins / 2 ^ 16 % 16) in
    if bit ins 23 == 1
    then (rn_value + ins % 2 ^ 12) % 2 ^ 32
    else (rn_value + (2 ^ 32 - ins % 2 ^ 12)) % 2 ^ 32

module _ {p : Core} (valid : IsValid p) (ins : ℕ) (host : Host) (offset : bit ins 25 ≡ 0)
    (pre : bit ins 24 ≡ 1) (no_write_back : bit ins 21 ≡ 0) (of_word : bit ins 22 ≡ 0)
    (passed : condition_passed (arm_read_cpsr p) ins ≡ true) where
  index_lem : load_store_index p ins ≡ ret (ins % 2 ^ 12)
  unfolding load_store_index
  index_lem =
      ground (arith, get_bit-eq-bit ins 25, get_bit-eq-bit ins 24, get_bits-eq-field ins 11 0)

  address_lem : load_store_address p ins (ins % 2 ^ 12) ≡ (offset_address p ins)
  unfolding load_store_address
  address_lem = ground (
    arith,
    get_bit-eq-bit ins 24,
    get_bit-eq-bit ins 23,
    get_bits-eq-field ins 19 16,
    arm_read_register-lt valid (ins / 2 ^ 16 % 16),
  )

  write_back_lem : (index address : ℕ) → pre_index (post_index p ins index) ins address ≡ p
  unfolding pre_index post_index
  write_back_lem index address = ground (arith, get_bit-eq-bit ins 24, get_bit-eq-bit ins 21)

  rd_lem : get_bits ins 15 12 ≡ ins / 2 ^ 12 % 16
  rd_lem = omega (arith, get_bits-eq-field ins 15 12)

  runs :
      arm_load_store host p ins ≡ transfer host p ins (offset_address p ins) >>= (λ p'. ret (0, p'))
  unfolding arm_load_store
  runs = rw (index_lem, address_lem, write_back_lem (ins % 2 ^ 12) (offset_address p ins)) refl

  -- LDR of a word, pre-indexed by an immediate offset without write-back, from a valid core and with
  -- its condition passing, loads into rd the memory's word at the base plus or minus the offset, and 0
  -- where that address is outside the memory or not aligned.
  pub arm_load_store_load :
      bit ins 20 ≡ 1
      → arm_load_store host p ins
        ≡ ret (
          0,
          load_into p (ins / 2 ^ 12 % 16) (
              if accepts p.mem 4 (offset_address p ins)
              then word_at p.mem (offset_address p ins)
              else 0),
        )
  unfolding transfer load_value
  arm_load_store_load load =
      rw
        (
          runs,
          passed,
          get_bit-eq-bit ins 20,
          load,
          get_bit-eq-bit ins 22,
          of_word,
          read_word valid host (offset_address p ins),
          rd_lem,
        )
        (ground arith)

  -- STR of a word, pre-indexed by an immediate offset without write-back, from a valid core and with
  -- its condition passing, puts rd at the base plus or minus the offset in the memory's byte order, and
  -- changes nothing where that address is outside the memory or not aligned.
  pub arm_load_store_store :
      bit ins 20 ≡ 0
      → arm_load_store host p ins
        ≡ ret (
          0,
          record p {
            mem =
                if accepts p.mem 4 (offset_address p ins)
                then put_word p.mem (offset_address p ins) (arm_read_register p (ins / 2 ^ 12 % 16))
                else p.mem;
          },
        )
  unfolding transfer store_value
  arm_load_store_store store =
      rw (runs, passed, get_bit-eq-bit ins 20, store, get_bit-eq-bit ins 22, of_word, rd_lem)
        (ap (λ m. m >>= (λ p'. ret (0, p')))
          (write_word valid host (offset_address p ins) _ (arm_read_register-lt valid _)))
