-- ===== src/LoadStore/Single/Modes.antt =====
-- What LDR and STR transfer in each of their addressing modes.
use prog.Prelude.{
  ℕ, ◌+◌, ◌-◌, ◌/◌, ◌%◌, ◌^◌, ◌*◌, ◌<◌, ◌≡◌, ap, refl, ◌∙◌, arith, true, ◌||◌, ltb, ◌==◌,
  if◌then◌else◌, ret, ◌>>=◌, choice, Bool-cases, inl, inr,
}
use prog.Word.{bit, u8}
use prog.Util.{get_bits, condition_passed}
use prog.Util.Macros.{get_bit-eq-bit, get_bits-eq-field}
use prog.Memory.{Host, little, big}
use prog.Memory.Access.{memory_read_byte_lem, memory_write_byte_lem}
use prog.Core.{
  Core, arm_read_register, arm_read_cpsr, arm_write_register, arm_write_cpsr, arm_read_byte,
  arm_write_byte,
}
use prog.Core.Valid.{
  IsValid, arm_read_register-lt, arm_write_register-IsValid, arm_write_usr_register-eq,
  arm_read_cpsr-write_register, arm_read_cpsr-lt,
}
use prog.Memory.Store.{word_at-lt}
use prog.LoadStore.Single.{
  load_store_address, post_index, pre_index, write_back, indexed, load_value, store_value, transfer,
  arm_load_store, low_byte_set,
}
use prog.LoadStore.Single.Thumb.{load_into_lem}
use prog.LoadStore.Single.Described.{
  moved_base, mode_address, mode_core, first_byte, first_byte-lt, value_at, stored_at,
}
use prog.LoadStore.Single.Words.{read_word, write_word}
use prog.LoadStore.Single.Index.{index_value, load_store_index_lem, index_value-lt}

module _ {q : Core} (valid : IsValid q) (ins a : ℕ) (host : Host) where
  byte_loaded :
      (h : Host)
      → arm_read_byte q a >>= (λ b. ret (low_byte_set h b))
        ≡ ret (if ltb a q.mem.size then first_byte h (q.mem.bytes a) else 0)
  unfolding arm_read_byte first_byte
  byte_loaded little = rw memory_read_byte_lem (ground arith)
  byte_loaded big = rw memory_read_byte_lem (ground arith)

  load_value_lem : load_value host q ins a ≡ ret (value_at host q.mem ins a)
  unfolding load_value value_at
  load_value_lem =
      rw (get_bit-eq-bit ins 22, byte_loaded host, read_word valid host a) (ground arith)

  store_value_lem :
      store_value host q ins a >>= (λ done. ret done.1)
      ≡ ret (record q { mem = stored_at q.mem ins a (arm_read_register q (ins / 2 ^ 12 % 16)) })
  unfolding store_value stored_at arm_write_byte
  store_value_lem =
      let rd : get_bits ins 15 12 ≡ ins / 2 ^ 12 % 16 =
        omega (arith, get_bits-eq-field ins 15 12) in
      let value = arm_read_register q (ins / 2 ^ 12 % 16) in
      let low : u8 (get_bits value 7 0) ≡ value % 256 =
        omega (arith, get_bits-eq-field value 7 0) in
      elim (Bool-cases (bit ins 22 == 1)) [
        | inl of_byte ↦
            rw (rd, get_bit-eq-bit ins 22, of_byte, low, memory_write_byte_lem) (ground arith)
        | inr of_word ↦
            rw (rd, get_bit-eq-bit ins 22, of_word)
              (write_word valid host a value (arm_read_register-lt valid _))
      ]

module _ {p : Core} (valid : IsValid p) (ins : ℕ) (host : Host)
    (passed : condition_passed (arm_read_cpsr p) ins ≡ true) where
  field_lem : get_bits ins 19 16 ≡ ins / 2 ^ 16 % 16
  field_lem = omega (arith, get_bits-eq-field ins 19 16)

  index_word : index_value p ins < 2 ^ 32
  index_word = index_value-lt ins valid

  address_lem : load_store_address p ins (index_value p ins) ≡ mode_address p ins
  unfolding load_store_address mode_address moved_base
  address_lem =
      rw (field_lem, get_bit-eq-bit ins 24, get_bit-eq-bit ins 23)
        (ground (arith, index_word, arm_read_register-lt valid (ins / 2 ^ 16 % 16)))

  moved : indexed p ins (index_value p ins) ≡ moved_base p ins
  unfolding moved_base
  moved =
      rw (field_lem, get_bit-eq-bit ins 23)
        (ground (arith, index_word, arm_read_register-lt valid (ins / 2 ^ 16 % 16)))

  post_lem :
      post_index p ins (index_value p ins)
      ≡ (if bit ins 24 == 0 then arm_write_register p (ins / 2 ^ 16 % 16) (moved_base p ins) else p)
  unfolding post_index
  post_lem =
      rw
        (
          passed,
          moved,
          field_lem,
          get_bit-eq-bit ins 24,
          get_bit-eq-bit ins 21,
          arm_write_usr_register-eq valid (ins / 2 ^ 16 % 16) (moved_base p ins),
        )
        (ground arith)

  core_lem : write_back p ins (index_value p ins) (mode_address p ins) ≡ mode_core p ins
  unfolding pre_index mode_core mode_address
  core_lem = elim (Bool-cases (bit ins 24 == 0)) [
    | inl after ↦ rw (post_lem, get_bit-eq-bit ins 24, after) (ground (arith, after))
    | inr before ↦
        let on : (bit ins 24 == 1) ≡ true = ground (arith, before) in
        rw
          (
            post_lem,
            get_bit-eq-bit ins 24,
            get_bit-eq-bit ins 21,
            before,
            on,
            passed,
            field_lem,
            arm_write_usr_register-eq valid (ins / 2 ^ 16 % 16) (moved_base p ins),
          )
          refl
  ]

  mode_core-IsValid : IsValid (mode_core p ins)
  unfolding mode_core moved_base
  mode_core-IsValid =
      choice IsValid ((bit ins 24 == 0) || (bit ins 21 == 1))
        (arm_write_register-IsValid valid (ins / 2 ^ 16 % 16) _ (ground arith)) valid

  mem-mode_core : (mode_core p ins).mem ≡ p.mem
  unfolding mode_core arm_write_register
  mem-mode_core =
      choice {A = Core} (λ q. q.mem ≡ p.mem) ((bit ins 24 == 0) || (bit ins 21 == 1)) refl refl

  still_passed : condition_passed (arm_read_cpsr (mode_core p ins)) ins ≡ true
  unfolding mode_core
  still_passed =
      ap (λ c. condition_passed c ins)
        (choice (λ q. arm_read_cpsr q ≡ arm_read_cpsr p) ((bit ins 24 == 0) || (bit ins 21 == 1))
          (arm_read_cpsr-write_register p (ins / 2 ^ 16 % 16) (moved_base p ins)) refl)
      ∙ passed

  rd_lem : get_bits ins 15 12 ≡ ins / 2 ^ 12 % 16
  rd_lem = omega (arith, get_bits-eq-field ins 15 12)

  runs :
      arm_load_store host p ins
      ≡ transfer host (mode_core p ins) ins (mode_address p ins) >>= (λ p'. ret (0, p'))
  unfolding arm_load_store
  runs = rw (load_store_index_lem ins valid passed, address_lem, core_lem) refl

  value_word : value_at host p.mem ins (mode_address p ins) < 2 ^ 32
  unfolding value_at
  value_word = ground (
    arith,
    first_byte-lt host (p.mem.bytes (mode_address p ins)) (valid.memory.byte _),
    word_at-lt valid.memory (mode_address p ins),
  )

  -- LDR and LDRB in each of their addressing modes, from a valid core and with the condition passing:
  -- the base is written back where the mode asks for it, and rd is then written with the word or the byte at
  -- the mode's address, or with 0 where the memory refuses it. The pc is written with that value less its
  -- bit 0, which becomes the bit T of the CPSR. On a big-endian host a byte lands in the highest digit.
  pub arm_load_store_loads :
      bit ins 20 ≡ 1
      → arm_load_store host p ins ≡ (
          let q = mode_core p ins in
          let v = value_at host p.mem ins (mode_address p ins) in
          let c = arm_read_cpsr q in
          ret (
            0,
            if ins / 2 ^ 12 % 16 == 15
                then arm_write_cpsr
                    (arm_write_register q 15 (v - v % 2))
                    (c - bit c 5 * 32 + v % 2 * 32)
                else arm_write_register q (ins / 2 ^ 12 % 16) v,
          ))
  unfolding transfer
  arm_load_store_loads load =
      let a = mode_address p ins in
      let v = value_at host p.mem ins a in
      let same : value_at host (mode_core p ins).mem ins a ≡ v =
        ap (λ m. value_at host m ins a) mem-mode_core in
      rw
        (
          runs,
          still_passed,
          get_bit-eq-bit ins 20,
          load,
          load_value_lem mode_core-IsValid ins a host,
          rd_lem,
          same,
          load_into_lem (mode_core p ins) (ins / 2 ^ 12 % 16) v value_word
              (arm_read_cpsr-lt mode_core-IsValid),
        )
        refl

  -- STR and STRB in each of their addressing modes, from a valid core and with the condition passing: the
  -- base is written back where the mode asks for it, and the word or the low byte that rd then has is put
  -- at the mode's address, where the memory accepts it.
  pub arm_load_store_stores :
      bit ins 20 ≡ 0
      → arm_load_store host p ins ≡ (
          let q = mode_core p ins in
          ret (
            0,
            record q {
              mem =
                  stored_at p.mem ins
                    (mode_address p ins)
                    (arm_read_register q (ins / 2 ^ 12 % 16));
            },
          ))
  unfolding transfer
  arm_load_store_stores store =
      rw
        (
          runs,
          still_passed,
          get_bit-eq-bit ins 20,
          store,
          store_value_lem mode_core-IsValid ins (mode_address p ins) host,
          mem-mode_core,
        )
        refl
