-- ===== src/LoadStore/Half/Halves.antt =====
-- What LDRH and STRH transfer.
use prog.Prelude.{
  ℕ, ◌+◌, ◌-◌, ◌*◌, ◌/◌, ◌%◌, ◌^◌, ◌≡◌, ap, refl, Bool, true, false, none, some, arith, ◌==◌,
  if◌then◌else◌, ret, ◌>>=◌,
}
use prog.Word.{bit, u16}
use prog.Word.Fields.{bit_or-field}
use prog.Util.{get_bits, condition_passed}
use prog.Util.Macros.{get_bit-eq-bit, get_bits-eq-field}
use prog.Memory.{Host, little, big}
use prog.Memory.Spec.{half_at, put_half}
use prog.Memory.Access.{accepts, memory_read_half_lem, memory_write_half_lem}
use prog.Core.{
  Core, arm_read_register, arm_read_cpsr, arm_write_register, arm_read_half, arm_write_half,
}
use prog.Core.Valid.{IsValid, arm_read_register-lt}
use prog.LoadStore.Half.{
  half_offset, half_address, half_post_index, half_pre_index, low_half_set, half_transfer,
  arm_load_store_half,
}

-- The base register plus or minus the 8-bit offset in bits 11 to 8 and 3 to 0, by the bit U.
abbrev pub split_offset_address : Core → ℕ → ℕ
split_offset_address p ins =
    let rn_value = arm_read_register p (ins / 2 ^ 16 % 16) in
    let offset = ins / 2 ^ 8 % 16 * 16 + ins % 16 in
    if bit ins 23 == 1
    then (rn_value + offset) % 2 ^ 32
    else (rn_value + (2 ^ 32 - offset)) % 2 ^ 32

low_half_lem :
    (host : Host) (ok : Bool) (half : ℕ)
    → low_half_set host (if ok then some half else none)
      ≡ elim host [ little ↦ if ok then half else 0 | big ↦ (if ok then half else 0) * 2 ^ 16 ]
low_half_lem little true half = refl
low_half_lem little false half = refl
low_half_lem big true half = refl
low_half_lem big false half = refl

low_field : (v : ℕ) → u16 (get_bits v 15 0) ≡ v % 2 ^ 16
low_field v = omega (arith, get_bits-eq-field v 15 0)

module _ {p : Core} (valid : IsValid p) (ins : ℕ) (host : Host) (of_half : ins / 2 ^ 4 % 16 ≡ 11)
    (immediate : bit ins 22 ≡ 1) (pre : bit ins 24 ≡ 1) (no_write_back : bit ins 21 ≡ 0)
    (passed : condition_passed (arm_read_cpsr p) ins ≡ true) where
  offset_lem : half_offset p ins ≡ ins / 2 ^ 8 % 16 * 16 + ins % 16
  unfolding half_offset
  offset_lem = ground (
    arith,
    get_bit-eq-bit ins 22,
    get_bits-eq-field ins 11 8,
    get_bits-eq-field ins 3 0,
    bit_or-field 4 (ins / 2 ^ 8 % 16) (ins % 16),
  )

  address_lem : half_address p ins ≡ split_offset_address p ins
  unfolding half_address
  address_lem = rw offset_lem (
      ground (
        arith,
        get_bit-eq-bit ins 24,
        get_bit-eq-bit ins 23,
        get_bits-eq-field ins 19 16,
        arm_read_register-lt valid (ins / 2 ^ 16 % 16),
      ))

  write_back_lem : (address : ℕ) → half_pre_index (half_post_index p ins) ins address ≡ p
  unfolding half_pre_index half_post_index
  write_back_lem address = ground (arith, get_bit-eq-bit ins 24, get_bit-eq-bit ins 21)

  rd_lem : get_bits ins 15 12 ≡ ins / 2 ^ 12 % 16
  rd_lem = omega (arith, get_bits-eq-field ins 15 12)

  class_lem : get_bits ins 7 4 ≡ 11
  class_lem = omega (arith, get_bits-eq-field ins 7 4)

  runs :
      arm_load_store_half host p ins
      ≡ half_transfer host p ins (split_offset_address p ins) >>= (λ p'. ret (0, p'))
  unfolding arm_load_store_half
  runs = rw (class_lem, address_lem, write_back_lem (split_offset_address p ins)) refl

  -- LDRH at an immediate offset without write-back, from a valid core and with its condition passing,
  -- writes to rd the memory's half word at the base plus or minus the offset, on a little-endian host;
  -- on a big-endian host that half word lands in the upper half of rd. Where the address is outside the
  -- memory or odd rd is cleared.
  pub arm_load_store_half_load :
      bit ins 20 ≡ 1
      → let address = split_offset_address p ins in
        let half = if accepts p.mem 2 address then half_at p.mem address else 0 in
        arm_load_store_half host p ins
        ≡ ret (
          0,
          arm_write_register p
              (ins / 2 ^ 12 % 16)
              (elim host [ little ↦ half | big ↦ half * 2 ^ 16 ]),
        )
  unfolding half_transfer arm_read_half
  arm_load_store_half_load load =
      rw
        (
          runs,
          passed,
          get_bit-eq-bit ins 20,
          load,
          memory_read_half_lem valid.memory host (split_offset_address p ins),
          rd_lem,
        )
        (ap (λ v. ret (0, arm_write_register p (ins / 2 ^ 12 % 16) v))
          (low_half_lem host (accepts p.mem 2 (split_offset_address p ins))
            (half_at p.mem (split_offset_address p ins))))

  -- STRH at an immediate offset without write-back, from a valid core and with its condition passing,
  -- puts the low half of rd at the base plus or minus the offset in the memory's byte order, and
  -- changes nothing where that address is outside the memory or odd.
  pub arm_load_store_half_store :
      bit ins 20 ≡ 0
      → let address = split_offset_address p ins in
        arm_load_store_half host p ins
        ≡ ret (
          0,
          record p {
            mem =
                if accepts p.mem 2 address
                then put_half p.mem address (arm_read_register p (ins / 2 ^ 12 % 16) % 2 ^ 16)
                else p.mem;
          },
        )
  unfolding half_transfer arm_write_half
  arm_load_store_half_store store =
      rw
        (
          runs,
          passed,
          get_bit-eq-bit ins 20,
          store,
          rd_lem,
          low_field (arm_read_register p (ins / 2 ^ 12 % 16)),
          memory_write_half_lem valid.memory host (split_offset_address p ins)
              (arm_read_register p (ins / 2 ^ 12 % 16) % 2 ^ 16) (omega arith),
        )
        (ground arith)
