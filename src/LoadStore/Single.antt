-- ===== src/LoadStore/Single.antt =====
-- `arm_load_store`: LDR, LDRB, STR and STRB, addressing mode 2.
pub mod Valid
pub mod Words
pub mod Index
pub mod Thumb
pub mod Described
pub mod Modes
use prog.Prelude.{
  ℕ, ◌*◌, ◌^◌, Bool, ◌&&◌, ◌||◌, Option, none, some, bit_and, ◌==◌, if◌then◌else◌, truth, Run, ret,
  ◌>>=◌,
}
use prog.Word.{add32, sub32, shr, shl32, u8}
use prog.Constants.{c_bit, t_bit}
use prog.Util.{
  get_bit, get_bits, set_bit, clr_bit, shift_left, shift_right, asr, ror, condition_passed,
}
use prog.Memory.{Host, little, big, Status}
use prog.Core.{
  Core, arm_read_register, arm_read_cpsr, arm_write_register, arm_write_usr_register,
  arm_write_cpsr, arm_read_byte, arm_read_word, arm_write_byte, arm_write_word,
}

-- The cases of the `switch` on the shift: each but the first runs on into the next.
unfoldable pub ror_case : ℕ → ℕ → ℕ → Run ℕ
ror_case cpsr rm_value shift_imm =
    if shift_imm == 0
    then ret (if truth (shl32 (get_bit cpsr c_bit) 31) || truth (shr rm_value 1) then 1 else 0)
    else ror rm_value shift_imm

unfoldable pub asr_case : ℕ → ℕ → ℕ → Run ℕ
asr_case cpsr rm_value shift_imm = do
  _ ←
      if shift_imm == 0
      then ret (if get_bit rm_value 31 == 1 then 0xffff_ffff else 0)
      else asr rm_value shift_imm
  ror_case cpsr rm_value shift_imm

unfoldable pub lsr_case : ℕ → ℕ → ℕ → Run ℕ
lsr_case cpsr rm_value shift_imm = do
  _ ← if shift_imm == 0 then ret 0 else shift_right rm_value shift_imm
  asr_case cpsr rm_value shift_imm

unfoldable pub scaled_index : ℕ → ℕ → ℕ → ℕ → Run ℕ
scaled_index cpsr rm_value shift shift_imm =
    if shift == 0
    then shift_left rm_value shift_imm
    else if shift == 1
    then lsr_case cpsr rm_value shift_imm
    else if shift == 2
    then asr_case cpsr rm_value shift_imm
    else if shift == 3
    then ror_case cpsr rm_value shift_imm
    else ret 0

-- The addressing mode's offset.
unfoldable pub load_store_index : Core → ℕ → Run ℕ
load_store_index p ins =
    let pre = get_bit ins 24 in
    let active = (pre == 1) || ((pre == 0) && condition_passed (arm_read_cpsr p) ins) in
    if get_bit ins 25 == 0
    then ret (if active then get_bits ins 11 0 else 0)
    else if active
    then scaled_index (arm_read_cpsr p) (arm_read_register p (get_bits ins 3 0)) (get_bits ins 6 5)
        (get_bits ins 11 7)
    else ret 0

-- rn with the index added or subtracted, by the bit U
abbrev pub indexed : Core → ℕ → ℕ → ℕ
indexed p ins index =
    let rn_value = arm_read_register p (get_bits ins 19 16) in
    if get_bit ins 23 == 1 then add32 rn_value index else sub32 rn_value index

unfoldable pub load_store_address : Core → ℕ → ℕ → ℕ
load_store_address p ins index =
    if get_bit ins 24 == 1 then indexed p ins index else arm_read_register p (get_bits ins 19 16)

-- The write-back of post-indexed addressing, then that of pre-indexed addressing.
unfoldable pub post_index : Core → ℕ → ℕ → Core
post_index p ins index =
    let rn = get_bits ins 19 16 in
    let value = indexed p ins index in
    if (get_bit ins 24 == 0) && condition_passed (arm_read_cpsr p) ins
    then if get_bit ins 21 == 1
      then arm_write_usr_register p rn value
      else arm_write_register p rn value
    else p

unfoldable pub pre_index : Core → ℕ → ℕ → Core
pre_index p ins address =
    if (get_bit ins 24 == 1) && condition_passed (arm_read_cpsr p) ins && (get_bit ins 21 == 1)
    then arm_write_usr_register p (get_bits ins 19 16) address
    else p

abbrev pub write_back : Core → ℕ → ℕ → ℕ → Core
write_back p ins index address = pre_index (post_index p ins index) ins address

-- The bit T of the CPSR, from bit 0 of a value loaded into the pc.
unfoldable pub set_thumb : Core → ℕ → Core
set_thumb p value = arm_write_cpsr p (
    if truth (get_bit value 0)
    then set_bit (arm_read_cpsr p) t_bit
    else clr_bit (arm_read_cpsr p) t_bit)

-- The register write that ends a load.
unfoldable pub load_into : Core → ℕ → ℕ → Core
load_into p rd value =
    if rd == 15
    then set_thumb (arm_write_register p 15 (bit_and value 0xffff_fffe)) value
    else arm_write_register p rd value

-- A uint32_t that was 0, after a byte is stored through its address cast to `uint8_t *`; it stays 0
-- where the read fails.
abbrev pub low_byte_set : Host → Option ℕ → ℕ
low_byte_set host none = 0
low_byte_set little (some b) = b
low_byte_set big (some b) = b * 2 ^ 24

abbrev pub word_set : Option ℕ → ℕ → ℕ
word_set none value = value
word_set (some v) value = v

module _ (host : Host) where
  unfoldable pub load_value : Core → ℕ → ℕ → Run ℕ
  load_value p ins address =
      if get_bit ins 22 == 1
      then arm_read_byte p address >>= (λ b. ret (low_byte_set host b))
      else arm_read_word host p address >>= (λ v. ret (word_set v 0))

  unfoldable pub store_value : Core → ℕ → ℕ → Run (Status × Core)
  store_value p ins address =
      let rd_value = arm_read_register p (get_bits ins 15 12) in
      if get_bit ins 22 == 1
      then arm_write_byte p address (u8 (get_bits rd_value 7 0))
      else arm_write_word host p address rd_value

  -- The transfer itself, from the core after write-back.
  unfoldable pub transfer : Core → ℕ → ℕ → Run Core
  transfer p ins address =
      if condition_passed (arm_read_cpsr p) ins
      then if get_bit ins 20 == 1
        then load_value p ins address >>= (λ value. ret (load_into p (get_bits ins 15 12) value))
        else store_value p ins address >>= (λ done. ret done.1)
      else ret p

  unfoldable pub arm_load_store : Core → ℕ → Run (ℕ × Core)
  arm_load_store p ins = do
    index ← load_store_index p ins
    let address = load_store_address p ins index
    p' ← transfer (write_back p ins index address) ins address
    ret (0, p')
