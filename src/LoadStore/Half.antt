-- ===== src/LoadStore/Half.antt =====
-- `arm_load_store_half`: LDRH and STRH.
pub mod Valid
pub mod Halves
use prog.Prelude.{
  ℕ, ◌*◌, ◌^◌, Bool, not, ◌&&◌, Option, none, some, bit_or, ◌==◌, if◌then◌else◌, truth, Run, ret,
  ◌>>=◌,
}
use prog.Word.{u8, u16, add32, sub32, shl32}
use prog.Util.{get_bit, get_bits, condition_passed}
use prog.Memory.{Host, little, big}
use prog.Core.{
  Core, arm_read_register, arm_read_cpsr, arm_write_register, arm_read_half, arm_write_half,
}

unfoldable pub half_offset : Core → ℕ → ℕ
half_offset p ins =
    if get_bit ins 22 == 1
    then u8 (bit_or (shl32 (get_bits ins 11 8) 4) (get_bits ins 3 0))
    else u8 (arm_read_register p (get_bits ins 3 0))

unfoldable pub half_address : Core → ℕ → ℕ
half_address p ins =
    let rn_value = arm_read_register p (get_bits ins 19 16) in
    if get_bit ins 24 == 1
    then if truth (get_bit ins 23)
      then add32 rn_value (half_offset p ins)
      else sub32 rn_value (half_offset p ins)
    else rn_value

-- The write of the post-indexed base, which does not depend on the condition, then the write-back.
unfoldable pub half_post_index : Core → ℕ → Core
half_post_index p ins =
    let rn = get_bits ins 19 16 in
    if get_bit ins 24 == 1
    then p
    else arm_write_register p rn (add32 (arm_read_register p rn) (get_bits ins 3 0))

unfoldable pub half_pre_index : Core → ℕ → ℕ → Core
half_pre_index p ins address =
    if (get_bit ins 21 == 1) && condition_passed (arm_read_cpsr p) ins
    then arm_write_register p (get_bits ins 19 16) address
    else p

abbrev pub half_write_back : Core → ℕ → ℕ → Core
half_write_back p ins address = half_pre_index (half_post_index p ins) ins address

-- A uint32_t that was 0, after a half word is stored through its address cast to `uint16_t *`.
abbrev pub low_half_set : Host → Option ℕ → ℕ
low_half_set host none = 0
low_half_set little (some h) = h
low_half_set big (some h) = h * 2 ^ 16

module _ (host : Host) where
  unfoldable pub half_transfer : Core → ℕ → ℕ → Run Core
  half_transfer p ins address =
      let rd = get_bits ins 15 12 in
      if condition_passed (arm_read_cpsr p) ins
      then if get_bit ins 20 == 1
        then arm_read_half host p address
          >>= (λ v. ret (arm_write_register p rd (low_half_set host v)))
        else arm_write_half host p address (u16 (get_bits (arm_read_register p rd) 15 0))
          >>= (λ done. ret done.1)
      else ret p

  -- The message that the source prints for W = 1 and P = 0 is left out.
  unfoldable pub arm_load_store_half : Core → ℕ → Run (ℕ × Core)
  arm_load_store_half p ins = if not (get_bits ins 7 4 == 0xb) then ret (1, p) else do
    let address = half_address p ins
    p' ← half_transfer (half_write_back p ins address) ins address
    ret (0, p')
