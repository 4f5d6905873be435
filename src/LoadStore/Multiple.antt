-- ===== src/LoadStore/Multiple.antt =====
-- `arm_load_store_multiple`: LDM and STM.
pub mod Valid
pub mod Block
pub mod Transfer
pub mod Held
pub mod Stack
use prog.Prelude.{ℕ, zero, suc, ◌+◌, ◌*◌, ◌&&◌, ◌==◌, if◌then◌else◌, truth, Run, ret, ◌>>=◌}
use prog.Word.{u8, add32, sub32}
use prog.Constants.{t_bit}
use prog.Util.{get_bit, get_bits, set_bit, clr_bit, condition_passed}
use prog.Memory.{Host}
use prog.Core.{
  Core, arm_read_register, arm_read_cpsr, arm_write_register, arm_write_cpsr, arm_read_word,
  arm_write_word,
}
use prog.LoadStore.Single.{set_thumb, word_set}

-- The first loop: how many of r0 to r14 are listed, with `left` rounds to go from register i.
unfoldable pub count_registers : ℕ → (left i nb_reg : ℕ) → ℕ
count_registers ins zero i nb_reg = nb_reg
count_registers ins (suc left) i nb_reg =
    count_registers ins left (i + 1) (u8 (nb_reg + get_bit ins i))

abbrev pub nb_reg : ℕ → ℕ
nb_reg ins = count_registers ins 15 0 0

-- The addresses of the block, and what is written back, for each addressing mode.
unfoldable pub start_address : Core → ℕ → ℕ
start_address p ins =
    let rn_value = arm_read_register p (get_bits ins 19 16) in
    let span = nb_reg ins * 4 in
    if get_bit ins 24 == 0
    then if get_bit ins 23 == 1 then rn_value else add32 (sub32 rn_value span) 4
    else if get_bit ins 23 == 1
    then add32 rn_value 4
    else sub32 rn_value span

unfoldable pub end_address : Core → ℕ → ℕ
end_address p ins =
    let rn_value = arm_read_register p (get_bits ins 19 16) in
    let span = nb_reg ins * 4 in
    if get_bit ins 24 == 0
    then if get_bit ins 23 == 1 then sub32 (add32 rn_value span) 4 else rn_value
    else if get_bit ins 23 == 1
    then add32 rn_value span
    else sub32 rn_value 4

unfoldable pub block_write_back : Core → ℕ → Core
block_write_back p ins =
    let rn = get_bits ins 19 16 in
    let rn_value = arm_read_register p rn in
    let span = nb_reg ins * 4 in
    if condition_passed (arm_read_cpsr p) ins && (get_bit ins 21 == 1)
    then arm_write_register p rn
        (if get_bit ins 23 == 1 then add32 rn_value span else sub32 rn_value span)
    else p

module _ (host : Host) where
  -- One round of the load loop, on register ri: the address, the last value read and the core.
  unfoldable pub load_round : ℕ → (ri address value : ℕ) → Core → Run (ℕ × ℕ × Core)
  load_round ins ri address value p =
      if get_bit ins ri == 1
      then arm_read_word host p address >>= (λ v.
        ret (add32 address 4, word_set v value, arm_write_register p ri (word_set v value)))
      else ret (address, value, p)

  -- The load loop, with `left` rounds to go.
  unfoldable pub load_loop : ℕ → (left ri address value : ℕ) → Core → Run (ℕ × ℕ × Core)
  load_loop ins zero ri address value p = ret (address, value, p)
  load_loop ins (suc left) ri address value p = do
    (address', value', p') ← load_round ins ri address value p
    load_loop ins left (ri + 1) address' value' p'

  unfoldable pub store_round : ℕ → (ri address : ℕ) → Core → Run (ℕ × Core)
  store_round ins ri address p =
      if get_bit ins ri == 1
      then arm_write_word host p address (arm_read_register p ri)
        >>= (λ done. ret (add32 address 4, done.1))
      else ret (address, p)

  unfoldable pub store_loop : ℕ → (left ri address : ℕ) → Core → Run (ℕ × Core)
  store_loop ins zero ri address p = ret (address, p)
  store_loop ins (suc left) ri address p = do
    (address', p') ← store_round ins ri address p
    store_loop ins left (ri + 1) address' p'

  -- The load of the pc that ends an LDM. `value && 0xFFFFFFFE` is a truth value.
  unfoldable pub load_pc : ℕ → (address value : ℕ) → Core → Run Core
  load_pc ins address value p =
      if get_bit ins 15 == 1
      then arm_read_word host p address >>= (λ v. ret (
          set_thumb (arm_write_register p 15 (if truth (word_set v value) then 1 else 0))
            (word_set v value)))
      else ret p

  -- The transfers, with the final `address`: it is still 0 where the condition fails.
  unfoldable pub block_transfer : Core → ℕ → ℕ → Run (ℕ × Core)
  block_transfer p ins start =
      if condition_passed (arm_read_cpsr p) ins
      then if get_bit ins 20 == 1
        then (do
          (address, value, p1) ← load_loop ins 15 0 start 0 p
          p2 ← load_pc ins address value p1
          ret (add32 address 4, p2))
        else store_loop ins 15 0 start p
      else ret (0, p)

  unfoldable pub arm_load_store_multiple : Core → ℕ → Run (ℕ × Core)
  arm_load_store_multiple p ins = do
    (address, p') ← block_transfer (block_write_back p ins) ins (start_address p ins)
    ret (if end_address p ins == sub32 address 4 then 0 else 1, p')
