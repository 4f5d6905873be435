-- ===== src/Core.antt =====
-- arm_core.c: the processor's registers, memory and cycle count. The calls of trace.c that stand
-- beside each access write to the trace file and to variables of trace.c alone, so they are left out
-- of these functions. `malloc` is taken to succeed.
pub mod Valid
pub mod Access
pub mod Fetch
use prog.Prelude.{
  ℕ, ◌+◌, ◌%◌, ◌^◌, Bool, Option, none, some, bit_and, ◌==◌, if◌then◌else◌, Run, ret, ◌>>=◌,
}
use prog.Word.{add32, sub32}
use prog.Memory.{
  Host, Memory, Status, memory_read_byte, memory_read_half, memory_read_word, memory_write_byte,
  memory_write_half, memory_write_word,
}
use prog.Registers.{
  Registers, current_mode_has_spsr, in_a_privileged_mode, read_register, read_usr_register,
  read_cpsr, read_spsr, write_register, write_usr_register, write_cpsr, write_spsr,
}

-- `struct arm_core_data`
pub record Core : Type 0 where
  pub cycle_count : ℕ
  pub reg : Registers
  pub mem : Memory

unfoldable pub arm_current_mode_has_spsr : Core → Bool
unfolding current_mode_has_spsr
arm_current_mode_has_spsr p = current_mode_has_spsr p.reg

unfoldable pub arm_in_a_privileged_mode : Core → Bool
unfolding in_a_privileged_mode
arm_in_a_privileged_mode p = in_a_privileged_mode p.reg

abbrev pub arm_get_cycle_count : Core → ℕ
arm_get_cycle_count p = p.cycle_count

-- Reading the pc gives the address after the instruction plus 4, with bit 1 cleared.
unfoldable pub arm_read_register : Core → ℕ → ℕ
unfolding read_register
arm_read_register p reg =
    let value = read_register p.reg reg in
    if reg == 15 then bit_and (add32 value 4) 0xffff_fffd else value

unfoldable pub arm_read_usr_register : Core → ℕ → ℕ
unfolding read_usr_register
arm_read_usr_register p reg =
    let value = read_usr_register p.reg reg in
    if reg == 15 then bit_and (add32 value 4) 0xffff_fffd else value

unfoldable pub arm_read_cpsr : Core → ℕ
unfolding read_cpsr
arm_read_cpsr p = read_cpsr p.reg

unfoldable pub arm_read_spsr : Core → ℕ
unfolding read_spsr
arm_read_spsr p = read_spsr p.reg

unfoldable pub arm_write_register : Core → ℕ → ℕ → Core
unfolding write_register
arm_write_register p reg value = record p { reg = write_register p.reg reg value }

unfoldable pub arm_write_usr_register : Core → ℕ → ℕ → Core
unfolding write_usr_register
arm_write_usr_register p reg value = record p { reg = write_usr_register p.reg reg value }

unfoldable pub arm_write_cpsr : Core → ℕ → Core
unfolding write_cpsr
arm_write_cpsr p value = record p { reg = write_cpsr p.reg value }

unfoldable pub arm_write_spsr : Core → ℕ → Core
unfolding write_spsr
arm_write_spsr p value = record p { reg = write_spsr p.reg value }

abbrev pub with_mem : Core → Status × Memory → Status × Core
with_mem p (status, mem) = (status, record p { mem = mem })

unfoldable pub arm_read_byte : Core → ℕ → Run (Option ℕ)
arm_read_byte p address = memory_read_byte p.mem address

unfoldable pub arm_write_byte : Core → ℕ → ℕ → Run (Status × Core)
arm_write_byte p address value = do
  done ← memory_write_byte p.mem address value
  ret (with_mem p done)

module _ (host : Host) where
  -- `none` where the fetch fails and `*value` is left alone. The pc advances all the same.
  unfoldable pub arm_fetch : Core → Run (Option ℕ × Core)
  unfolding arm_read_register arm_write_register
  arm_fetch p = do
    let p' = record p { cycle_count = (p.cycle_count + 1) % 2 ^ 32 }
    let address = sub32 (arm_read_register p' 15) 4
    value ← memory_read_word host p'.mem address
    ret (value, arm_write_register p' 15 (add32 address 4))

  unfoldable pub arm_read_half : Core → ℕ → Run (Option ℕ)
  arm_read_half p address = memory_read_half host p.mem address

  unfoldable pub arm_read_word : Core → ℕ → Run (Option ℕ)
  arm_read_word p address = memory_read_word host p.mem address

  unfoldable pub arm_write_half : Core → ℕ → ℕ → Run (Status × Core)
  arm_write_half p address value = do
    done ← memory_write_half host p.mem address value
    ret (with_mem p done)

  unfoldable pub arm_write_word : Core → ℕ → ℕ → Run (Status × Core)
  arm_write_word p address value = do
    done ← memory_write_word host p.mem address value
    ret (with_mem p done)
