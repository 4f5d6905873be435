-- ===== src/Registers.antt =====
-- registers.c: eighteen words (r0 to r15, the CPSR in slot 16 and the SPSR in slot 17) and a mode.
-- The sources index the array only behind a test below 16, or at 16 and 17. `malloc` is taken to
-- succeed.
use prog.Prelude.{ℕ, Bool, not, ◌&&◌, ltb, ◌==◌, if◌then◌else◌}
use prog.Constants.{usr, irq, sys}

-- `slots i` is `data[i]`.
pub record Registers : Type 0 where
  pub slots : ℕ → ℕ
  pub mode : ℕ

abbrev pub put : Registers → ℕ → ℕ → Registers
put r i v = record r { slots = λ j. if j == i then v else r.slots j }

unfoldable pub registers_create : Registers
registers_create = record { slots = λ _. 0; mode = usr }

abbrev pub get_mode : Registers → ℕ
get_mode r = r.mode

unfoldable pub current_mode_has_spsr : Registers → Bool
current_mode_has_spsr r = not (r.mode == irq)

unfoldable pub in_a_privileged_mode : Registers → Bool
in_a_privileged_mode r = not (r.mode == sys)

unfoldable pub read_register : Registers → ℕ → ℕ
read_register r reg = if ltb reg 16 then r.slots reg else 0

unfoldable pub read_usr_register : Registers → ℕ → ℕ
read_usr_register r reg = if ltb reg 16 && (r.mode == usr) then r.slots reg else 0

unfoldable pub read_cpsr : Registers → ℕ
read_cpsr r = r.slots 16

unfoldable pub read_spsr : Registers → ℕ
read_spsr r = r.slots 17

unfoldable pub write_register : Registers → ℕ → ℕ → Registers
write_register r reg value = if ltb reg 16 then put r reg value else r

unfoldable pub write_usr_register : Registers → ℕ → ℕ → Registers
write_usr_register r reg value = if ltb reg 16 && (r.mode == usr) then put r reg value else r

unfoldable pub write_cpsr : Registers → ℕ → Registers
write_cpsr r value = put r 16 value

unfoldable pub write_spsr : Registers → ℕ → Registers
write_spsr r value = put r 17 value
