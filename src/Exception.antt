-- ===== src/Exception.antt =====
-- arm_exception.c, which supports RESET alone, and `arm_create` of arm_core.c, which raises it.
pub mod Reset
use prog.Prelude.{ℕ, ◌==◌, if◌then◌else◌, bit_or}
use prog.Constants.{reset}
use prog.Memory.{Memory}
use prog.Registers.{registers_create}
use prog.Core.{Core, arm_write_cpsr, arm_write_usr_register}

-- `Exception_bit_9` is 0 << 9.
unfoldable pub arm_exception : Core → ℕ → Core
arm_exception p exception =
    if exception == reset
    then arm_write_usr_register (arm_write_cpsr p (bit_or 0x1d3 0)) 15 0
    else p

-- `garbage` is what the cycle count holds before it is set.
unfoldable pub arm_create : (garbage : ℕ) → Memory → Core
unfolding registers_create arm_exception
arm_create garbage mem =
    let p : Core = record { cycle_count = garbage; reg = registers_create; mem = mem } in
    record (arm_exception p reset) { cycle_count = 0 }
