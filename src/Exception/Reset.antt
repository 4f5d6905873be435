-- ===== src/Exception/Reset.antt =====
-- Creation and RESET.
use prog.Prelude.{ℕ, ◌≡◌, ◌≢◌, refl, arith, ◌==◌, if◌then◌else◌, choice}
use prog.Constants.{reset}
use prog.Memory.{Memory}
use prog.Memory.Spec as Spec
use prog.Registers.{registers_create}
use prog.Core.{Core, arm_read_cpsr, arm_write_cpsr, arm_write_usr_register}
use prog.Core.Valid.{IsValid, arm_write_cpsr-IsValid, arm_write_usr_register-IsValid}
use prog.Exception.{arm_exception, arm_create}

pub arm_exception-IsValid : {p : Core} (e : ℕ) → IsValid p → IsValid (arm_exception p e)
unfolding arm_exception
arm_exception-IsValid {p} e valid =
    choice IsValid (e == reset)
      (arm_write_usr_register-IsValid (arm_write_cpsr-IsValid valid 0x1d3 (omega arith)) 15 0
        (omega arith))
      valid

-- RESET of a valid core sets the CPSR to 0x1d3 and the pc to 0, and leaves the other registers, the
-- SPSR, the mode, the memory and the cycle count; any other exception changes nothing.
pub arm_exception_lem :
    {p : Core} (e : ℕ)
    → IsValid p
    → ((arm_exception p e).reg.slots 16 ≡ (if e == reset then 0x1d3 else p.reg.slots 16))
      × ((arm_exception p e).reg.slots 15 ≡ (if e == reset then 0 else p.reg.slots 15))
      × ((i : ℕ) → i ≢ 15 → i ≢ 16 → (arm_exception p e).reg.slots i ≡ p.reg.slots i)
      × ((arm_exception p e).reg.mode ≡ p.reg.mode)
      × ((arm_exception p e).mem ≡ p.mem)
      × ((arm_exception p e).cycle_count ≡ p.cycle_count)
unfolding arm_exception arm_write_cpsr arm_write_usr_register
arm_exception_lem {p} e valid = (
  ground (arith, valid.user),
  ground (arith, valid.user),
  λ i h k. ground (arith, h, k, valid.user),
  ground arith,
  ground arith,
  ground arith,
)

-- A new core over a valid memory is valid, with no cycle counted, CPSR 0x1d3, all else of the
-- registers 0, and that memory.
pub arm_create_lem :
    (garbage : ℕ) (mem : Memory)
    → Spec.IsValid mem
    → IsValid (arm_create garbage mem)
      × ((arm_create garbage mem).cycle_count ≡ 0)
      × (arm_read_cpsr (arm_create garbage mem) ≡ 0x1d3)
      × ((i : ℕ) → i ≢ 16 → (arm_create garbage mem).reg.slots i ≡ 0)
      × ((arm_create garbage mem).mem ≡ mem)
unfolding arm_create arm_exception registers_create arm_write_cpsr arm_write_usr_register
    arm_read_cpsr
arm_create_lem garbage mem valid = (
  record { word = λ i. ground arith; user = refl; memory = valid },
  refl,
  refl,
  λ i h. ground (arith, h),
  refl,
)
