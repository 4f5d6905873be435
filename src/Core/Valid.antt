-- ===== src/Core/Valid.antt =====
-- The invariant of the processor state, and what keeps it.
use prog.Prelude.{ℕ, ◌^◌, ◌<◌, ◌≡◌, ◌≢◌, arith}
use prog.Constants.{usr}
use prog.Word.{add32}
use prog.Word.Bits.{bit_and-lt}
use prog.Memory.Spec as Spec
use prog.Core.{
  Core, arm_read_register, arm_read_usr_register, arm_read_cpsr, arm_read_spsr, arm_write_register,
  arm_write_usr_register, arm_write_cpsr,
}

-- The registers hold words, the mode is the one that `registers_create` sets, and the memory is valid.
pub record IsValid (p : Core) : Type 0 where
  pub word : (i : ℕ) → p.reg.slots i < 2 ^ 32
  pub user : p.reg.mode ≡ usr
  pub memory : Spec.IsValid p.mem

module _ {p : Core} (valid : IsValid p) where
  pub arm_read_register-lt : (reg : ℕ) → arm_read_register p reg < 2 ^ 32
  unfolding arm_read_register
  arm_read_register-lt reg = ground (
    arith,
    valid.word reg,
    bit_and-lt (add32 (p.reg.slots 15) 4) 0xffff_fffd 32 (omega arith) (omega arith),
  )

  pub arm_read_cpsr-lt : arm_read_cpsr p < 2 ^ 32
  unfolding arm_read_cpsr
  arm_read_cpsr-lt = valid.word 16

  pub arm_read_usr_register-lt : (reg : ℕ) → arm_read_usr_register p reg < 2 ^ 32
  unfolding arm_read_usr_register
  arm_read_usr_register-lt reg = ground (
    arith,
    valid.word reg,
    bit_and-lt (add32 (p.reg.slots 15) 4) 0xffff_fffd 32 (omega arith) (omega arith),
    bit_and-lt 4 0xffff_fffd 32 (omega arith) (omega arith),
  )

  pub arm_read_spsr-lt : arm_read_spsr p < 2 ^ 32
  unfolding arm_read_spsr
  arm_read_spsr-lt = valid.word 17

  pub arm_write_register-IsValid : (reg v : ℕ) → v < 2 ^ 32 → IsValid (arm_write_register p reg v)
  unfolding arm_write_register
  arm_write_register-IsValid reg v h = record {
    word = λ i. ground (arith, valid.word i);
    user = ground (arith, valid.user);
    memory = valid.memory;
  }

  pub arm_write_usr_register-IsValid :
      (reg v : ℕ) → v < 2 ^ 32 → IsValid (arm_write_usr_register p reg v)
  unfolding arm_write_usr_register
  arm_write_usr_register-IsValid reg v h = record {
    word = λ i. ground (arith, valid.word i);
    user = ground (arith, valid.user);
    memory = valid.memory;
  }

  pub arm_write_cpsr-IsValid : (v : ℕ) → v < 2 ^ 32 → IsValid (arm_write_cpsr p v)
  unfolding arm_write_cpsr
  arm_write_cpsr-IsValid v h = record {
    word = λ i. ground (arith, valid.word i);
    user = ground (arith, valid.user);
    memory = valid.memory;
  }

  -- In a valid state every register write reaches its register, also as the user's.
  pub arm_write_usr_register-eq :
      (reg v : ℕ) → arm_write_usr_register p reg v ≡ arm_write_register p reg v
  unfolding arm_write_usr_register arm_write_register
  arm_write_usr_register-eq reg v = ground (arith, valid.user)

-- A register write leaves the CPSR alone.
pub arm_read_cpsr-write_register :
    (p : Core) (reg v : ℕ) → arm_read_cpsr (arm_write_register p reg v) ≡ arm_read_cpsr p
unfolding arm_read_cpsr arm_write_register
arm_read_cpsr-write_register p reg v = ground arith

-- Reading another register than the one written.
pub arm_read_register-write_ne :
    (p : Core) (reg v other : ℕ)
    → other ≢ reg
    → arm_read_register (arm_write_register p reg v) other ≡ arm_read_register p other
unfolding arm_read_register arm_write_register
arm_read_register-write_ne p reg v other h = ground (arith, h)

-- Reading the register that was written, but for the pc.
pub arm_read_register-write_self :
    (q : Core) (r v : ℕ) → r < 15 → arm_read_register (arm_write_register q r v) r ≡ v
unfolding arm_read_register arm_write_register
arm_read_register-write_self q r v h = ground (arith, h)
