-- ===== src/Instruction/Reach.antt =====
-- The states that steps and interrupts lead to.
use mathlib.Core.Path.{subst}
use prog.Prelude.{ℕ, ◌≡◌, ret, Ensures, value}
use prog.Memory.{Host, Memory}
use prog.Memory.Spec as Spec
use prog.Core.{Core}
use prog.Core.Valid.{IsValid}
use prog.Exception.{arm_exception, arm_create}
use prog.Exception.Reset.{arm_exception-IsValid, arm_create_lem}
use prog.Instruction.{arm_step}
use prog.Instruction.Step.{arm_step-IsValid}

-- `arm_step` from a client's `step` or `cont`, and `arm_exception` from a request for an interrupt,
-- in any order.
pub data Reach (host : Host) (start : Core) : Core → Type 0 where
  here : Reach host start start
  step :
      {p q : Core} {result : ℕ}
      → Reach host start p
      → arm_step host p ≡ ret (result, q)
      → Reach host start q
  interrupt :
      {p : Core}
      → Reach host start p
      → (exception : ℕ) → Reach host start (arm_exception p exception)

ensured : {A : Type 0} {P : A → Type 0} {a : A} → Ensures P (ret a) → P a
ensured (value h) = h

-- Every core that steps and interrupts lead to from a new one over a valid memory is valid: its
-- registers hold words, its memory bytes, and its mode is the user's.
pub Reach-IsValid :
    (host : Host) (garbage : ℕ) (mem : Memory) {p : Core}
    → Spec.IsValid mem
    → Reach host (arm_create garbage mem) p
    → IsValid p
Reach-IsValid host garbage mem valid here = (arm_create_lem garbage mem valid).0
Reach-IsValid host garbage mem valid (step before taken) =
    (ensured (
      subst (Ensures _) taken
        (arm_step-IsValid host (Reach-IsValid host garbage mem valid before)))).1
Reach-IsValid host garbage mem valid (interrupt before exception) =
    arm_exception-IsValid exception (Reach-IsValid host garbage mem valid before)
