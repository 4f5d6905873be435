-- ===== src/Tests/Steps.antt =====
-- The steps, RESET and the conditions, at inputs.
use prog.Prelude.{◌<◌, ◌≡◌, ltb, if◌then◌else◌, ret, Ensures}
use prog.Tests.{moves_core, moves_core-IsValid, moves_core-aligned}
use prog.Constants.{reset}
use prog.Core.Fetch.{fetched}
use prog.Core.Valid.{IsValid}
use prog.Exception.{arm_exception}
use prog.Instruction.{arm_step, decode}
use prog.Instruction.Outcome.{arm_step_lem}
use prog.Instruction.Step.{arm_step-IsValid}
use prog.Memory.{little}
use prog.Memory.Spec.{word_at}

arm_step_lem_example : arm_step little moves_core ≡ (
    if ltb (moves_core.reg.slots 15) moves_core.mem.size
    then decode little (fetched moves_core) (word_at moves_core.mem (moves_core.reg.slots 15))
    else ret (1, arm_exception (fetched moves_core) reset))
arm_step_lem_example = arm_step_lem little moves_core-IsValid moves_core-aligned

arm_step-IsValid_example :
    Ensures (λ (result, q). (result < 2) × IsValid q) (arm_step little moves_core)
arm_step-IsValid_example = arm_step-IsValid little moves_core-IsValid
