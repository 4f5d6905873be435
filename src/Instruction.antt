-- ===== src/Instruction.antt =====
-- arm_instruction.c: fetch, decode on bits 27 to 25, and one step. What it prints is left out.
pub mod Step
pub mod Outcome
pub mod Reach
use prog.Prelude.{ℕ, Option, none, some, ◌==◌, if◌then◌else◌, truth, Run, ret, ◌>>=◌}
use prog.Word.{u8}
use prog.Util.{get_bits}
use prog.Memory.{Host}
use prog.Core.{Core, arm_fetch}
use prog.Exception.{arm_exception}
use prog.DataProcessing.{arm_data_processing_shift}
use prog.LoadStore.Single.{arm_load_store}
use prog.LoadStore.Multiple.{arm_load_store_multiple}
use prog.LoadStore.Half.{arm_load_store_half}
use prog.Branch.{arm_branch, arm_coprocessor_others_swi}

module _ (host : Host) where
  -- The `switch` on the class of the instruction: what each decoder returns is dropped, and the
  -- result is 0 but for the `default`, which no three bits reach.
  unfoldable pub decode : Core → ℕ → Run (ℕ × Core)
  decode p ins =
      let champ = u8 (get_bits ins 27 25) in
      let dropped : Run (ℕ × Core) → Run (ℕ × Core) = λ m. m >>= (λ done. ret (0, done.1)) in
      if champ == 0
      then if get_bits ins 7 4 == 0xb
        then dropped (arm_load_store_half host p ins)
        else dropped (arm_data_processing_shift p ins)
      else if champ == 1
      then dropped (arm_data_processing_shift p ins)
      else if champ == 2
      then dropped (arm_load_store host p ins)
      else if champ == 3
      then dropped (arm_load_store host p ins)
      else if champ == 4
      then dropped (arm_load_store_multiple host p ins)
      else if champ == 5
      then ret (0, (arm_branch p ins).1)
      else if champ == 6
      then ret (0, p)
      else if champ == 7
      then arm_coprocessor_others_swi p ins >>= (λ _. ret (0, p))
      else ret (1, p)

  unfoldable pub arm_execute_instruction : Core → Run (ℕ × Core)
  arm_execute_instruction p = do
    (fetched, p') ← arm_fetch host p
    elim fetched [ none ↦ ret (1, p') | some ins ↦ decode p' ins ]

  unfoldable pub arm_step : Core → Run (ℕ × Core)
  arm_step p = do
    (result, p') ← arm_execute_instruction p
    ret (result, if truth result then arm_exception p' (u8 result) else p')
