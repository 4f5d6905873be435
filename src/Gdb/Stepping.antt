-- ===== src/Gdb/Stepping.antt =====
-- The handlers that run the program, `step` and `cont`.
pub mod Stop
pub mod Breakpoint
use prog.Prelude.{
  ℕ, zero, suc, ◌+◌, Bool, true, false, Option, none, some, List, [], ◌∷◌, bit_and, ◌==◌,
  if◌then◌else◌, Run, ret, ◌>>=◌,
}
use prog.Word.{sub32}
use prog.Memory.{Host}
use prog.Core.{Core, arm_read_register, arm_read_word}
use prog.Instruction.{arm_step}
use prog.LoadStore.Single.{word_set}
use prog.Gdb.{Gdb, gdb_send_stop_reason}

module _ (host : Host) where
  unfoldable pub step : Gdb → List ℕ → Run Gdb
  step g s = do
    (result, p) ← arm_step host g.arm
    gdb_send_stop_reason (record g { arm = p; target_exception = result })

  -- `instruction` before a round of the loop, and after it has read the next instruction.
  unfoldable pub next_instruction : Core → ℕ → Run ℕ
  next_instruction p instruction =
      arm_read_word host p (sub32 (arm_read_register p 15) 4)
      >>= (λ v. ret (word_set v instruction))

  unfoldable pub is_breakpoint : ℕ → Bool
  is_breakpoint instruction = bit_and instruction 0xfff0_00f0 == 0xe7f0_00f0

  -- The `while` loop of `cont`, for so many rounds: `none` while it has not ended.
  unfoldable pub cont_loop : (rounds instruction : ℕ) → Gdb → Run (Option Gdb)
  cont_loop zero instruction g = ret none
  cont_loop (suc rounds) instruction g = do
    instruction' ← next_instruction g.arm instruction
    elim (is_breakpoint instruction') [
      | true ↦ ret (some g)
      | false ↦ arm_step host g.arm >>= (λ done.
          cont_loop rounds instruction' (record g { arm = done.1; target_exception = done.0 }))
    ]

  abbrev pub stopped : Option Gdb → Run (Option Gdb)
  stopped none = ret none
  stopped (some g) = gdb_send_stop_reason g >>= (λ g'. ret (some g'))

  -- `garbage` is what `instruction` holds at first.
  unfoldable pub cont : (rounds garbage : ℕ) → Gdb → List ℕ → Run (Option Gdb)
  unfolding cont_loop
  cont rounds garbage g s = cont_loop rounds garbage g >>= stopped
