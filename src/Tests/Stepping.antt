-- ===== src/Tests/Stepping.antt =====
-- `cont` over two steps to a breakpoint.
use prog.Prelude.{
  ℕ, zero, suc, ◌%◌, ◌<◌, ◌≤◌, ◌≡◌, refl, true, false, arith, [], ◌∷◌, Run, ret, some, ◌>>=◌, codes,
}
use prog.Memory.{Memory, little}
use prog.Core.{Core}
use prog.Exception.{arm_create}
use prog.Exception.Reset.{arm_create_lem}
use prog.Instruction.{arm_step}
use prog.Gdb.{Gdb, gdb_send_data}
use prog.Gdb.Stepping.{cont}
use prog.Gdb.Stepping.Breakpoint.{at_undefined, AreSteps, cont-at_undefined}
use prog.Tests.{program, program-IsValid}

-- mov r0, #5; cmp r1, #20; a breakpoint
abbrev stopping : Memory
stopping = program (0xe3a0_0005 ∷ 0xe351_0014 ∷ 0xe7f0_00f0 ∷ []) 0

abbrev next_core : Core → Run (ℕ × Core) → Core
next_core p (ret (_, q)) = q
next_core p _ = p

abbrev states : ℕ → Core
states zero = arm_create 0 stopping
states (suc k) = next_core (states k) (arm_step little (states k))

abbrev server : Gdb
server = record { arm = states 0; target_exception = 0; packet = []; len = 0; events = [] }

-- What the two steps do, and the pc's on the way.
the_run :
    (arm_step little (states 0) ≡ ret (0, states 1))
    × (arm_step little (states 1) ≡ ret (0, states 2))
    × (((states 0).reg.slots 15 ≡ 0)
        × ((states 1).reg.slots 15 ≡ 4)
        × ((states 2).reg.slots 15 ≡ 8))
    × (at_undefined (states 0) ≡ false)
    × (at_undefined (states 1) ≡ false)
    × (at_undefined (states 2) ≡ true)
    × ((states 0).mem.size ≡ 64)
unfolding at_undefined prog.Gdb.Stepping.Breakpoint.is_undefined prog.Core.arm_read_cpsr
    prog.Core.arm_write_usr_register prog.Core.arm_write_cpsr prog.Core.arm_fetch
    prog.DataProcessing.dispatch prog.DataProcessing.run_operands
    prog.DataProcessing.arm_data_processing_shift prog.DataProcessing.Operand.apply_rotation_imm
    prog.DataProcessing.Operand.shifter_operand prog.DataProcessing.Operand.decode_operand
    prog.DataProcessing.Operations.raise prog.DataProcessing.Operations.lower
    prog.DataProcessing.Operations.update_zn prog.DataProcessing.Operations.update_v
    prog.DataProcessing.Operations.update_c prog.DataProcessing.Operations.arm_cmp
    prog.DataProcessing.Operations.arm_mov prog.Exception.arm_create prog.Instruction.decode
    prog.Instruction.arm_execute_instruction prog.Instruction.arm_step prog.Memory.memory_create
    prog.Memory.memory_read_word prog.Memory.Spec.word_at prog.Memory.Spec.put_word
    prog.Util.get_bit prog.Util.get_bits prog.Util.cond_of prog.Util.arm_get_cond
    prog.Util.condition_holds prog.Util.condition_passed
the_run = (refl, refl, (refl, refl, refl), refl, refl, refl, refl)

two_steps : AreSteps little 2 states (λ _. 0)
two_steps zero h = the_run.0
two_steps (suc zero) h = the_run.1
two_steps (suc (suc k)) h = absurd (omega (arith, h))

all_aligned : (k : ℕ) → k ≤ 2 → (states k).reg.slots 15 % 4 ≡ 0
all_aligned zero h = omega (arith, the_run.2.0)
all_aligned (suc zero) h = omega (arith, the_run.2.1)
all_aligned (suc (suc zero)) h = omega (arith, the_run.2.2)
all_aligned (suc (suc (suc k))) h = absurd (omega (arith, h))

none_before : (k : ℕ) → k < 2 → at_undefined (states k) ≡ false
none_before zero h = the_run.3
none_before (suc zero) h = the_run.4
none_before (suc (suc k)) h = absurd (omega (arith, h))

cont-at_undefined_example :
    cont little 5 77 (record server { arm = states 0; target_exception = 0 }) [] ≡ (
      gdb_send_data (codes "S05") (record server { arm = states 2; target_exception = 0 })
      >>= (λ answered. ret (some answered)))
cont-at_undefined_example =
    cont-at_undefined little states (λ _. 0) 2 5 77 server []
      (arm_create_lem 0 stopping
        (program-IsValid (0xe3a0_0005 ∷ 0xe351_0014 ∷ 0xe7f0_00f0 ∷ []) 0)).0
      (omega arith) (omega (arith, the_run.2.0, the_run.6)) all_aligned two_steps none_before
      the_run.5 (omega arith)
