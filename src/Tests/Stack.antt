-- ===== src/Tests/Stack.antt =====
-- A push and its pop, at inputs.
use mathlib.Core.Path.{subst}
use mathlib.Core.List.{map}
use prog.Prelude.{
  ℕ, [], ◌∷◌, ◌/◌, ◌%◌, ◌^◌, ◌≡◌, refl, true, ◌||◌, arith, ◌==◌, if◌then◌else◌, ret, Returns,
  returns, Returns-mono,
}
use prog.Tests.{moves_core, moves_core-IsValid}
use prog.Word.{bit}
use prog.Util.{condition_passed}
use prog.Memory.{Host, little}
use prog.Core.{Core, arm_read_cpsr, arm_read_register, arm_write_register}
use prog.Core.Valid.{IsValid, arm_write_register-IsValid}
use prog.LoadStore.Multiple.{arm_load_store_multiple}
use prog.LoadStore.Multiple.Valid.{arm_load_store_multiple-IsValid}
use prog.LoadStore.Multiple.Block.{put_words, load_words}
use prog.LoadStore.Multiple.Transfer.{
  block_registers, lowest, moved, arm_load_store_multiple_store, arm_load_store_multiple_load,
}
use prog.LoadStore.Multiple.Stack.{Undoes, arm_load_store_multiple-Undoes}

-- push {r1, r2, r3} and pop {r1, r2, r3}
abbrev push : ℕ
push = 0xe92d_000e

abbrev pop : ℕ
pop = 0xe8bd_000e

push-Undoes : Undoes push pop
push-Undoes = record {
  is_store = refl;
  is_load = refl;
  store_moves = refl;
  load_moves = refl;
  direction = refl;
  before = refl;
  same_base = refl;
  same_list = refl;
  no_pc = refl;
}

-- the stack ends at 48, and r2 holds 7
abbrev caller : Core
caller = arm_write_register (arm_write_register moves_core 13 48) 2 7

caller-IsValid : IsValid caller
caller-IsValid =
    arm_write_register-IsValid (arm_write_register-IsValid moves_core-IsValid 13 48 (omega arith)) 2
      7 (omega arith)

abbrev pushed : Core
pushed =
    let p1 = moved caller push 3 in
    record p1 {
      mem =
          put_words p1.mem (lowest caller push 3)
            (map (arm_read_register p1) (block_registers push));
    }

-- a callee that leaves another value in r2
abbrev callee : Core
callee = arm_write_register pushed 2 99

caller-passes : condition_passed (arm_read_cpsr caller) push ≡ true
unfolding condition_passed prog.Util.condition_holds prog.Util.arm_get_cond prog.Util.cond_of
caller-passes = refl

callee-passes : condition_passed (arm_read_cpsr callee) pop ≡ true
unfolding condition_passed prog.Util.condition_holds prog.Util.arm_get_cond prog.Util.cond_of
callee-passes = refl

arm_load_store_multiple_store_example : arm_load_store_multiple little caller push ≡ ret (0, pushed)
unfolding prog.LoadStore.Multiple.Block.registers prog.Util.get_bit
arm_load_store_multiple_store_example =
    arm_load_store_multiple_store caller-IsValid push caller-passes little refl

caller-passes_pop : condition_passed (arm_read_cpsr caller) pop ≡ true
unfolding condition_passed prog.Util.condition_holds prog.Util.arm_get_cond prog.Util.cond_of
caller-passes_pop = refl

arm_load_store_multiple_load_example :
    arm_load_store_multiple little caller pop
    ≡ ret (1, (load_words 0 (moved caller pop 3) (lowest caller pop 3) (1 ∷ 2 ∷ 3 ∷ [])).1)
unfolding prog.LoadStore.Multiple.Block.registers prog.Util.get_bit
arm_load_store_multiple_load_example =
    arm_load_store_multiple_load caller-IsValid pop caller-passes_pop little refl refl

push_runs : arm_load_store_multiple little caller push ≡ ret (0, pushed)
unfolding prog.LoadStore.Multiple.Block.registers prog.Util.get_bit
push_runs = arm_load_store_multiple_store caller-IsValid push caller-passes little refl

pushed-IsValid : IsValid pushed
pushed-IsValid = go (
    subst (Returns {A = ℕ × Core} (λ done. IsValid done.1)) push_runs
      (Returns-mono (arm_load_store_multiple-IsValid caller-IsValid push little) λ _ k. k.1))
  where
    go : Returns {A = ℕ × Core} (λ done. IsValid done.1) (ret (0, pushed)) → IsValid pushed
    go (returns h) = h

callee-IsValid : IsValid callee
callee-IsValid = arm_write_register-IsValid pushed-IsValid 2 99 (omega arith)

arm_load_store_multiple-Undoes_example :
    Returns
      (λ (result, q').
        (result ≡ 1)
        × (q'.mem ≡ pushed.mem)
        × (arm_read_register q' 2 ≡ (
            if (bit push 2 == 1) || (2 == push / 2 ^ 16 % 16)
            then arm_read_register caller 2
            else arm_read_register callee 2)))
      (arm_load_store_multiple little callee pop)
unfolding lowest moved prog.LoadStore.Multiple.Block.registers
    prog.LoadStore.Multiple.Block.put_words prog.Util.get_bit arm_read_register arm_write_register
    prog.Registers.read_register prog.Registers.write_register prog.Memory.Spec.put_word
    prog.Memory.memory_create prog.Exception.arm_create prog.Core.arm_write_cpsr
    prog.Core.arm_write_usr_register
arm_load_store_multiple-Undoes_example =
    arm_load_store_multiple-Undoes push-Undoes caller-IsValid callee-IsValid little caller-passes
      callee-passes (omega arith) refl refl (omega arith) push_runs refl refl 2 (omega arith)
