-- ===== src/Tests/Transfers.antt =====
-- Loads, stores and branches, at inputs.
use prog.Prelude.{
  ℕ, ◌+◌, ◌*◌, ◌/◌, ◌%◌, ◌^◌, ◌≤◌, ◌≡◌, ◌≢◌, refl, true, ◌&&◌, arith, ◌==◌, if◌then◌else◌, ret,
}
use prog.Tests.{moves_core, moves_core-IsValid, moves_core-aligned}
use prog.Branch.{arm_branch, branch_offset}
use prog.Branch.Target.{arm_branch_lem, branch_forward}
use prog.Core.{arm_read_cpsr, arm_write_register}
use prog.LoadStore.Half.{arm_load_store_half}
use prog.LoadStore.Half.Halves.{arm_load_store_half_load, split_offset_address}
use prog.Memory.{big, little}
use prog.Memory.Access.{accepts}
use prog.Memory.Spec.{half_at}
use prog.Util.{condition_passed, get_bit}
use prog.Word.{add32}

half_load_passes : condition_passed (arm_read_cpsr moves_core) 0xe1d1_00b2 ≡ true
unfolding prog.Util.condition_passed prog.Util.condition_holds prog.Util.arm_get_cond
    prog.Util.cond_of
half_load_passes = refl

arm_load_store_half_load_example :
    let address = split_offset_address moves_core 0xe1d1_00b2 in
    let half = if accepts moves_core.mem 2 address then half_at moves_core.mem address else 0 in
    arm_load_store_half big moves_core 0xe1d1_00b2
    ≡ ret (
      0,
      arm_write_register moves_core
          (0xe1d1_00b2 / 2 ^ 12 % 16)
          (elim big [ little ↦ half | big ↦ half * 2 ^ 16 ]),
    )
arm_load_store_half_load_example =
    arm_load_store_half_load moves_core-IsValid 0xe1d1_00b2 big refl refl refl refl half_load_passes
      refl

arm_branch_lem_example :
    let q = (arm_branch moves_core 0xebff_fffe).1 in
    let pc = moves_core.reg.slots 15 in
    let taken = condition_passed (arm_read_cpsr moves_core) 0xebff_fffe in
    ((arm_branch moves_core 0xebff_fffe).0 ≡ 0)
    × (q.reg.slots 15 ≡ (if taken then add32 (add32 pc 4) (branch_offset 0xebff_fffe) else pc))
    × (q.reg.slots 14
        ≡ (if taken && (get_bit 0xebff_fffe 24 == 1) then pc else moves_core.reg.slots 14))
    × ((i : ℕ) → i ≢ 14 → i ≢ 15 → q.reg.slots i ≡ moves_core.reg.slots i)
    × (q.reg.mode ≡ moves_core.reg.mode)
    × (q.mem ≡ moves_core.mem)
    × (q.cycle_count ≡ moves_core.cycle_count)
arm_branch_lem_example = arm_branch_lem moves_core-IsValid 0xebff_fffe moves_core-aligned

branch_forward_example : 4 * (0xea00_0001 % 2 ^ 24) + 2 ^ 29 ≤ branch_offset 0xea00_0001
branch_forward_example = branch_forward 0xea00_0001 (omega arith) refl refl
