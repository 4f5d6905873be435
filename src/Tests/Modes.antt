-- ===== src/Tests/Modes.antt =====
-- LDRB with its base moved before, and STR with its base moved after by a scaled register, at inputs.
use prog.Prelude.{ℕ, ◌+◌, ◌-◌, ◌*◌, ◌==◌, if◌then◌else◌, ◌/◌, ◌%◌, ◌^◌, ◌≡◌, refl, true, ret}
use prog.Tests.{moves_core, moves_core-IsValid}
use prog.Util.{condition_passed}
use prog.Word.{bit}
use prog.Memory.{little, big}
use prog.Core.{arm_read_register, arm_read_cpsr, arm_write_register, arm_write_cpsr}
use prog.LoadStore.Single.{arm_load_store}
use prog.LoadStore.Single.Described.{mode_address, mode_core, value_at, stored_at}
use prog.LoadStore.Single.Modes.{arm_load_store_loads, arm_load_store_stores}

-- ldrb r0, [r1, #4]!
abbrev load_byte : ℕ
load_byte = 0xe5f1_0004

-- str r0, [r1], r2, lsl #2
abbrev store_word : ℕ
store_word = 0xe681_0102

load_passes : condition_passed (arm_read_cpsr moves_core) load_byte ≡ true
unfolding condition_passed prog.Util.condition_holds prog.Util.arm_get_cond prog.Util.cond_of
load_passes = refl

store_passes : condition_passed (arm_read_cpsr moves_core) store_word ≡ true
unfolding condition_passed prog.Util.condition_holds prog.Util.arm_get_cond prog.Util.cond_of
store_passes = refl

arm_load_store_loads_example : arm_load_store big moves_core load_byte ≡ (
    let q = mode_core moves_core load_byte in
    let v = value_at big moves_core.mem load_byte (mode_address moves_core load_byte) in
    let c = arm_read_cpsr q in
    ret (
      0,
      if load_byte / 2 ^ 12 % 16 == 15
          then arm_write_cpsr (arm_write_register q 15 (v - v % 2)) (c - bit c 5 * 32 + v % 2 * 32)
          else arm_write_register q (load_byte / 2 ^ 12 % 16) v,
    ))
arm_load_store_loads_example =
    arm_load_store_loads moves_core-IsValid load_byte big load_passes refl

arm_load_store_stores_example : arm_load_store little moves_core store_word ≡ (
    let q = mode_core moves_core store_word in
    ret (
      0,
      record q {
        mem =
            stored_at moves_core.mem store_word
              (mode_address moves_core store_word)
              (arm_read_register q (store_word / 2 ^ 12 % 16));
      },
    ))
arm_load_store_stores_example =
    arm_load_store_stores moves_core-IsValid store_word little store_passes refl
