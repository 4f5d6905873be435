-- ===== src/Tests.antt =====
-- Runs of the model on small inputs, and the data that the modules below share: there each theorem
-- stands at an input that meets its hypotheses.
mod Steps
mod Names
mod Words
mod Operations
mod Transfers
mod Protocol
mod Stepping
mod Requests
mod Connection
mod Programs
mod Stack
mod WithS
mod Modes
mod Tracing
mod Network
mod Turns
use prog.Prelude.{
  ℕ, zero, suc, ◌+◌, Option, none, some, ◌≡◌, refl, ◌%◌, arith, List, [], ◌∷◌, Run, ret, undefined,
  exited, ◌>>=◌,
}
use prog.Memory.{Host, little, big, Memory, memory_create}
use prog.Memory.Spec as Spec
use prog.Memory.Spec.{put_word}
use prog.Memory.Store.{put_word-IsValid}
use prog.Core.Valid.{IsValid}
use prog.Exception.Reset.{arm_create_lem}
use prog.Core.{Core, arm_read_register, arm_read_cpsr}
use prog.Exception.{arm_create}
use prog.Instruction.{arm_step}

-- a memory of 64 bytes with a program from address 0
abbrev pub program : List ℕ → ℕ → Memory
program [] a = memory_create (λ _. 0) 64 0
program (w ∷ ws) a = let m = program ws (a + 4) in put_word m a w

abbrev steps : ℕ → Core → Run Core
steps zero p = ret p
steps (suc n) p = arm_step little p >>= (λ done. steps n done.1)

abbrev observed : Run Core → ℕ → Run ℕ
observed m r = m >>= (λ p. ret (arm_read_register p r))

pub program-IsValid : (ws : List ℕ) (a : ℕ) → Spec.IsValid (program ws a)
unfolding memory_create
program-IsValid [] a = record {
  whole_words = refl;
  small = omega arith;
  flag = omega arith;
  byte = λ _. omega arith;
}
program-IsValid (w ∷ ws) a = put_word-IsValid (program-IsValid ws (a + 4)) a w

-- mov r0, #5; mov r1, r0, lsl #2; cmp r1, #20; addeq r2, r1, r0
abbrev listing : List ℕ
listing = 0xe3a0_0005 ∷ 0xe1a0_1100 ∷ 0xe351_0014 ∷ 0x0081_2000 ∷ []

abbrev pub moves : Memory
moves = program listing 0

pub moves-IsValid : Spec.IsValid moves
moves-IsValid = program-IsValid listing 0

abbrev pub moves_core : Core
moves_core = arm_create 0 moves

pub moves_core-IsValid : IsValid moves_core
moves_core-IsValid = (arm_create_lem 0 moves moves-IsValid).0

pub moves_core-aligned : moves_core.reg.slots 15 % 4 ≡ 0
unfolding arm_create prog.Core.arm_write_usr_register prog.Core.arm_write_cpsr
moves_core-aligned = refl

moves_test : observed (steps 4 moves_core) 2 ≡ ret 25
unfolding prog.Branch.branch_offset prog.Branch.arm_branch prog.Branch.arm_coprocessor_others_swi
    prog.Branch.arm_miscellaneous prog.Core.arm_current_mode_has_spsr
    prog.Core.arm_in_a_privileged_mode prog.Core.arm_read_register prog.Core.arm_read_usr_register
    prog.Core.arm_read_cpsr prog.Core.arm_read_spsr prog.Core.arm_write_register
    prog.Core.arm_write_usr_register prog.Core.arm_write_cpsr prog.Core.arm_write_spsr
    prog.Core.arm_read_byte prog.Core.arm_write_byte prog.Core.arm_fetch prog.Core.arm_read_half
    prog.Core.arm_read_word prog.Core.arm_write_half prog.Core.arm_write_word
    prog.DataProcessing.dispatch prog.DataProcessing.run_operands
    prog.DataProcessing.arm_data_processing_shift prog.DataProcessing.Msr.byte_mask
    prog.DataProcessing.Msr.msr_cpsr prog.DataProcessing.Msr.msr_spsr prog.DataProcessing.Msr.is_msr
    prog.DataProcessing.Msr.arm_data_processing_immediate_msr
    prog.DataProcessing.Operand.apply_rotation_imm prog.DataProcessing.Operand.shifted
    prog.DataProcessing.Operand.shifter_operand prog.DataProcessing.Operand.decode_operand
    prog.DataProcessing.Operations.raise prog.DataProcessing.Operations.lower
    prog.DataProcessing.Operations.update_zn prog.DataProcessing.Operations.arm_teq
    prog.DataProcessing.Operations.arm_tst prog.DataProcessing.Operations.update_v
    prog.DataProcessing.Operations.update_c prog.DataProcessing.Operations.arm_cmp
    prog.DataProcessing.Operations.arm_cmn prog.DataProcessing.Operations.arm_and
    prog.DataProcessing.Operations.arm_eor prog.DataProcessing.Operations.arm_sub
    prog.DataProcessing.Operations.arm_orr prog.DataProcessing.Operations.arm_add
    prog.DataProcessing.Operations.arm_bic prog.DataProcessing.Operations.arm_mov
    prog.DataProcessing.Operations.arm_mvn prog.DataProcessing.Operations.arm_sbc
    prog.DataProcessing.Operations.arm_adc prog.DataProcessing.Operations.arm_rsb
    prog.DataProcessing.Operations.update_v_rsc prog.DataProcessing.Operations.arm_rsc
    prog.Exception.arm_exception prog.Exception.arm_create prog.Instruction.decode
    prog.Instruction.arm_execute_instruction prog.Instruction.arm_step
    prog.LoadStore.arm_coprocessor_load_store prog.LoadStore.Half.half_offset
    prog.LoadStore.Half.half_address prog.LoadStore.Half.half_post_index
    prog.LoadStore.Half.half_pre_index prog.LoadStore.Half.half_transfer
    prog.LoadStore.Half.arm_load_store_half prog.LoadStore.Multiple.count_registers
    prog.LoadStore.Multiple.start_address prog.LoadStore.Multiple.end_address
    prog.LoadStore.Multiple.block_write_back prog.LoadStore.Multiple.load_round
    prog.LoadStore.Multiple.load_loop prog.LoadStore.Multiple.store_round
    prog.LoadStore.Multiple.store_loop prog.LoadStore.Multiple.load_pc
    prog.LoadStore.Multiple.block_transfer prog.LoadStore.Multiple.arm_load_store_multiple
    prog.LoadStore.Single.ror_case prog.LoadStore.Single.asr_case prog.LoadStore.Single.lsr_case
    prog.LoadStore.Single.scaled_index prog.LoadStore.Single.load_store_index
    prog.LoadStore.Single.load_store_address prog.LoadStore.Single.post_index
    prog.LoadStore.Single.pre_index prog.LoadStore.Single.set_thumb prog.LoadStore.Single.load_into
    prog.LoadStore.Single.load_value prog.LoadStore.Single.store_value
    prog.LoadStore.Single.transfer prog.LoadStore.Single.arm_load_store prog.Memory.is_big_endian
    prog.Memory.memory_create prog.Memory.load_byte prog.Memory.store_byte
    prog.Memory.memory_read_byte prog.Memory.memory_read_half prog.Memory.memory_read_word
    prog.Memory.store_bytes prog.Memory.memory_write_half prog.Memory.memory_write_word
    prog.Memory.memory_write_byte prog.Memory.Spec.half_at prog.Memory.Spec.word_at
    prog.Memory.Spec.put_byte prog.Memory.Spec.put_half prog.Memory.Spec.put_word
    prog.Registers.registers_create prog.Registers.current_mode_has_spsr
    prog.Registers.in_a_privileged_mode prog.Registers.read_register
    prog.Registers.read_usr_register prog.Registers.read_cpsr prog.Registers.read_spsr
    prog.Registers.write_register prog.Registers.write_usr_register prog.Registers.write_cpsr
    prog.Registers.write_spsr prog.Util.get_bit prog.Util.set_bit prog.Util.clr_bit
    prog.Util.get_bits prog.Util.reverse_2 prog.Util.reverse_4 prog.Util.shift_left
    prog.Util.shift_right prog.Util.asr prog.Util.ror prog.Util.cond_of prog.Util.arm_get_cond
    prog.Util.condition_holds prog.Util.condition_passed
moves_test = refl
