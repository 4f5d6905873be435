-- ===== src/Gdb/Registers/Restore.antt =====
-- `write_general_registers` on what `read_general_registers` sends.
use prog.Prelude.{
  ℕ, zero, suc, ◌+◌, ◌%◌, ◌^◌, ◌<◌, ◌≤◌, ◌≡◌, refl, ◌∙◌, ap, arith, List, ◌++◌, ltb, leb, ◌==◌,
  if◌then◌else◌, ret, length, append_assoc, drop, drop-append, codes,
}
use native.Mathlib.Decide.{ℕ_discrete}
use prog.Memory.{Host}
use prog.Core.{Core, arm_read_cpsr, arm_read_register, arm_write_register, arm_write_cpsr}
use prog.Core.Valid.{IsValid, arm_read_register-lt, arm_read_cpsr-lt}
use prog.Core.Fetch.{arm_read_register_pc}
use prog.Gdb.{Gdb, gdb_send_data}
use prog.Gdb.Text.{
  sscanf_2x, text_at, skip_space, is_space, signed_hex, unsigned_hex, has_prefix, some_digits,
  digit_of,
}
use prog.Gdb.Words.{read_bytes, read_uint32, write_uint32}
use prog.Gdb.Words.RoundTrip.{read_uint32-write_uint32}
use prog.Gdb.Registers.{shown_register, write_registers, skip_words, write_general_registers}
use prog.Gdb.Registers.Reply.{
  length-write_uint32, registers_text, unknown_text, all_registers, length-registers_text,
}

shown_register-lt : {p : Core} → IsValid p → (i : ℕ) → shown_register p i < 2 ^ 32
shown_register-lt valid i = ground (arith, arm_read_register-lt valid i)

drop-write_uint32 :
    (host : Host) (target v : ℕ) (s : List ℕ) → drop 8 (write_uint32 host target v ++ s) ≡ s
drop-write_uint32 host target v s =
    rw (← length-write_uint32 host target v) (drop-append (write_uint32 host target v) s)

slots_write :
    (q : Core) (i v j : ℕ)
    → i < 16
    → (arm_write_register q i v).reg.slots j ≡ (if j == i then v else q.reg.slots j)
unfolding arm_write_register
slots_write q i v j h = ground arith

-- All of a core but what its register array holds.
abbrev pub SameButSlots : Core → Core → Type 0
SameButSlots p q = (q.reg.mode ≡ p.reg.mode) × (q.mem ≡ p.mem) × (q.cycle_count ≡ p.cycle_count)

write_register_frame : (q : Core) (i v : ℕ) → SameButSlots q (arm_write_register q i v)
unfolding arm_write_register
write_register_frame q i v = ground arith

shown_pc : {p : Core} → IsValid p → p.reg.slots 15 % 4 ≡ 0 → shown_register p 15 ≡ p.reg.slots 15
shown_pc {p} valid aligned = omega (arith, arm_read_register_pc valid aligned, valid.word 15)

shown_general : (p : Core) (i : ℕ) → i < 15 → shown_register p i ≡ p.reg.slots i
unfolding arm_read_register
shown_general p i h = ground arith

-- What GDB is shown is what the register holds, where the pc is aligned.
pub shown_register-eq :
    {p : Core} (i : ℕ)
    → IsValid p
    → p.reg.slots 15 % 4 ≡ 0
    → i < 16
    → shown_register p i ≡ p.reg.slots i
shown_register-eq {p} i valid aligned h = elim (ℕ_discrete i 15) [
  | yes e ↦ rw e (shown_pc valid aligned)
  | no other ↦ shown_general p i (omega (arith, other))
]

slots_write_cpsr :
    (q : Core) (v j : ℕ) → (arm_write_cpsr q v).reg.slots j ≡ (if j == 16 then v else q.reg.slots j)
unfolding arm_write_cpsr
slots_write_cpsr q v j = refl

write_cpsr_frame : (q : Core) (v : ℕ) → SameButSlots q (arm_write_cpsr q v)
unfolding arm_write_cpsr
write_cpsr_frame q v = (refl, refl, refl)

module _ (host : Host) (target : ℕ) (garbage : ℕ → ℕ) where
  unknown_word :
      (left i : ℕ) (s : List ℕ)
      → skip_words host target garbage (suc left) i (codes "xxxxxxxx" ++ s)
        ≡ skip_words host target garbage left (i + 1) s
  unfolding skip_words read_uint32 read_bytes sscanf_2x text_at skip_space is_space signed_hex
      unsigned_hex has_prefix some_digits digit_of
  unknown_word left i s = refl

  skip_words_lem :
      (left i : ℕ) (s : List ℕ)
      → skip_words host target garbage left i (unknown_text left ++ s) ≡ ret s
  unfolding skip_words unknown_text
  skip_words_lem zero i s = refl
  skip_words_lem (suc left) i s =
      ap (skip_words host target garbage (suc left) i)
        (append_assoc (codes "xxxxxxxx") (unknown_text left) s)
      ∙ unknown_word left i (unknown_text left ++ s)
      ∙ skip_words_lem left (i + 1) s

  -- The writes of the loop, in its order.
  stored : Core → (left i : ℕ) → Core → Core
  stored p zero i q = q
  stored p (suc left) i q = stored p left (i + 1) (arm_write_register q i (shown_register p i))

  write_registers_lem :
      {p : Core} (left i : ℕ) (s : List ℕ) (q : Core)
      → IsValid p
      → write_registers host target garbage left i (registers_text host target p left i ++ s) q
        ≡ ret (stored p left i q)
  unfolding write_registers registers_text stored
  write_registers_lem zero i s q valid = refl
  write_registers_lem {p} (suc left) i s q valid =
      let word = write_uint32 host target (shown_register p i) in
      let after = registers_text host target p left (i + 1) in
      rw
        (
          append_assoc word after s,
          read_uint32-write_uint32 host target (garbage i) (shown_register p i) (after ++ s)
              (shown_register-lt valid i),
          drop-write_uint32 host target (shown_register p i) (after ++ s),
        )
        (write_registers_lem left (i + 1) s (arm_write_register q i (shown_register p i)) valid)

  -- What the loop leaves.
  stored_slots :
      (p : Core) (left i j : ℕ) (q : Core)
      → i + left ≤ 16
      → (stored p left i q).reg.slots j ≡ (
          if leb i j
          then if ltb j (i + left) then shown_register p j else q.reg.slots j
          else q.reg.slots j)
  unfolding stored
  stored_slots p zero i j q h = ground arith
  stored_slots p (suc left) i j q h = ground (
    arith,
    stored_slots p left (i + 1) j (arm_write_register q i (shown_register p i)),
    slots_write q i (shown_register p i) j,
  )

  stored_frame : (p : Core) (left i : ℕ) (q : Core) → SameButSlots q (stored p left i q)
  unfolding stored
  stored_frame p zero i q = (refl, refl, refl)
  stored_frame p (suc left) i q =
      let first = write_register_frame q i (shown_register p i) in
      let rest = stored_frame p left (i + 1) (arm_write_register q i (shown_register p i)) in
      (rest.0 ∙ first.0, rest.1 ∙ first.1, rest.2 ∙ first.2)

  -- The core after all the writes.
  restored : Core → Core → Core
  restored p q = arm_write_cpsr (stored p 16 0 q) (arm_read_cpsr p)

  restored_slots :
      {p : Core} (q : Core)
      → IsValid p
      → p.reg.slots 15 % 4 ≡ 0
      → (j : ℕ) → (restored p q).reg.slots j ≡ (if leb j 16 then p.reg.slots j else q.reg.slots j)
  unfolding restored arm_read_cpsr
  restored_slots {p} q valid aligned j =
      slots_write_cpsr (stored p 16 0 q) (p.reg.slots 16) j
      ∙ ground (arith, stored_slots p 16 0 j q, shown_register-eq j valid aligned)

  restored_frame : (p q : Core) → SameButSlots q (restored p q)
  unfolding restored
  restored_frame p q =
      let last = write_cpsr_frame (stored p 16 0 q) (arm_read_cpsr p) in
      let loop = stored_frame p 16 0 q in (last.0 ∙ loop.0, last.1 ∙ loop.1, last.2 ∙ loop.2)

  restored_run :
      {p : Core} (g : Gdb) (s : List ℕ)
      → IsValid p
      → write_general_registers host target garbage g (all_registers host target p ++ s)
        ≡ gdb_send_data (codes "OK") (record g { arm = restored p g.arm })
  unfolding write_general_registers all_registers restored
  restored_run {p} g s valid =
      let general = registers_text host target p 16 0 in
      let cpsr = write_uint32 host target (arm_read_cpsr p) in
      let after = cpsr ++ s in
      let long : length general ≡ 128 = length-registers_text host target p 16 0 in
      rw
        (
          append_assoc general (unknown_text 25 ++ cpsr) s,
          append_assoc (unknown_text 25) cpsr s,
          write_registers_lem 16 0 (unknown_text 25 ++ after) g.arm valid,
          ← long,
          drop-append general (unknown_text 25 ++ after),
          skip_words_lem 25 16 after,
          read_uint32-write_uint32 host target (garbage 41) (arm_read_cpsr p) s
              (arm_read_cpsr-lt valid),
        )
        refl

  -- `G` with the text that `g` was answered with for a valid core with an aligned pc: whatever core it
  -- is applied to and whatever follows the text, r0 to r15 and the CPSR become those of the core that
  -- was read, and the SPSR, the mode, the memory and the cycle count stay. The answer is OK.
  pub write_general_registers-all_registers :
      {p : Core} (g : Gdb) (s : List ℕ)
      → IsValid p
      → p.reg.slots 15 % 4 ≡ 0
      → (q : Core) × (write_general_registers host target garbage g
            (all_registers host target p ++ s)
          ≡ gdb_send_data (codes "OK") (record g { arm = q }))
        × ((i : ℕ) → i ≤ 16 → q.reg.slots i ≡ p.reg.slots i)
        × (q.reg.slots 17 ≡ g.arm.reg.slots 17)
        × SameButSlots g.arm q
  write_general_registers-all_registers {p} g s valid aligned =
      let slots = restored_slots g.arm valid aligned in
      (
        restored p g.arm,
        restored_run g s valid,
        λ i h. slots i ∙ ground arith,
        slots 17,
        restored_frame p g.arm,
      )
