-- ===== src/Gdb/Stepping/Breakpoint.antt =====
-- `cont` from a processor to the first breakpoint that its steps reach.
use mathlib.Core.Path.{subst}
use prog.Prelude.{
  ℕ, zero, suc, ◌+◌, ◌*◌, ◌/◌, ◌%◌, ◌^◌, ◌<◌, ◌≤◌, ◌≡◌, ◌∙◌, arith, Bool, true, false, inl, inr,
  ◌&&◌, ◌⊎◌, ltb, ◌==◌, bit_and, if◌then◌else◌, List, ret, some, ◌>>=◌, codes, Ensures, value,
}
use prog.Word.{shr, sub32}
use prog.Word.Bits.{bit_and_assoc}
use prog.Word.Fields.{bit_and-mask, bit_and-zero, shr-bit_and}
use prog.Memory.{Host}
use prog.Memory.Spec.{word_at}
use prog.Memory.Access.{memory_read_word_lem}
use prog.Memory.Store.{word_at-lt}
use prog.Core.{Core, arm_read_register}
use prog.Core.Valid.{IsValid}
use prog.Core.Fetch.{arm_read_register_pc}
use prog.Instruction.{arm_step}
use prog.Instruction.Step.{arm_step-IsValid}
use prog.Gdb.{Gdb, gdb_send_data, gdb_send_stop_reason}
use prog.Gdb.Stepping.{next_instruction, is_breakpoint, cont}
use prog.Gdb.Stepping.Stop.{Stops, at_breakpoint, executes, cont_lem}

-- The instruction that GDB puts at a breakpoint, by the manual's fields: the bits 31 to 20 of the undefined
-- instructions with the condition AL, and bits 7 to 4.
unfoldable pub is_undefined : ℕ → Bool
is_undefined w = (w / 2 ^ 20 == 0xe7f) && (w / 2 ^ 4 % 16 == 15)

masked : (w : ℕ) → w < 2 ^ 32 → bit_and w 0xfff0_00f0 ≡ w / 2 ^ 20 * 2 ^ 20 + w / 2 ^ 4 % 16 * 16
masked w h =
    let low = bit_and w 0xf0 in
    omega (
      arith,
      shr-bit_and 20 w 0xfff0_00f0,
      bit_and-mask 12 (shr w 20),
      bit_and-mask 20 (bit_and w 0xfff0_00f0),
      bit_and_assoc w 0xfff0_00f0 0xf_ffff h (omega arith) (omega arith),
      shr-bit_and 4 w 0xf0,
      bit_and-mask 4 (shr w 4),
      bit_and-mask 4 low,
      bit_and_assoc w 0xf0 15 h (omega arith) (omega arith),
      bit_and-zero w,
    )

-- The pc points to such an instruction in the memory.
unfoldable pub at_undefined : Core → Bool
at_undefined p = let pc = p.reg.slots 15 in ltb pc p.mem.size && is_undefined (word_at p.mem pc)

is_breakpoint_lem : (host : Host) (w : ℕ) → w < 2 ^ 32 → is_breakpoint host w ≡ is_undefined w
unfolding is_breakpoint is_undefined
is_breakpoint_lem host w h = ground (arith, masked w h)

module _ (host : Host) {p : Core} (valid : IsValid p) (aligned : p.reg.slots 15 % 4 ≡ 0) where
  next_instruction_lem :
      (i : ℕ)
      → next_instruction host p i
        ≡ ret (if ltb (p.reg.slots 15) p.mem.size then word_at p.mem (p.reg.slots 15) else i)
  unfolding next_instruction prog.Core.arm_read_word
  next_instruction_lem i =
      let address : sub32 (arm_read_register p 15) 4 ≡ p.reg.slots 15 =
        omega (arith, arm_read_register_pc valid aligned, valid.word 15) in
      rw (address, memory_read_word_lem valid.memory host (p.reg.slots 15))
        (ground (arith, aligned))

  -- What the loop tests, where the instruction read before was no breakpoint.
  tested :
      (i : ℕ)
      → (ltb (p.reg.slots 15) p.mem.size ≡ true) ⊎ (is_breakpoint host i ≡ false)
      → is_breakpoint host
          (if ltb (p.reg.slots 15) p.mem.size then word_at p.mem (p.reg.slots 15) else i)
        ≡ at_undefined p
  unfolding at_undefined
  tested i fresh = ground (
    arith,
    is_breakpoint_lem host (word_at p.mem (p.reg.slots 15))
        (word_at-lt valid.memory (p.reg.slots 15)),
    fresh,
  )

valued : {A : Type 0} {P : A → Type 0} {a : A} → Ensures P (ret a) → P a
valued (value h) = h

-- The processors that `arm_step` reaches one after the other, with its results.
abbrev pub AreSteps : Host → (n : ℕ) → (ℕ → Core) → (ℕ → ℕ) → Type 0
AreSteps host n states results =
    (k : ℕ) → k < n → arm_step host (states k) ≡ ret (results (suc k), states (suc k))

module _ (host : Host) where
  reached :
      (n : ℕ) (states : ℕ → Core) (results : ℕ → ℕ)
      → AreSteps host n states results
      → IsValid (states 0)
      → results 0 < 2
      → (k : ℕ) → k ≤ n
      → (results k < 2) × IsValid (states k)
  reached n states results steps valid small zero le = (small, valid)
  reached n states results steps valid small (suc k) le = valued (
      subst (Ensures (λ (r, p). (r < 2) × IsValid p)) (steps k (omega arith))
        (arm_step-IsValid host (reached n states results steps valid small k (omega arith)).1))

  stops :
      (n : ℕ) (states : ℕ → Core) (results : ℕ → ℕ) (i : ℕ) (g : Gdb)
      → ((k : ℕ) → k ≤ n → IsValid (states k))
      → ((k : ℕ) → k ≤ n → (states k).reg.slots 15 % 4 ≡ 0)
      → AreSteps host n states results
      → ((k : ℕ) → k < n → at_undefined (states k) ≡ false)
      → at_undefined (states n) ≡ true
      → (ltb ((states 0).reg.slots 15) (states 0).mem.size ≡ true) ⊎ (is_breakpoint host i ≡ false)
      → Stops host
          (suc n)
          i
          (record g { arm = states 0; target_exception = results 0 })
          (record g { arm = states n; target_exception = results n })
  stops zero states results i g valid aligned steps before here fresh =
      at_breakpoint (next_instruction_lem host (valid 0 (omega arith)) (aligned 0 (omega arith)) i)
        (tested host (valid 0 (omega arith)) (aligned 0 (omega arith)) i fresh ∙ here)
  stops (suc n) states results i g valid aligned steps before here fresh =
      let past =
        tested host (valid 0 (omega arith)) (aligned 0 (omega arith)) i fresh
        ∙ before 0 (omega arith) in
      executes (next_instruction_lem host (valid 0 (omega arith)) (aligned 0 (omega arith)) i) past
        (steps 0 (omega arith))
        (stops n (λ k. states (suc k)) (λ k. results (suc k)) _ g
          (λ k h. valid (suc k) (omega arith)) (λ k h. aligned (suc k) (omega arith))
          (λ k h. steps (suc k) (omega arith)) (λ k h. before (suc k) (omega arith)) here
          (inr past))

  -- Processors that steps reach one after the other, the first one valid and with its pc inside the memory,
  -- all with an aligned pc, of which the n-th is the first whose pc points to a breakpoint; the exception
  -- that is noted at first is 0 or 1, as a step returns it. With more than n rounds `cont` ends at the
  -- n-th, having executed the n steps and no more, and answers S05, whatever `instruction` held at first.
  pub cont-at_undefined :
      (states : ℕ → Core) (results : ℕ → ℕ) (n rounds garbage : ℕ) (g : Gdb) (s : List ℕ)
      → IsValid (states 0)
      → results 0 < 2
      → (states 0).reg.slots 15 < (states 0).mem.size
      → ((k : ℕ) → k ≤ n → (states k).reg.slots 15 % 4 ≡ 0)
      → AreSteps host n states results
      → ((k : ℕ) → k < n → at_undefined (states k) ≡ false)
      → at_undefined (states n) ≡ true
      → n < rounds
      → cont host rounds garbage (record g { arm = states 0; target_exception = results 0 }) s ≡ (
          gdb_send_data (codes "S05") (record g { arm = states n; target_exception = results n })
          >>= (λ answered. ret (some answered)))
  unfolding gdb_send_stop_reason
  cont-at_undefined states results n rounds garbage g s valid small inside aligned steps before here
        le =
      let fresh : ltb ((states 0).reg.slots 15) (states 0).mem.size ≡ true = ground arith in
      let r = (reached n states results steps valid small n (omega arith)).0 in
      cont_lem host s rounds
        (stops n states results garbage g
          (λ k h. (reached n states results steps valid small k h).1) aligned steps before here
          (inl fresh))
        (omega arith)
      ∙ ground (arith, r)
