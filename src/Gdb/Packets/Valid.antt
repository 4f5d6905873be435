-- ===== src/Gdb/Packets/Valid.antt =====
-- The processor's invariant through a packet.
use prog.Prelude.{
  ℕ, zero, suc, Bool, true, false, List, [], ◌∷◌, Option, none, some, Run, ret, ◌>>=◌, codes,
  choice, after, Ensures, value, no_value, Ensures-bind,
}
use prog.Memory.{Host}
use prog.Core.{Core}
use prog.Core.Valid.{IsValid}
use prog.Instruction.{arm_step}
use prog.Instruction.Step.{arm_step-IsValid}
use prog.Gdb.{Gdb, gdb_send_data, gdb_send_ack, gdb_require_retransmission, happens, locked}
use prog.Gdb.Text.{text_at, text_eq, starts_with, scan_x, atoi}
use prog.Gdb.Answers.{kill_request, query, reason, set_thread}
use prog.Gdb.Stepping.{step, cont_loop, next_instruction, is_breakpoint, stopped, cont}
use prog.Gdb.Packets.{
  Handler, continues, kills, queries, reads_general, reads_memory, reads_register, reasons,
  sets_thread, steps, writes_general, writes_memory, writes_register, gdb_init, Locals, handle,
  command, gdb_packet_analysis, unlock, ended as done,
}
use prog.Gdb.Kept.{Kept, KeptIf, gdb_send_data-Kept, gdb_send_stop_reason-Kept}
use prog.Gdb.Registers.Kept.{
  write_general_registers-Kept, write_register-Kept, read_general_registers-Kept,
  read_register-Kept,
}
use prog.Gdb.Block.Kept.{read_memory-Kept, write_memory_binary-Kept}

query-Kept : (g : Gdb) (s : List ℕ) → IsValid g.arm → Ensures Kept (query g s)
unfolding query
query-Kept g s valid =
    choice (Ensures Kept) (text_eq (text_at s) (codes "Offsets")) (gdb_send_data-Kept _ g valid) (
      choice (Ensures Kept) (starts_with (text_at s) (codes "Supported"))
        (gdb_send_data-Kept _ g valid)
        (choice (Ensures Kept) (text_eq (text_at s) (codes "TStatus"))
          (gdb_send_data-Kept _ g valid)
          (choice (Ensures Kept) (text_eq (text_at s) (codes "Symbol::"))
            (gdb_send_data-Kept _ g valid) (gdb_send_data-Kept _ g valid))))

set_thread-Kept : (g : Gdb) (s : List ℕ) → IsValid g.arm → Ensures Kept (set_thread g s)
unfolding set_thread
set_thread-Kept g [] valid = no_value
set_thread-Kept g (kind ∷ s) valid =
    after (atoi s)
      λ v. choice (Ensures Kept) _ (gdb_send_data-Kept _ g valid) (gdb_send_data-Kept _ g valid)

module _ (host : Host) where
  step-Kept : (g : Gdb) (s : List ℕ) → IsValid g.arm → Ensures Kept (step host g s)
  unfolding step
  step-Kept g s valid =
      Ensures-bind (arm_step-IsValid host valid) λ done h. gdb_send_stop_reason-Kept _ h.1

  -- One round, once the next instruction is read.
  round-KeptIf :
      (g : Gdb) (b : Bool) (next : Core → ℕ → Run (Option Gdb))
      → IsValid g.arm
      → ((p : Core) (e : ℕ) → IsValid p → Ensures KeptIf (next p e))
      → Ensures KeptIf (elim b [
        | true ↦ ret (some g)
        | false ↦ arm_step host g.arm >>= (λ done. next done.1 done.0)
      ])
  round-KeptIf g true next valid h = value valid
  round-KeptIf g false next valid h =
      Ensures-bind (arm_step-IsValid host valid) λ done k. h done.1 done.0 k.1

  cont_loop-KeptIf :
      (rounds instruction : ℕ) (g : Gdb)
      → IsValid g.arm
      → Ensures KeptIf (cont_loop host rounds instruction g)
  unfolding cont_loop
  cont_loop-KeptIf zero instruction g valid = value tt
  cont_loop-KeptIf (suc rounds) instruction g valid =
      after (next_instruction host g.arm instruction) λ next.
        round-KeptIf g (is_breakpoint host next)
          (λ p e. cont_loop host rounds next (record g { arm = p; target_exception = e })) valid
          λ p e h. cont_loop-KeptIf rounds next _ h

  cont-KeptIf :
      (rounds garbage : ℕ) (g : Gdb) (s : List ℕ)
      → IsValid g.arm
      → Ensures KeptIf (cont host rounds garbage g s)
  unfolding cont
  cont-KeptIf rounds garbage g s valid =
      Ensures-bind (cont_loop-KeptIf rounds garbage g valid) stops
    where
      stops : (o : Option Gdb) → KeptIf o → Ensures KeptIf (stopped host o)
      stops none h = value tt
      stops (some g') h = Ensures-bind (gdb_send_stop_reason-Kept g' h) (λ g'' k. value k)

finished : {m : Run Gdb} → Ensures Kept m → Ensures KeptIf (done m)
finished h = Ensures-bind h (λ g k. value k)

module _ (host : Host) (target rounds : ℕ) (l : Locals) where
  handle-KeptIf :
      (h : Handler) (g : Gdb) (s : List ℕ)
      → IsValid g.arm
      → Ensures KeptIf (handle host target rounds l h g s)
  unfolding handle kill_request reason
  handle-KeptIf continues g s valid = cont-KeptIf host rounds l.instruction g s valid
  handle-KeptIf kills g s valid = value valid
  handle-KeptIf queries g s valid = finished (query-Kept g s valid)
  handle-KeptIf reads_general g s valid =
      finished (read_general_registers-Kept host target g s valid)
  handle-KeptIf reads_memory g s valid = finished (read_memory-Kept _ _ g s valid)
  handle-KeptIf reads_register g s valid = finished (read_register-Kept host target g s valid)
  handle-KeptIf reasons g s valid = finished (gdb_send_stop_reason-Kept g valid)
  handle-KeptIf sets_thread g s valid = finished (set_thread-Kept g s valid)
  handle-KeptIf steps g s valid = finished (step-Kept host g s valid)
  handle-KeptIf writes_general g s valid =
      finished (write_general_registers-Kept host target _ g s valid)
  handle-KeptIf writes_memory g s valid = finished (write_memory_binary-Kept _ _ g s valid)
  handle-KeptIf writes_register g s valid = finished (write_register-Kept host target _ _ g s valid)

  command-KeptIf :
      (g : Gdb) (s : List ℕ) → IsValid g.arm → Ensures KeptIf (command host target rounds l g s)
  unfolding command
  command-KeptIf g [] valid = no_value
  command-KeptIf g (index ∷ s) valid = chosen (gdb_init index)
    where
      unlocked : (o : Option Gdb) → KeptIf o → KeptIf (unlock host target rounds l o)
      unlocked none h = tt
      unlocked (some g') h = h

      chosen :
          (o : Option Handler)
          → Ensures KeptIf (elim o [
            | none ↦ done (gdb_send_data (codes "") g)
            | some h ↦
                handle host target rounds l h (happens locked g) s
                >>= (λ o'. ret (unlock host target rounds l o'))
          ])
      chosen none = finished (gdb_send_data-Kept _ g valid)
      chosen (some h) =
          Ensures-bind (handle-KeptIf h (happens locked g) s valid) λ o' k. value (unlocked o' k)

  -- Whatever bytes a packet has, and whatever the handlers' variables hold at first: analysing it from a
  -- valid core, so far as it gives a value, leaves the core valid.
  pub gdb_packet_analysis-KeptIf :
      (g : Gdb) (packet : List ℕ)
      → IsValid g.arm
      → Ensures KeptIf (gdb_packet_analysis host target rounds l g packet)
  unfolding gdb_packet_analysis gdb_send_ack gdb_require_retransmission
  gdb_packet_analysis-KeptIf g packet valid =
      after (scan_x _)
        λ o. choice (Ensures KeptIf) _ (command-KeptIf (gdb_send_ack g) _ valid) (value valid)
