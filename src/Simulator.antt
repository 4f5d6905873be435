-- ===== src/Simulator.antt =====
-- arm_simulator.c: its options, the processor that it starts, and what its two threads do to the
-- processor that they share, a locked section at a time.
pub mod Options
pub mod Session
pub mod Threads
pub mod Interrupts
pub mod Listeners
pub mod Interleaving
use prog.Prelude.{
  ℕ, zero, suc, ◌+◌, ◌%◌, ◌^◌, Bool, true, false, Option, none, some, List, [], ◌∷◌, ◌==◌,
  if◌then◌else◌, Run, ret, undefined, exited, ◌>>=◌,
}
use prog.Memory.{Memory, memory_create}
use prog.Core.{Core}
use prog.Exception.{arm_exception, arm_create}
use prog.Debug.{Table, add_debug_to}
use prog.Gdb.{Gdb, happens, locked, unlocked}
use prog.Gdb.Text.{atoi, text_at}
use prog.Trace.{
  Trace, trace_add, set_trace_file, memory_flag, registers_flag, state_flag, position_flag,
}

-- What the options set; the ports are 16 bits wide.
pub record Settings (File : Type 0) : Type 0 where
  pub gdb_port : ℕ
  pub irq_port : ℕ
  pub trace_file : File
  pub trace : Trace File
  pub debugged : Table

-- `fopen` stands for `fopen(name, "w")`.
module _ {File : Type 0} (fopen : List ℕ → Option File) where
  unfoldable pub opened : Settings File → Option File → Run (Settings File)
  opened s none = exited 1
  opened s (some f) = ret (record s { trace_file = f })

  -- The `switch` on what `getopt_long` returns, with its `optarg`.
  unfoldable pub set_option : ℕ → List ℕ → Settings File → Run (Settings File)
  unfolding opened
  set_option opt optarg s =
      if opt == b'g'
      then atoi optarg >>= (λ v. ret (record s { gdb_port = v % 2 ^ 16 }))
      else if opt == b'i'
      then atoi optarg >>= (λ v. ret (record s { irq_port = v % 2 ^ 16 }))
      else if opt == b'h'
      then exited 0
      else if opt == b't'
      then opened s (fopen (text_at optarg))
      else if opt == b'r'
      then ret (record s { trace = trace_add registers_flag s.trace })
      else if opt == b'm'
      then ret (record s { trace = trace_add memory_flag s.trace })
      else if opt == b's'
      then ret (record s { trace = trace_add state_flag s.trace })
      else if opt == b'p'
      then ret (record s { trace = trace_add position_flag s.trace })
      else if opt == b'd'
      then add_debug_to s.debugged (text_at optarg)
        >>= (λ files. ret (record s { debugged = files }))
      else exited 1

  -- The loop, over what `getopt_long` gives until it returns -1.
  unfoldable pub set_options : List (ℕ × List ℕ) → Settings File → Run (Settings File)
  unfolding set_option
  set_options [] s = ret s
  set_options ((opt, optarg) ∷ rest) s = set_option opt optarg s >>= set_options rest

module _ {File : Type 0} where
  -- The variables before the loop; trace.c has no file until `set_trace_file`.
  unfoldable pub initial : (null stdout : File) → Settings File
  initial null stdout = record {
    gdb_port = 0;
    irq_port = 0;
    trace_file = stdout;
    trace = record {
      output = null;
      last_address = 0x1234_5678;
      enabled = true;
      locations = [];
      below = 0;
      flags = 0;
      printed = [];
    };
    debugged = [];
  }

  -- The processor and its memory: `target` is 1 with BIG_ENDIAN_SIMULATOR and else 0. `heap` is what the
  -- memory's block holds, and `garbage` what the processor's cycle count does.
  unfoldable pub start :
      (target : ℕ) (heap : ℕ → ℕ) (garbage : ℕ) → Settings File → Settings File × Core
  start target heap garbage s = (
    record s { trace = set_trace_file s.trace_file s.trace },
    arm_create garbage (memory_create heap 0x2_0000 target),
  )

  unfoldable pub main :
      (fopen : List ℕ → Option File) (target : ℕ) (heap : ℕ → ℕ) (garbage : ℕ) (null stdout : File)
      → List (ℕ × List ℕ)
      → Run (Settings File × Core)
  unfolding set_options initial start
  main fopen target heap garbage null stdout options =
      set_options fopen options (initial null stdout) >>= (λ s. ret (start target heap garbage s))

-- What `irq_listener` does with a byte that it has read, between its calls on the lock.
unfoldable pub irq_received : ℕ → Core → Core
irq_received irq arm = arm_exception arm irq
