-- ===== src/Tests/Programs.antt =====
-- The search, the interrupts' names, the trace, the options and the memory's test, at inputs.
use prog.Prelude.{ℕ, ◌≡◌, refl, arith, true, List, [], ◌∷◌, Option, some, ret, codes, Ensures}
use prog.Word.{bit}
use prog.Debug.{strcmp, Table}
use prog.Debug.Insert.{Sorted, one_left, next}
use prog.Debug.Search.{is_debugged}
use prog.Debug.Search.Found.{lists, is_debugged_lem}
use prog.Trace.{Trace}
use prog.Simulator.{Settings, main}
use prog.Simulator.Options.{all_flags, main_lem}

abbrev three_names : Table
three_names = codes "arm.c" ∷ codes "memory.c" ∷ codes "util.c" ∷ []

three_names-Sorted : Sorted three_names
unfolding strcmp
three_names-Sorted = next (ground arith) (next (ground arith) one_left)

is_debugged_lem_example :
    is_debugged three_names (codes "util.c") ≡ ret (lists three_names (codes "util.c"))
is_debugged_lem_example = is_debugged_lem three_names (codes "util.c") three_names-Sorted

search_test : is_debugged three_names (codes "util.c") ≡ ret true
unfolding is_debugged prog.Debug.Search.search prog.Debug.Search.entry prog.Debug.nb_debugged_files
    strcmp
search_test = refl

-- registers and positions are traced, from one location
abbrev tracing : Trace ℕ
tracing = record {
  output = 1;
  last_address = 0;
  enabled = true;
  locations = (codes "arm_core.c", 7) ∷ [];
  below = 0;
  flags = 10;
  printed = [];
}

abbrev pub settings : Settings ℕ
settings = record { gdb_port = 0; irq_port = 0; trace_file = 1; trace = tracing; debugged = [] }

abbrev options : List (ℕ × List ℕ)
options = (b'r', []) ∷ (b't', codes "x") ∷ []

-- the file 3, whatever its name
abbrev opens : List ℕ → Option ℕ
opens _ = some 3

main_lem_example :
    Ensures
      (λ (s, arm).
        ((i : ℕ) → bit s.trace.flags i ≡ bit (all_flags options) i)
        × (s.trace.output ≡ s.trace_file))
      (main opens 1 (λ _. 0) 0 0 1 options)
main_lem_example = main_lem opens 1 (λ _. 0) 0 0 1 options
