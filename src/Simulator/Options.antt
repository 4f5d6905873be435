-- ===== src/Simulator/Options.antt =====
-- What the options leave set.
use prog.Prelude.{
  whatever, ℕ, ◌≡◌, refl, ◌∙◌, ap, arith, max, Bool, true, false, Option, none, some, List, [], ◌∷◌,
  bit_or, ◌==◌, if◌then◌else◌, Run, ret, Ensures, value, ended, Ensures-bind, Ensures-mono,
}
use prog.Word.{bit}
use prog.Word.Bits.{bit-bit_or, bit-zero_left}
use prog.Debug.{add_debug_to}
use prog.Gdb.Text.{atoi, text_at}
use prog.Trace.{trace_add, set_trace_file}
use prog.Simulator.{Settings, opened, set_option, set_options, initial, start, main}

-- The trace flag that an option asks for.
unfoldable pub flag_of : ℕ → ℕ
flag_of opt =
    if opt == b'r'
    then 2
    else if opt == b'm'
    then 1
    else if opt == b's'
    then 4
    else if opt == b'p'
    then 8
    else 0

unfoldable pub all_flags : List (ℕ × List ℕ) → ℕ
all_flags [] = 0
all_flags ((opt, _) ∷ rest) = bit_or (flag_of opt) (all_flags rest)

-- The same, in the order of the `switch`.
in_order : ℕ → ℕ
in_order opt =
    if opt == b'g'
    then 0
    else if opt == b'i'
    then 0
    else if opt == b'h'
    then 0
    else if opt == b't'
    then 0
    else if opt == b'r'
    then 2
    else if opt == b'm'
    then 1
    else if opt == b's'
    then 4
    else if opt == b'p'
    then 8
    else if opt == b'd'
    then 0
    else 0

flag_of-in_order : (opt : ℕ) → in_order opt ≡ flag_of opt
unfolding in_order flag_of
flag_of-in_order opt = ground arith

-- The flags of one state are those of another and some more.
Adds : ℕ → {File : Type 0} → Settings File → Settings File → Type 0
Adds v s s' = (i : ℕ) → bit s'.trace.flags i ≡ max (bit s.trace.flags i) (bit v i)

module _ {File : Type 0} (fopen : List ℕ → Option File) where
  Adds-none : (s s' : Settings File) → s'.trace.flags ≡ s.trace.flags → Adds 0 s s'
  unfolding Adds
  Adds-none s s' e i = omega (arith, ap (λ f. bit f i) e, bit-zero_left i)

  module _ (optarg : List ℕ) (s : Settings File) where
    both :
        (b : Bool) (v w : ℕ) {m n : Run (Settings File)}
        → Ensures (Adds v s) m
        → Ensures (Adds w s) n
        → Ensures (Adds (if b then v else w) s) (if b then m else n)
    both true v w p q = p
    both false v w p q = q

    adding : (v : ℕ) → Ensures (Adds v s) (ret (record s { trace = trace_add v s.trace }))
    unfolding Adds trace_add
    adding v = value (λ i. bit-bit_or s.trace.flags v i)

    set_option-Adds : (opt : ℕ) → Ensures (Adds (in_order opt) s) (set_option fopen opt optarg s)
    unfolding set_option in_order opened
    set_option-Adds opt =
        both (opt == b'g') _ _
          (Ensures-bind (whatever (atoi optarg)) λ v _. value (Adds-none s _ refl))
          (both (opt == b'i') _ _
            (Ensures-bind (whatever (atoi optarg)) λ v _. value (Adds-none s _ refl))
            (both (opt == b'h') _ _ ended (
              both (opt == b't') _ _ (file (fopen (text_at optarg))) (
                both (opt == b'r') _ _ (adding 2) (
                  both (opt == b'm') _ _ (adding 1) (
                    both (opt == b's') _ _ (adding 4) (
                      both (opt == b'p') _ _ (adding 8) (
                        both (opt == b'd') _ _
                          (Ensures-bind (whatever (add_debug_to s.debugged (text_at optarg)))
                            λ v _. value (Adds-none s _ refl))
                          ended))))))))
      where
        file : (o : Option File) → Ensures (Adds 0 s) (opened fopen s o)
        file none = ended
        file (some f) = value (Adds-none s _ refl)

  set_options-Adds :
      (options : List (ℕ × List ℕ)) (s : Settings File)
      → Ensures (Adds (all_flags options) s) (set_options fopen options s)
  unfolding set_options all_flags Adds
  set_options-Adds [] s = value (Adds-none s s refl)
  set_options-Adds ((opt, optarg) ∷ rest) s =
      Ensures-bind (set_option-Adds optarg s opt) λ s' first.
        Ensures-mono (set_options-Adds rest s') λ s'' more i.
          more i
          ∙ omega (
            arith,
            first i,
            ap (λ v. bit v i) (flag_of-in_order opt),
            bit-bit_or (flag_of opt) (all_flags rest) i,
          )

  -- If the options do not end the program, the trace's flags are those that the options ask for, and its
  -- output is the settings' trace file.
  pub main_lem :
      (target : ℕ) (heap : ℕ → ℕ) (garbage : ℕ) (null stdout : File) (options : List (ℕ × List ℕ))
      → Ensures
          (λ (s, arm).
            ((i : ℕ) → bit s.trace.flags i ≡ bit (all_flags options) i)
            × (s.trace.output ≡ s.trace_file))
          (main fopen target heap garbage null stdout options)
  unfolding main initial start Adds set_trace_file
  main_lem target heap garbage null stdout options =
      Ensures-bind (set_options-Adds options _)
        λ s adds. value ((λ i. omega (arith, adds i, bit-zero_left i)), refl)
