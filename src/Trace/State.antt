-- ===== src/Trace/State.antt =====
-- `arm_print_state` of arm_core.c, to a file, with the trace of the registers that it reads; and
-- `trace_arm_state` of trace.c.
use prog.Prelude.{
  ℕ, zero, suc, ◌+◌, ◌%◌, Bool, not, ◌&&◌, ◌||◌, Option, none, some, List, [], ◌∷◌, ◌++◌, ltb, ◌==◌,
  if◌then◌else◌, Run, ret, ◌>>=◌, codes,
}
use prog.Constants.{usr, irq, sys}
use prog.Core.{Core}
use prog.Names.{arm_get_mode_name, arm_get_register_name}
use prog.Trace.{Trace, traces, state_flag}
use prog.Trace.Pieces.{Piece, text, padded, hexadecimal}
use prog.Trace.Accesses.{traced_read_register, traced_read_usr_register, traced_read_cpsr}

-- The `switch` on the mode after its registers: FIQ, SVC, UND and ABT by their numbers.
abbrev pub line_break : ℕ → List Piece
line_break mode =
    if (mode == usr) || ((mode == 0x11) || ((mode == 0x13) || (mode == 0x1b)))
    then text (codes "\n") ∷ []
    else if (mode == irq) || (mode == 0x17)
    then text (codes "          ") ∷ []
    else []

abbrev register_pieces : List ℕ → ℕ → List Piece
register_pieces name value =
    text (codes "   ") ∷ padded name ∷ text (codes "=") ∷ hexadecimal value ∷ []

module _ {File : Type 0} where
  -- What `fprintf` is given for a file.
  abbrev pub fprints : File → List Piece → Trace File → Trace File
  fprints out pieces t = record t { printed = t.printed ++ ((out, pieces) ∷ []) }

  abbrev pub breaks : Bool → File → Trace File → Trace File
  breaks broken out t = if broken then fprints out (text (codes "\n    ") ∷ []) t else t

  module _ (p : Core) (out : File) where
    -- A round of the inner loop: the arguments are read, and traced, before they are printed.
    unfoldable pub print_register : (mode reg count : ℕ) → Trace File → Run (Trace File)
    print_register mode reg count t = do
      name ← arm_get_register_name reg
      (value, t') ←
          if mode == usr
          then traced_read_usr_register p reg (breaks (ltb 0 reg && (reg % 5 == 0)) out t)
          else traced_read_register p reg (breaks (ltb 0 count && (count % 5 == 0)) out t)
      ret (fprints out (register_pieces name value) t')

    -- The inner loop, with `left` registers to go.
    unfoldable pub print_registers : (mode left reg count : ℕ) → Trace File → Run (Trace File)
    unfolding print_register
    print_registers mode zero reg count t = ret t
    print_registers mode (suc left) reg count t =
        print_register mode reg count t
        >>= print_registers mode left (reg + 1) (if mode == usr then count else count + 1)

    unfoldable pub print_cpsr : Trace File → Run (Trace File)
    print_cpsr t =
        traced_read_cpsr p t
        >>= (λ (value, t'). ret (fprints out (text (codes "  CPSR=") ∷ hexadecimal value ∷ []) t'))

    -- A round of the outer loop where the mode has a name.
    unfoldable pub print_mode : ℕ → List ℕ → Trace File → Run (Trace File)
    unfolding print_registers print_cpsr
    print_mode mode name t = do
      t1 ←
          print_registers mode 16 0 0
            (if mode == sys then t else fprints out (text name ∷ text (codes ":") ∷ []) t)
      t2 ← if mode == usr then print_cpsr t1 else ret t1
      ret (elim (line_break mode) as (λ _. Trace File) [
        | [] ↦ t2
        | piece ∷ pieces ↦ fprints out (piece ∷ pieces) t2
      ])

    abbrev pub print_named : ℕ → Option (List ℕ) → Trace File → Run (Trace File)
    print_named mode none t = ret t
    print_named mode (some name) t = print_mode mode name t

    unfoldable pub print_modes : (left mode : ℕ) → Trace File → Run (Trace File)
    unfolding print_mode
    print_modes zero mode t = ret t
    print_modes (suc left) mode t = do
      name ← arm_get_mode_name mode
      t' ← print_named mode name t
      print_modes left (mode + 1) t'

    unfoldable pub arm_print_state : Trace File → Run (Trace File)
    unfolding print_modes
    arm_print_state = print_modes 32 0

  unfoldable pub trace_arm_state : Core → Trace File → Run (Trace File)
  unfolding arm_print_state
  trace_arm_state p t = if not (traces state_flag t) then ret t else arm_print_state p t.output t
