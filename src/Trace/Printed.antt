-- ===== src/Trace/Printed.antt =====
-- `arm_print_state` and the tables of names.
use prog.Prelude.{
  ℕ, zero, suc, ◌+◌, ◌≤◌, ◌<◌, arith, Bool, true, false, not, Option, none, some, List, [], ◌∷◌,
  ◌==◌, Returns, returns, Returns-bind, Returns-mono, Run, choice,
}
use prog.Constants.{usr, sys}
use prog.Core.{Core, arm_read_usr_register, arm_read_cpsr}
use prog.Core.Valid.{IsValid}
use prog.Names.{arm_get_mode_name, arm_get_register_name, arm_mode_names, arm_register_names}
use prog.Trace.State.{
  line_break, fprints, breaks, print_register, print_registers, print_cpsr, print_mode, print_named,
  print_modes, arm_print_state, trace_arm_state,
}
use prog.Trace.{Trace, traces}
use prog.Trace.Pieces.{Piece}
use prog.Trace.Accesses.{traced_read_usr_register, traced_read_cpsr}
use prog.Trace.Accesses.Same.{Keeps, trans, register-Keeps, read_register-Keeps}
use prog.Trace.Locations.{SamePlace}
use prog.Trace.Output.{nth-Returns, same_place}

module _ {File : Type 0} {p : Core} (valid : IsValid p) (out : File) where
  after_print :
      {t u : Trace File} (pieces : List Piece) → SamePlace t u → SamePlace t (fprints out pieces u)
  after_print pieces s = record { locations = s.locations; below = s.below; enabled = s.enabled }

  breaks-SamePlace : (b : Bool) (t : Trace File) → SamePlace t (breaks b out t)
  breaks-SamePlace true t = after_print _ (same_place t)
  breaks-SamePlace false t = same_place t

  -- A read with its trace, from a state with the same place.
  read_on :
      (P : ℕ → Type 0) {t u : Trace File} {m : Run (ℕ × Trace File)}
      → SamePlace t u
      → Keeps u P m
      → Returns (λ (_, v). SamePlace t v) m
  read_on P s given = Returns-mono given λ (_, v) (_, r). trans s r

  print_register-Returns :
      (mode reg count : ℕ) (t : Trace File)
      → reg < 16
      → Returns (SamePlace t) (print_register p out mode reg count t)
  unfolding print_register arm_get_register_name traced_read_usr_register
  print_register-Returns mode reg count t h =
      Returns-bind (nth-Returns arm_register_names reg (omega (arith, h))) λ name _.
        Returns-bind
          (choice (Returns (λ (_, v). SamePlace t v)) (mode == usr)
            (read_on _ (breaks-SamePlace _ t) (
              register-Keeps p.cycle_count 1 reg usr _ (arm_read_usr_register p reg) _ (omega arith)
                (omega (arith, h)) (omega arith)))
            (read_on _ (breaks-SamePlace _ t) (read_register-Keeps valid reg _ h)))
          λ (value, v) s. returns (after_print _ s)

  -- From one state with the same place to the next.
  then_print :
      {t u : Trace File} {m : Run (Trace File)}
      → SamePlace t u
      → Returns (SamePlace u) m
      → Returns (SamePlace t) m
  then_print s given = Returns-mono given λ v r. trans s r

  print_registers-Returns :
      (mode left reg count : ℕ) (t : Trace File)
      → reg + left ≤ 16
      → Returns (SamePlace t) (print_registers p out mode left reg count t)
  unfolding print_registers
  print_registers-Returns mode zero reg count t h = returns (same_place t)
  print_registers-Returns mode (suc left) reg count t h =
      Returns-bind (print_register-Returns mode reg count t (omega (arith, h)))
        λ u s. then_print s (print_registers-Returns mode left (reg + 1) _ u (omega (arith, h)))

  print_cpsr-Returns : (t : Trace File) → Returns (SamePlace t) (print_cpsr p out t)
  unfolding print_cpsr traced_read_cpsr
  print_cpsr-Returns t =
      Returns-bind
        (register-Keeps p.cycle_count 1 16 0 _ (arm_read_cpsr p) t (omega arith) (omega arith)
          (omega arith))
        λ (value, u) (_, s). returns (after_print _ s)

  break-SamePlace :
      (pieces : List Piece) (t : Trace File)
      → SamePlace t (elim pieces as (λ _. Trace File) [
        | [] ↦ t
        | piece ∷ rest ↦ fprints out (piece ∷ rest) t
      ])
  break-SamePlace [] t = same_place t
  break-SamePlace (piece ∷ rest) t = after_print (piece ∷ rest) (same_place t)

  print_named-Returns :
      (mode : ℕ) (name : Option (List ℕ)) (t : Trace File)
      → Returns (SamePlace t) (print_named p out mode name t)
  unfolding print_mode
  print_named-Returns mode none t = returns (same_place t)
  print_named-Returns mode (some name) t =
      let named =
        choice {A = Trace File} (SamePlace t) (mode == sys) (same_place t)
          (after_print _ (same_place t)) in
      Returns-bind (then_print named (print_registers-Returns mode 16 0 0 _ (omega arith))) λ u s.
        Returns-bind
          (choice (Returns (SamePlace t)) (mode == usr) (then_print s (print_cpsr-Returns u))
            (returns s))
          λ v r. returns (trans r (break-SamePlace (line_break mode) v))

  print_modes-Returns :
      (left mode : ℕ) (t : Trace File)
      → mode + left ≤ 32
      → Returns (SamePlace t) (print_modes p out left mode t)
  unfolding print_modes arm_get_mode_name
  print_modes-Returns zero mode t h = returns (same_place t)
  print_modes-Returns (suc left) mode t h =
      Returns-bind (nth-Returns arm_mode_names mode (omega (arith, h))) λ name _.
        Returns-bind (print_named-Returns mode name t)
          λ u s. then_print s (print_modes-Returns left (mode + 1) u (omega (arith, h)))

-- Tracing the state of a valid processor is defined and leaves the stack of locations as it is.
trace_arm_state-Returns :
    {File : Type 0} {p : Core} (t : Trace File)
    → IsValid p
    → Returns (SamePlace t) (trace_arm_state p t)
unfolding trace_arm_state arm_print_state
trace_arm_state-Returns t valid =
    choice (Returns (SamePlace t)) (not (traces 4 t)) (returns (same_place t))
      (print_modes-Returns valid t.output 32 0 t (omega arith))
