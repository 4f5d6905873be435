-- ===== src/Trace/Output.antt =====
-- The traces of accesses: their tables and arrays, and the stack of locations.
use prog.Prelude.{
  ℕ, zero, suc, ◌+◌, ◌<◌, ◌≡◌, refl, arith, Bool, true, false, not, List, [], ◌∷◌, Option, none,
  some, ltb, ◌==◌, if◌then◌else◌, Run, ret, undefined, exited, length, Returns, returns,
  Returns-bind, every_below, every_below→, choice,
}
use prog.Word.{add32}
use prog.Names.{nth, arm_get_mode_name, arm_get_register_name, arm_register_names}
use prog.Trace.{
  Trace, Location, trace_print_location, located, trace_memory, trace_register, traces, mode_name,
  types, causes, seqs,
}
use prog.Trace.Locations.{SamePlace}

fits : Run (Option (List ℕ)) → Bool
fits (ret none) = true
fits (ret (some name)) = ltb (length name + 1) 5
fits undefined = false
fits (exited n) = false

fits-Returns :
    (m : Run (Option (List ℕ)))
    → fits m ≡ true
    → Returns (λ o. Returns (λ _. Unit {0}) (mode_name o)) m
unfolding fits
fits-Returns (ret none) h = returns (returns tt)
fits-Returns (ret (some name)) h = returns (rw h (returns tt))
fits-Returns undefined h = absurd (ground arith)
fits-Returns (exited n) h = absurd (ground arith)

mode_name-Returns :
    (mode : ℕ)
    → mode < 32
    → Returns (λ o. Returns (λ _. Unit {0}) (mode_name o)) (arm_get_mode_name mode)
unfolding every_below fits arm_get_mode_name nth
mode_name-Returns mode h =
    fits-Returns (arm_get_mode_name mode)
      (every_below→ 32 (λ m. fits (arm_get_mode_name m)) mode refl h)

pub nth-Returns :
    {A : Type 0} (xs : List A) (i : ℕ) → i < length xs → Returns (λ _. Unit {0}) (nth xs i)
unfolding nth
nth-Returns [] i h = absurd (omega arith)
nth-Returns (x ∷ xs) zero h = returns tt
nth-Returns (x ∷ xs) (suc i) h = nth-Returns xs i (omega arith)

module _ {File : Type 0} where
  pub same_place : (t : Trace File) → SamePlace t t
  same_place t = record { locations = refl; below = refl; enabled = refl }

  print-SamePlace : (t : Trace File) → SamePlace t (trace_print_location t)
  unfolding trace_print_location located
  print-SamePlace t = choice (SamePlace t) _ (at_top t.locations) (same_place t)
    where
      at_top : (ls : List Location) → SamePlace t (located t ls)
      at_top [] = same_place t
      at_top (_ ∷ _) = record { locations = refl; below = refl; enabled = refl }

  -- Tracing an access to a register, with a mode below 32, a register below 18 and a type of 0 or 1, is
  -- defined: the mode's name fits in its array. It leaves the stack of locations as it is.
  pub trace_register-Returns :
      (cycle type reg mode value : ℕ) (t : Trace File)
      → type < 2
      → reg < 18
      → mode < 32
      → Returns (SamePlace t) (trace_register cycle type reg mode value t)
  unfolding trace_register arm_get_register_name
  trace_register-Returns cycle type reg mode value t ht hr hm =
      choice (Returns (SamePlace t)) (not (traces 2 t)) (returns (same_place t)) (
        Returns-bind (mode_name-Returns mode hm) λ arm_mode k. Returns-bind k λ name _.
          Returns-bind (nth-Returns types type ht) λ type_text _.
            Returns-bind (nth-Returns arm_register_names reg hr) λ register _.
              let p = print-SamePlace t in
              returns record { locations = p.locations; below = p.below; enabled = p.enabled })

  -- Tracing an access to the memory, with a type and a cause of 0 or 1, is defined, and leaves the stack
  -- of locations as it is.
  pub trace_memory-Returns :
      (cycle type size cause address value : ℕ) (t : Trace File)
      → type < 2
      → cause < 2
      → Returns (SamePlace t) (trace_memory cycle type size cause address value t)
  unfolding trace_memory
  trace_memory-Returns cycle type size cause address value t ht hc =
      let seq = if address == add32 t.last_address 4 then 1 else 0 in
      let low : seq < 2 = ground arith in
      choice (Returns (SamePlace t)) (not (traces 1 t)) (returns (same_place t)) (
        Returns-bind (nth-Returns seqs seq low) λ seq_text _.
          Returns-bind (nth-Returns types type ht) λ type_text _.
            Returns-bind (nth-Returns causes cause hc) λ cause_text _.
              let p = print-SamePlace (record t { last_address = address }) in
              returns record { locations = p.locations; below = p.below; enabled = p.enabled })
