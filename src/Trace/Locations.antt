-- ===== src/Trace/Locations.antt =====
-- The stack of locations through a traced call.
use prog.Prelude.{
  ℕ, ◌<◌, ◌≡◌, refl, ◌∙◌, arith, true, false, List, ◌∷◌, Run, ret, ◌>>=◌, length, Bool-cases, inl,
  inr, Returns, returns, Returns-bind,
}
use prog.Trace.{Trace, Location, trace_start_location, trace_end_location}

module _ {File : Type 0} where
  -- The locations that two states have, and where their tops are, are the same.
  pub record SamePlace (t t' : Trace File) : Type 0 where
    pub locations : t'.locations ≡ t.locations
    pub below : t'.below ≡ t.below
    pub enabled : t'.enabled ≡ t.enabled

  abbrev pub pushed : List ℕ → ℕ → Trace File → Trace File
  pushed file line t = record t { locations = (file, line) ∷ t.locations }

  pub start_on :
      (file : List ℕ) (line : ℕ) (t : Trace File)
      → t.enabled ≡ true
      → t.below ≡ 0
      → length t.locations < 128
      → trace_start_location file line t ≡ ret (pushed file line t)
  unfolding trace_start_location
  start_on file line t on top room = ground (arith, on, top, room)

  pub start_off :
      (file : List ℕ) (line : ℕ) (t : Trace File)
      → t.enabled ≡ false
      → trace_start_location file line t ≡ ret t
  unfolding trace_start_location
  start_off file line t off = rw off refl

  pub end_on :
      (u : Trace File) (l : Location) (ls : List Location)
      → u.enabled ≡ true
      → u.locations ≡ l ∷ ls
      → trace_end_location u ≡ (0, record u { locations = ls })
  unfolding trace_end_location
  end_on u l ls on top = rw (on, top) refl

  pub end_off : (u : Trace File) → u.enabled ≡ false → trace_end_location u ≡ (0, u)
  unfolding trace_end_location
  end_off u off = rw off refl

  -- A traced call with an operation in it that leaves the stack and the switch as they are, on a stack
  -- that has room, leaves them so too: what it pushes it pops.
  pub trace_end_location-start :
      (file : List ℕ) (line : ℕ) (t : Trace File) (inner : Trace File → Run (Trace File))
      → t.below ≡ 0
      → length t.locations < 128
      → ((u : Trace File) → Returns (SamePlace u) (inner u))
      → Returns
          (SamePlace t)
          (trace_start_location file line t >>= inner >>= (λ u. ret (trace_end_location u).1))
  trace_end_location-start file line t inner top room keeps = elim (Bool-cases t.enabled) [
    | inl on ↦ rw (start_on file line t on top room) (
        Returns-bind (keeps (pushed file line t)) λ u same.
          rw (end_on u (file, line) t.locations (same.enabled ∙ on) same.locations)
            (returns record { locations = refl; below = same.below; enabled = same.enabled }))
    | inr off ↦
        rw (start_off file line t off)
          (Returns-bind (keeps t) λ u same. rw (end_off u (same.enabled ∙ off)) (returns same))
  ]
