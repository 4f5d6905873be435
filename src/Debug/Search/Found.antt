-- ===== src/Debug/Search/Found.antt =====
-- `__is_debugged`, next to a look at every name.
use prog.Prelude.{
  some_injective, ℕ, zero, suc, ◌+◌, ◌-◌, ◌/◌, ◌≤◌, ◌<◌, ◌≡◌, ◌≢◌, refl, sym, ap, ◌∙◌, arith, Bool,
  true, false, ◌||◌, some, List, [], ◌∷◌, ltb, ltb→lt, ltb→le, ◌==◌, ==→eq, Bool-cases, inl, inr,
  ret,
}
use prog.Debug.{Order, less, same, greater, strcmp, Table, nb_debugged_files}
use prog.Debug.Insert.{Sorted}
use prog.Debug.Search.{entry, is_same, search, is_debugged}
use prog.Debug.Search.Compare.{strcmp_le_less, strcmp_greater_le, entry_le}

-- Whether the table has the name: a look at each.
unfoldable pub lists : Table → List ℕ → Bool
lists [] name = false
lists (file ∷ files) name = is_same (strcmp file name) || lists files name

entry-within :
    (files : Table) (i : ℕ) → i < nb_debugged_files files → (f : List ℕ) × (entry files i ≡ some f)
unfolding entry nb_debugged_files
entry-within [] i h = absurd (omega arith)
entry-within (file ∷ files) zero h = (file, refl)
entry-within (file ∷ files) (suc i) h = entry-within files i (omega arith)

entry-past :
    {f : List ℕ} (files : Table) (i : ℕ) → entry files i ≡ some f → nb_debugged_files files ≤ i → ⊥
unfolding entry nb_debugged_files
entry-past [] i e h = ground (arith, e)
entry-past (file ∷ files) zero e h = omega (arith, h)
entry-past (file ∷ files) (suc i) e h = entry-past files i e (omega (arith, h))

lists-entry :
    {f : List ℕ} (files : Table) (name : List ℕ) (i : ℕ)
    → entry files i ≡ some f
    → strcmp f name ≡ same
    → lists files name ≡ true
unfolding lists entry
lists-entry [] name i e s = ground arith
lists-entry {f} (file ∷ files) name zero e s = rw (some_injective e, s) refl
lists-entry (file ∷ files) name (suc i) e s = ground (arith, lists-entry files name i e s)

lists-never :
    (files : Table) (name : List ℕ)
    → ((i : ℕ) (f : List ℕ) → entry files i ≡ some f → strcmp f name ≢ same)
    → lists files name ≡ false
unfolding lists entry
lists-never [] name never = refl
lists-never (file ∷ files) name never =
    ground (arith, never 0 file refl, lists-never files name (λ i f e. never (suc i) f e))

-- What a round does where more names than one are left, one, and none.
module _ (fuel : ℕ) (files : Table) (name : List ℕ) (from past : ℕ) where
  search_many :
      (f : List ℕ)
      → from + 1 < past
      → entry files ((from + (past - 1)) / 2) ≡ some f
      → search (suc fuel) files name from past ≡ elim (strcmp f name) [
        | less ↦ search fuel files name ((from + (past - 1)) / 2 + 1) past
        | same ↦ ret true
        | greater ↦ search fuel files name from ((from + (past - 1)) / 2)
      ]
  unfolding search
  search_many f h e = ground arith

  search_one :
      (f : List ℕ)
      → from + 1 ≡ past
      → entry files from ≡ some f
      → search (suc fuel) files name from past ≡ ret (is_same (strcmp f name))
  unfolding search
  search_one f h e = ground arith

  search_none : past ≤ from → search (suc fuel) files name from past ≡ ret false
  unfolding search
  search_none h = ground arith

module _ (files : Table) (name : List ℕ) (sorted : Sorted files) where
  -- What the search knows: the names below `from` are less, and those from `past` on greater.
  record Outside (from past : ℕ) : Type 0 where
    below : (i : ℕ) (f : List ℕ) → entry files i ≡ some f → i < from → strcmp f name ≡ less
    above : (i : ℕ) (f : List ℕ) → entry files i ≡ some f → past ≤ i → strcmp f name ≡ greater

  less_there :
      {from past : ℕ} {f : List ℕ} (m : ℕ)
      → entry files m ≡ some f
      → strcmp f name ≡ less
      → Outside from past
      → Outside (m + 1) past
  less_there {f = f} m e lt o = record {
    below =
        λ i g at h. strcmp_le_less g f name (entry_le files i m sorted at e (omega (arith, h))) lt;
    above = o.above;
  }

  greater_there :
      {from past : ℕ} {f : List ℕ} (m : ℕ)
      → entry files m ≡ some f
      → strcmp f name ≡ greater
      → Outside from past
      → Outside from m
  greater_there {f = f} m e gt o = record {
    below = o.below;
    above = λ i g at h. strcmp_greater_le f name g gt (entry_le files m i sorted e at h);
  }

  -- Nothing is left between the two ends.
  nowhere : {from past : ℕ} → past ≤ from → Outside from past → lists files name ≡ false
  nowhere {from} {past} le o = lists-never files name λ i f at equal.
      elim (Bool-cases (ltb i from)) [
        | inl front ↦ ground (arith, o.below i f at (ltb→lt i from front))
        | inr back ↦ ground (arith, o.above i f at (omega (arith, ltb→le i from back)))
      ]

  -- One name is left.
  last_one :
      {from past : ℕ} {f : List ℕ} (c : Order)
      → entry files from ≡ some f
      → strcmp f name ≡ c
      → past ≤ from + 1
      → Outside from past
      → is_same c ≡ lists files name
  last_one {from} less e s le o = sym (nowhere le (less_there from e s o))
  last_one {from} same e s le o = sym (lists-entry files name from e s)
  last_one {from} greater e s le o = sym (nowhere (omega arith) (greater_there from e s o))

  record Span (fuel from past : ℕ) : Type 0 where
    enough : past < from + fuel
    ordered : from ≤ past
    bound : past ≤ nb_debugged_files files
    outside : Outside from past

  -- A round that reads the name in the middle.
  round :
      (fuel from past m : ℕ) {f : List ℕ} (c : Order)
      → ((from past : ℕ)
          → Span fuel from past
          → search fuel files name from past ≡ ret (lists files name))
      → Span (suc fuel) from past
      → from ≤ m
      → m < past
      → entry files m ≡ some f
      → strcmp f name ≡ c
      → elim c [
        | less ↦ search fuel files name (m + 1) past
        | same ↦ ret true
        | greater ↦ search fuel files name from m
      ]
        ≡ ret (lists files name)
  round fuel from past m less rest span above_from below_past e s = rest (m + 1) past record {
    enough = omega (arith, span.enough);
    ordered = omega arith;
    bound = span.bound;
    outside = less_there m e s span.outside;
  }
  round fuel from past m same rest span above_from below_past e s =
      ap ret (sym (lists-entry files name m e s))
  round fuel from past m greater rest span above_from below_past e s = rest from m record {
    enough = omega (arith, span.enough);
    ordered = above_from;
    bound = omega (arith, span.bound);
    outside = greater_there m e s span.outside;
  }

  search_lem :
      (fuel from past : ℕ)
      → Span fuel from past
      → search fuel files name from past ≡ ret (lists files name)
  search_lem zero from past span = absurd (omega (arith, span.enough, span.ordered))
  search_lem (suc fuel) from past span = elim (Bool-cases (ltb (from + 1) past)) [
    | inl many ↦
        let lt = ltb→lt (from + 1) past many in
        let m = (from + (past - 1)) / 2 in
        let (f, e) = entry-within files m (omega (arith, lt, span.bound)) in
        search_many fuel files name from past f lt e
        ∙ (round fuel from past m (strcmp f name) (search_lem fuel) span (omega (arith, lt))
            (omega (arith, lt)) e refl)
    | inr few ↦ elim (Bool-cases (from + 1 == past)) [
      | inl one ↦
          let eq = ==→eq (from + 1) past one in
          let (f, e) = entry-within files from (omega (arith, eq, span.bound)) in
          search_one fuel files name from past f eq e
          ∙ (ap ret (last_one (strcmp f name) e refl (omega (arith, eq)) span.outside))
      | inr nothing ↦
          let le : past ≤ from = ground (arith, few, nothing) in
          search_none fuel files name from past le ∙ (ap ret (sym (nowhere le span.outside)))
    ]
  ]

-- A search in a sorted table ends, and finds the names that are listed and no other.
pub is_debugged_lem :
    (files : Table) (name : List ℕ) → Sorted files → is_debugged files name ≡ ret (lists files name)
unfolding is_debugged
is_debugged_lem files name sorted =
    search_lem files name sorted (suc (nb_debugged_files files)) 0 (nb_debugged_files files)
      record {
        enough = omega arith;
        ordered = omega arith;
        bound = omega arith;
        outside = record {
          below = λ i f at h. absurd (omega (arith, h));
          above = λ i f at h. absurd (entry-past files i at h);
        };
      }
