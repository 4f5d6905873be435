-- ===== src/Debug/Search/Compare.antt =====
-- `strcmp` as an order, on the names of a sorted table.
use prog.Prelude.{
  some_injective, ℕ, zero, suc, ◌≤◌, ◌≡◌, ◌≢◌, refl, sym, arith, some, List, [], ◌∷◌,
}
use prog.Debug.{less, same, greater, strcmp, Table}
use prog.Debug.Insert.{Sorted, one_left, next, Sorted-tail}
use prog.Debug.Search.{entry}

pub strcmp_self : (s : List ℕ) → strcmp s s ≡ same
unfolding strcmp
strcmp_self [] = refl
strcmp_self (c ∷ s) = ground (arith, strcmp_self s)

pub strcmp_le_less : (f g n : List ℕ) → strcmp f g ≢ greater → strcmp g n ≡ less → strcmp f n ≡ less
unfolding strcmp
strcmp_le_less [] [] n le lt = lt
strcmp_le_less [] (d ∷ g) [] le lt = ground arith
strcmp_le_less [] (d ∷ g) (e ∷ n) le lt = refl
strcmp_le_less (c ∷ f) [] n le lt = absurd (le refl)
strcmp_le_less (c ∷ f) (d ∷ g) [] le lt = lt
strcmp_le_less (c ∷ f) (d ∷ g) (e ∷ n) le lt = ground (arith, strcmp_le_less f g n)

pub strcmp_greater_le :
    (g n h : List ℕ) → strcmp g n ≡ greater → strcmp g h ≢ greater → strcmp h n ≡ greater
unfolding strcmp
strcmp_greater_le [] [] h gt le = ground arith
strcmp_greater_le [] (d ∷ n) h gt le = ground arith
strcmp_greater_le (c ∷ g) n [] gt le = absurd (le refl)
strcmp_greater_le (c ∷ g) [] (e ∷ h) gt le = refl
strcmp_greater_le (c ∷ g) (d ∷ n) (e ∷ h) gt le = ground (arith, strcmp_greater_le g n h)

strcmp_le_le : (f g h : List ℕ) → strcmp f g ≢ greater → strcmp g h ≢ greater → strcmp f h ≢ greater
unfolding strcmp
strcmp_le_le [] g [] p q = ground arith
strcmp_le_le [] g (e ∷ h) p q = ground arith
strcmp_le_le (c ∷ f) [] h p q = absurd (p refl)
strcmp_le_le (c ∷ f) (d ∷ g) [] p q = absurd (q refl)
strcmp_le_le (c ∷ f) (d ∷ g) (e ∷ h) p q = ground (arith, strcmp_le_le f g h)

first_le :
    {f g : List ℕ} {files : Table} (j : ℕ)
    → Sorted (f ∷ files)
    → entry files j ≡ some g
    → strcmp f g ≢ greater
unfolding entry
first_le j one_left e = ground arith
first_le {f} {g} zero (next {g = h} le rest) e = ground arith
first_le {f} {g} (suc j) (next {g = h} le rest) e = strcmp_le_le f h g le (first_le j rest e)

-- A name is not greater than one behind it.
pub entry_le :
    {f g : List ℕ} (files : Table) (i j : ℕ)
    → Sorted files
    → entry files i ≡ some f
    → entry files j ≡ some g
    → i ≤ j
    → strcmp f g ≢ greater
unfolding entry
entry_le [] i j sorted a b le = ground arith
entry_le {f} {g} (file ∷ files) zero zero sorted a b le =
    rw (sym (some_injective a), sym (some_injective b), strcmp_self file) (ground arith)
entry_le {f} {g} (file ∷ files) zero (suc j) sorted a b le =
    rw (sym (some_injective a)) (first_le j sorted b)
entry_le {f} {g} (file ∷ files) (suc i) zero sorted a b le = absurd (omega (arith, le))
entry_le {f} {g} (file ∷ files) (suc i) (suc j) sorted a b le =
    entry_le files i j (Sorted-tail sorted) a b (omega (arith, le))
