-- ===== src/Debug/Search.antt =====
-- `__is_debugged` of debug.c: the binary search in the table.
pub mod Compare
pub mod Found
use prog.Prelude.{
  ℕ, zero, suc, ◌+◌, ◌-◌, ◌/◌, Bool, true, false, Option, none, some, List, [], ◌∷◌, ltb, ◌==◌, Run,
  ret, undefined, ◌>>=◌,
}
use prog.Debug.{Order, less, same, greater, strcmp, Table, nb_debugged_files}

-- `debugged_files[i]`, where there is a name.
unfoldable pub entry : Table → ℕ → Option (List ℕ)
entry [] i = none
entry (file ∷ files) zero = some file
entry (file ∷ files) (suc i) = entry files i

-- What `strcmp` is given there: past the names the pointers are null.
abbrev pub loaded : Option (List ℕ) → Run (List ℕ)
loaded none = undefined
loaded (some file) = ret file

abbrev pub is_same : Order → Bool
is_same less = false
is_same same = true
is_same greater = false

-- The `while` loop and the test after it. `past` is `to + 1`, which is not negative.
unfoldable pub search : (fuel : ℕ) → Table → List ℕ → (from past : ℕ) → Run Bool
unfolding entry
search zero files name from past = undefined
search (suc fuel) files name from past = elim (ltb (from + 1) past) [
  | true ↦
      let middle = (from + (past - 1)) / 2 in
      loaded (entry files middle) >>= (λ file. elim (strcmp file name) [
        | less ↦ search fuel files name (middle + 1) past
        | same ↦ ret true
        | greater ↦ search fuel files name from middle
      ])
  | false ↦ elim (from + 1 == past) [
    | true ↦ loaded (entry files from) >>= (λ file. ret (is_same (strcmp file name)))
    | false ↦ ret false
  ]
]

-- As many rounds as there are names, and the test at the end.
unfoldable pub is_debugged : Table → List ℕ → Run Bool
unfolding search
is_debugged files name =
    search (suc (nb_debugged_files files)) files name 0 (nb_debugged_files files)
