-- ===== src/Debug.antt =====
-- debug.c: the sorted table of the source files whose debug messages are shown. What it prints is left
-- out. A string is the list of its bytes before the terminator.
pub mod Insert
pub mod Search
use prog.Prelude.{
  ℕ, zero, suc, ◌+◌, ◌-◌, ◌/◌, Bool, true, false, Option, none, some, List, [], ◌∷◌, ltb, leb, ◌==◌,
  if◌then◌else◌, Run, ret, undefined,
}

-- The sign of what `strcmp` returns.
pub data Order : Type 0 where
  less same greater : Order

unfoldable pub strcmp : List ℕ → List ℕ → Order
strcmp [] [] = same
strcmp [] (_ ∷ _) = less
strcmp (_ ∷ _) [] = greater
strcmp (c ∷ s) (d ∷ t) =
    let rest = strcmp s t in if ltb c d then less else if ltb d c then greater else rest

-- `debugged_files[0]` to `debugged_files[nb_debugged_files - 1]`
abbrev pub Table : Type 0
Table = List (List ℕ)

unfoldable pub nb_debugged_files : Table → ℕ
nb_debugged_files [] = 0
nb_debugged_files (_ ∷ files) = suc (nb_debugged_files files)

-- The first loop: the number of names before the first that is not less.
unfoldable pub position : Table → List ℕ → ℕ
position [] name = 0
position (file ∷ files) name = elim (strcmp file name) [
  | less ↦ suc (position files name)
  | same ↦ 0
  | greater ↦ 0
]

-- The second loop and the store: the names from i on move up by one.
unfoldable pub insert_at : ℕ → List ℕ → Table → Table
insert_at zero name files = name ∷ files
insert_at (suc i) name [] = name ∷ []
insert_at (suc i) name (file ∷ files) = file ∷ insert_at i name files

-- With 64 names the second loop writes past the array.
unfoldable pub add_debug_to : Table → List ℕ → Run Table
add_debug_to files name =
    let i = position files name in
    if leb 64 i
    then ret files
    else if leb 64 (nb_debugged_files files)
    then undefined
    else ret (insert_at i name files)
