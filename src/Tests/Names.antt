-- ===== src/Tests/Names.antt =====
-- The table of names, at inputs.
use prog.Prelude.{ℕ, suc, ◌<◌, ◌≡◌, arith, List, [], ◌∷◌, ret}
use mathlib.Core.List.{Perm}
use prog.Debug.{strcmp, Table, nb_debugged_files, add_debug_to}
use prog.Debug.Insert.{Sorted, one_left, next, add_debug_to_lem}

-- the names a and c, and b
abbrev two_names : Table
two_names = (97 ∷ []) ∷ (99 ∷ []) ∷ []

abbrev added_name : List ℕ
added_name = 98 ∷ []

two_names-Sorted : Sorted two_names
unfolding strcmp
two_names-Sorted = next (ground arith) one_left

two_names-room : nb_debugged_files two_names < 64
unfolding nb_debugged_files
two_names-room = omega arith

add_debug_to_lem_example :
    (files' : Table) × (add_debug_to two_names added_name ≡ ret files')
    × Sorted files'
    × (nb_debugged_files files' ≡ suc (nb_debugged_files two_names))
    × Perm (added_name ∷ two_names) files'
add_debug_to_lem_example = add_debug_to_lem two_names added_name two_names-Sorted two_names-room
