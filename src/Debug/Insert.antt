-- ===== src/Debug/Insert.antt =====
-- Adding a name keeps the table sorted.
use prog.Prelude.{
  ℕ, suc, ◌<◌, ◌≤◌, ◌≡◌, ◌≢◌, refl, arith, List, [], ◌∷◌, ◌==◌, if◌then◌else◌, ret, undefined,
}
use mathlib.Core.List.{Perm}
use mathlib.Core.List.Perm
use prog.Debug.{
  Order, less, same, greater, strcmp, Table, nb_debugged_files, position, insert_at, add_debug_to,
}

-- Each name is not greater than the next.
pub data Sorted : Table → Type 0 where
  none_left : Sorted []
  one_left : {f : List ℕ} → Sorted (f ∷ [])
  next :
      {f g : List ℕ} {files : Table}
      → strcmp f g ≢ greater
      → Sorted (g ∷ files)
      → Sorted (f ∷ g ∷ files)

abbrev flip : Order → Order
flip less = greater
flip same = same
flip greater = less

pub strcmp-flip : (s t : List ℕ) → strcmp t s ≡ flip (strcmp s t)
unfolding strcmp
strcmp-flip [] [] = refl
strcmp-flip [] (_ ∷ _) = refl
strcmp-flip (_ ∷ _) [] = refl
strcmp-flip (c ∷ s) (d ∷ t) = ground (arith, strcmp-flip s t)

abbrev inserted : List ℕ → Table → Table
inserted name files = insert_at (position files name) name files

-- A name that is not greater than the table's names nor than the new one stays in front.
Sorted-front :
    (f name : List ℕ) (files : Table)
    → Sorted (f ∷ files)
    → strcmp f name ≢ greater
    → Sorted (inserted name files)
    → Sorted (f ∷ inserted name files)
unfolding insert_at position
Sorted-front f name [] h below rest = next below one_left
Sorted-front f name (g ∷ gs) (next first _) below rest = go (strcmp g name) rest
  where
    go :
        (o : Order)
        → Sorted (
            insert_at
              (elim o [ less ↦ suc (position gs name) | same ↦ 0 | greater ↦ 0 ])
              name
              (g ∷ gs))
        → Sorted (
            f
            ∷ insert_at
                (elim o [ less ↦ suc (position gs name) | same ↦ 0 | greater ↦ 0 ])
                name
                (g ∷ gs))
    go less r = next first r
    go same r = next below r
    go greater r = next below r

pub Sorted-tail : {f : List ℕ} {files : Table} → Sorted (f ∷ files) → Sorted files
Sorted-tail one_left = none_left
Sorted-tail (next _ h) = h

inserted-Sorted : (name : List ℕ) (files : Table) → Sorted files → Sorted (inserted name files)
unfolding insert_at position
inserted-Sorted name [] none_left = one_left
inserted-Sorted name (f ∷ files) h =
    go (inserted-Sorted name files (Sorted-tail h)) (strcmp f name) refl
  where
    go :
        Sorted (inserted name files)
        → (o : Order) → strcmp f name ≡ o
        → Sorted (
            insert_at
              (elim o [ less ↦ suc (position files name) | same ↦ 0 | greater ↦ 0 ])
              name
              (f ∷ files))
    go rest less e = Sorted-front f name files h (rw e (ground arith)) rest
    go rest same e = next (rw (strcmp-flip f name, e) (ground arith)) h
    go rest greater e = next (rw (strcmp-flip f name, e) (ground arith)) h

inserted-Perm : (name : List ℕ) (files : Table) → Perm (name ∷ files) (inserted name files)
unfolding insert_at position
inserted-Perm name [] = Perm.refl _
inserted-Perm name (f ∷ files) = go (inserted-Perm name files) (strcmp f name)
  where
    go :
        Perm (name ∷ files) (inserted name files)
        → (o : Order)
        → Perm (name ∷ f ∷ files) (
            insert_at
              (elim o [ less ↦ suc (position files name) | same ↦ 0 | greater ↦ 0 ])
              name
              (f ∷ files))
    go rest less = Perm.trans (Perm.swap _ _ _) (Perm.cons _ rest)
    go rest same = Perm.refl _
    go rest greater = Perm.refl _

nb_inserted :
    (name : List ℕ) (files : Table)
    → nb_debugged_files (inserted name files) ≡ suc (nb_debugged_files files)
unfolding insert_at position nb_debugged_files
nb_inserted name [] = refl
nb_inserted name (f ∷ files) = go (nb_inserted name files) (strcmp f name)
  where
    go :
        nb_debugged_files (inserted name files) ≡ suc (nb_debugged_files files)
        → (o : Order)
        → nb_debugged_files (
            insert_at
              (elim o [ less ↦ suc (position files name) | same ↦ 0 | greater ↦ 0 ])
              name
              (f ∷ files))
          ≡ suc (suc (nb_debugged_files files))
    go rest less = omega (arith, rest)
    go rest same = refl
    go rest greater = refl

position-le : (name : List ℕ) (files : Table) → position files name ≤ nb_debugged_files files
unfolding position nb_debugged_files
position-le name [] = omega arith
position-le name (f ∷ files) = go (position-le name files) (strcmp f name)
  where
    go :
        position files name ≤ nb_debugged_files files
        → (o : Order)
        → elim o [ less ↦ suc (position files name) | same ↦ 0 | greater ↦ 0 ]
          ≤ suc (nb_debugged_files files)
    go rest less = omega (arith, rest)
    go rest same = omega arith
    go rest greater = omega arith

-- Adding a name to a sorted table of fewer than 64 names is defined and gives a sorted table of one
-- name more, with the names it had and the new one.
pub add_debug_to_lem :
    (files : Table) (name : List ℕ)
    → Sorted files
    → nb_debugged_files files < 64
    → (files' : Table) × (add_debug_to files name ≡ ret files')
      × Sorted files'
      × (nb_debugged_files files' ≡ suc (nb_debugged_files files))
      × Perm (name ∷ files) files'
unfolding add_debug_to
add_debug_to_lem files name sorted room = (
  inserted name files,
  ground (arith, room, position-le name files),
  inserted-Sorted name files sorted,
  nb_inserted name files,
  inserted-Perm name files,
)

-- Adding a name to a table of 64 names is undefined, unless all of them are less than the new one: then
-- the table stays as it was.
pub add_debug_to_full :
    (files : Table) (name : List ℕ)
    → nb_debugged_files files ≡ 64
    → add_debug_to files name ≡ (if position files name == 64 then ret files else undefined)
unfolding add_debug_to
add_debug_to_full files name full = ground (arith, full, position-le name files)
