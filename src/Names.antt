-- ===== src/Names.antt =====
-- arm_constants.c: the names of modes, registers and exceptions. A null pointer is `none`; the tables
-- have 32, 18 and 8 entries, and reading past one is undefined.
pub mod Irq
use prog.Prelude.{
  ℕ, zero, suc, ◌+◌, Option, none, some, List, [], ◌∷◌, ◌++◌, ltb, if◌then◌else◌, Run, ret,
  undefined, codes,
}

-- `table[i]`
unfoldable pub nth : {A : Type 0} → List A → ℕ → Run A
nth [] i = undefined
nth (x ∷ xs) zero = ret x
nth (x ∷ xs) (suc i) = nth xs i

abbrev null : Option (List ℕ)
null = none

abbrev pub arm_mode_names : List (Option (List ℕ))
arm_mode_names =
    null
    ∷ null
    ∷ null
    ∷ null
    ∷ null
    ∷ null
    ∷ null
    ∷ null
    ∷ null
    ∷ null
    ∷ null
    ∷ null
    ∷ null
    ∷ null
    ∷ null
    ∷ null
    ∷ some (codes "USR")
    ∷ some (codes "FIQ")
    ∷ some (codes "IRQ")
    ∷ some (codes "SVC")
    ∷ null
    ∷ null
    ∷ null
    ∷ some (codes "ABT")
    ∷ null
    ∷ null
    ∷ null
    ∷ some (codes "UND")
    ∷ null
    ∷ null
    ∷ null
    ∷ some (codes "SYS")
    ∷ []

abbrev pub arm_register_names : List (List ℕ)
arm_register_names =
    codes "R00"
    ∷ codes "R01"
    ∷ codes "R02"
    ∷ codes "R03"
    ∷ codes "R04"
    ∷ codes "R05"
    ∷ codes "R06"
    ∷ codes "R07"
    ∷ codes "R08"
    ∷ codes "R09"
    ∷ codes "R10"
    ∷ codes "R11"
    ∷ codes "R12"
    ∷ codes "SP"
    ∷ codes "LR"
    ∷ codes "PC"
    ∷ codes "CPSR"
    ∷ codes "SPSR"
    ∷ []

abbrev pub arm_exception_names : List (Option (List ℕ))
arm_exception_names =
    null
    ∷ some (codes "reset")
    ∷ some (codes "undefined instruction")
    ∷ some (codes "software interrupt")
    ∷ some (codes "prefetch abort")
    ∷ some (codes "data abort")
    ∷ some (codes "interrupt")
    ∷ some (codes "fast interrupt")
    ∷ []

unfoldable pub arm_get_exception_name : ℕ → Run (Option (List ℕ))
unfolding nth
arm_get_exception_name exception =
    if ltb exception 8 then nth arm_exception_names exception else ret none

unfoldable pub arm_get_mode_name : ℕ → Run (Option (List ℕ))
unfolding nth
arm_get_mode_name mode = nth arm_mode_names mode

unfoldable pub arm_get_register_name : ℕ → Run (List ℕ)
unfolding nth
arm_get_register_name reg = nth arm_register_names reg
