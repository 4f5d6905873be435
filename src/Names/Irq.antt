-- ===== src/Names/Irq.antt =====
-- send_irq.c: the interrupt that its arguments choose, as the result of `send_irq`, and the whole program
-- with its connection. What it prints is left out.
pub mod Sending
use prog.Prelude.{
  ℕ, zero, suc, ◌^◌, ◌+◌, ◌%◌, ◌<◌, ◌≤◌, ◌≡◌, ◌≢◌, refl, sym, ap₂, Bool-cases, inl, inr, arith,
  true, false, Option, none, some, List, [], ◌∷◌, Run, ret, undefined, exited, ◌>>=◌, codes,
}
use prog.Constants.{reset}
use prog.Gdb.Text.{text_eq, atoi}
use prog.Sockets.{Sockets}
use prog.Names.{nth, arm_get_exception_name}

abbrev interrupt : ℕ
interrupt = 6

-- The `while` loop: the number and the name that it stops at.
unfoldable pub find_irq : (fuel irq : ℕ) → List ℕ → Run (ℕ × Option (List ℕ))
find_irq zero irq wanted = undefined
find_irq (suc fuel) irq wanted = do
  irq_name ← arm_get_exception_name irq
  elim irq_name [
    | none ↦ ret (irq, none)
    | some name ↦ elim (text_eq name wanted) [
      | true ↦ ret (irq, some name)
      | false ↦ find_irq fuel ((irq + 1) % 256) wanted
    ]
  ]

abbrev sent : ℕ × Option (List ℕ) → Run ℕ
sent (irq, none) = exited 2
sent (irq, some _) = ret irq

-- `argv` from `argv[1]` on. There are seven names: eight rounds are enough.
unfoldable pub send_irq : List (List ℕ) → Run ℕ
unfolding find_irq
send_irq (host ∷ port ∷ wanted ∷ _) = find_irq 8 reset wanted >>= sent
send_irq (host ∷ port ∷ []) = ret interrupt
send_irq (host ∷ []) = exited 1
send_irq [] = exited 1

-- The whole program, over the calls of Sockets.
module _ {World : Type 0} (sockets : Sockets World) where
  unfoldable pub main : List (List ℕ) → World → Run World
  unfolding send_irq
  main (host ∷ port ∷ rest) w = do
    irq ← send_irq (host ∷ port ∷ rest)
    (sock, w1) ← sockets.socket w
    w2 ← sockets.set_reuse sock w1
    number ← atoi port
    (address, w3) ← sockets.gethostbyname host w2
    w4 ← sockets.connect sock address (number % 2 ^ 16) w3
    w5 ← sockets.write sock (irq ∷ []) w4
    ret (sockets.close sock (sockets.shutdown sock w5))
  main (host ∷ []) w = exited 1
  main [] w = exited 1

text_eq_self : (s : List ℕ) → text_eq s s ≡ true
unfolding text_eq
text_eq_self [] = refl
text_eq_self (c ∷ s) = ground (arith, text_eq_self s)

text_eq→ : (s t : List ℕ) → text_eq s t ≡ true → s ≡ t
unfolding text_eq
text_eq→ [] [] h = refl
text_eq→ [] (d ∷ t) h = ground arith
text_eq→ (c ∷ s) [] h = ground arith
text_eq→ (c ∷ s) (d ∷ t) h =
    let same : (c ≡ d) × (text_eq s t ≡ true) = ground arith in
    ap₂ (λ x xs. x ∷ xs) same.0 (text_eq→ s t same.1)

-- Every exception from 1 to 7 has a name, and this name as the third argument sends its number.
pub send_irq_lem :
    (e : ℕ) (host port : List ℕ) (rest : List (List ℕ))
    → 1 ≤ e
    → e < 8
    → (name : List ℕ) × (arm_get_exception_name e ≡ ret (some name))
      × (send_irq (host ∷ port ∷ name ∷ rest) ≡ ret e)
unfolding send_irq find_irq arm_get_exception_name nth text_eq
send_irq_lem zero host port rest low high = absurd (omega (arith, low))
send_irq_lem (suc zero) host port rest low high = (codes "reset", refl, refl)
send_irq_lem (suc (suc zero)) host port rest low high = (codes "undefined instruction", refl, refl)
send_irq_lem (suc (suc (suc zero))) host port rest low high =
    (codes "software interrupt", refl, refl)
send_irq_lem (suc (suc (suc (suc zero)))) host port rest low high =
    (codes "prefetch abort", refl, refl)
send_irq_lem (suc (suc (suc (suc (suc zero))))) host port rest low high =
    (codes "data abort", refl, refl)
send_irq_lem (suc (suc (suc (suc (suc (suc zero)))))) host port rest low high =
    (codes "interrupt", refl, refl)
send_irq_lem (suc (suc (suc (suc (suc (suc (suc zero))))))) host port rest low high =
    (codes "fast interrupt", refl, refl)
send_irq_lem (suc (suc (suc (suc (suc (suc (suc (suc e)))))))) host port rest low high =
    absurd (omega (arith, high))

differs : (name wanted : List ℕ) → wanted ≢ name → text_eq name wanted ≡ false
differs name wanted other = elim (Bool-cases (text_eq name wanted)) [
  | inl same ↦ absurd (other (sym (text_eq→ name wanted same)))
  | inr different ↦ different
]

-- An argument that is no exception's name ends the program with status 2, and nothing is sent.
pub send_irq_unknown :
    (host port wanted : List ℕ) (rest : List (List ℕ))
    → ((e : ℕ) (name : List ℕ) → arm_get_exception_name e ≡ ret (some name) → wanted ≢ name)
    → send_irq (host ∷ port ∷ wanted ∷ rest) ≡ exited 2
unfolding send_irq find_irq arm_get_exception_name nth text_eq
send_irq_unknown host port wanted rest unknown =
    rw
      (
        differs _ wanted (unknown 1 (codes "reset") refl),
        differs _ wanted (unknown 2 (codes "undefined instruction") refl),
        differs _ wanted (unknown 3 (codes "software interrupt") refl),
        differs _ wanted (unknown 4 (codes "prefetch abort") refl),
        differs _ wanted (unknown 5 (codes "data abort") refl),
        differs _ wanted (unknown 6 (codes "interrupt") refl),
        differs _ wanted (unknown 7 (codes "fast interrupt") refl),
      )
      refl
