-- ===== src/Names/Irq/Sending.antt =====
-- What send_irq.c sends to a server that listens.
use prog.Prelude.{
  ℕ, ◌^◌, ◌%◌, ◌≤◌, ◌<◌, ◌≡◌, refl, sym, ap, ◌∙◌, Option, some, some_injective, List, [], ◌∷◌, ret,
  Returns, returns, Returns-bind,
}
use mathlib.Core.Path.{subst}
use prog.Gdb.Text.{atoi}
use prog.Names.{arm_get_exception_name}
use prog.Names.Irq.{send_irq, send_irq_lem, main}
use prog.Sockets.{Sockets}
use prog.Sockets.Delivery.{Delivery}

same_name : {o o' : Option (List ℕ)} → ret o ≡ ret o' → o ≡ o'
same_name {o} {o'} e = go (subst (Returns (λ x. o ≡ x)) e (returns refl))
  where
    go : Returns (λ x. o ≡ x) (ret o') → o ≡ o'
    go (returns h) = h

send_irq-name :
    (e : ℕ) (host port name : List ℕ) (rest : List (List ℕ))
    → 1 ≤ e
    → e < 8
    → arm_get_exception_name e ≡ ret (some name)
    → send_irq (host ∷ port ∷ name ∷ rest) ≡ ret e
send_irq-name e host port name rest low high named =
    let (found, found_named, runs) = send_irq_lem e host port rest low high in
    let same = some_injective (same_name (sym found_named ∙ named)) in
    ap (λ n. send_irq (host ∷ port ∷ n ∷ rest)) (sym same) ∙ runs

-- The name of an exception leaves its number on a connection to the server, and nothing else.
pub main-Sent :
    {World : Type 0} {sockets : Sockets World} {server v : ℕ} {host : List ℕ}
    (d : Delivery sockets server host (v % 2 ^ 16)) {w : World} (e : ℕ) (port name : List ℕ)
    (rest : List (List ℕ))
    → 1 ≤ e
    → e < 8
    → arm_get_exception_name e ≡ ret (some name)
    → atoi port ≡ ret v
    → d.Listening w
    → Returns (d.Sent (e ∷ [])) (main sockets (host ∷ port ∷ name ∷ rest) w)
unfolding main
main-Sent {host = host} d e port name rest low high named number listens =
    rw (send_irq-name e host port name rest low high named) (
      Returns-bind (d.socket-Listening listens) λ (fd, w1) h1.
        Returns-bind (d.set_reuse-Listening fd h1) λ w2 h2. rw number (
          Returns-bind (d.gethostbyname-Resolved h2) λ (address, w3) h3.
            Returns-bind (d.connect-Linked fd h3) λ w4 h4.
              Returns-bind (d.write-Linked (e ∷ []) h4)
                λ w5 h5. returns (d.close-Sent fd (d.shutdown-Sent h5))))
