-- ===== src/Simulator/Interrupts.antt =====
-- What `irq_listener` does with whole connections.
use prog.Prelude.{
  ℕ, suc, ◌%◌, ◌^◌, ◌≤◌, ◌<◌, ◌≡◌, refl, ap₂, ap, ◌∙◌, some, List, [], ◌∷◌, ◌==◌, ◌||◌, Bool, false,
  if◌then◌else◌, ret, Returns, returns, Returns-bind, Returns-mono, length, fun_ext, arith, choice,
  inl, inr, Bool-cases,
}
use prog.Constants.{reset}
use prog.Registers.{Registers, write_cpsr, write_usr_register}
use prog.Core.{Core, arm_write_cpsr, arm_write_usr_register}
use prog.Exception.{arm_exception}
use prog.Gdb.Text.{atoi}
use prog.Names.{arm_get_exception_name}
use prog.Names.Irq as Irq
use prog.Names.Irq.Sending.{main-Sent}
use prog.Sockets.{Sockets}
use prog.Sockets.Delivery.{Delivery}
use prog.Simulator.{irq_received}
use prog.Simulator.Threads.{ServerData, accepting, reading, irq_round, irq_read, irq_rounds}

-- Whether one of the bytes is RESET.
unfoldable pub resets : List ℕ → Bool
resets [] = false
resets (b ∷ bs) = (b == reset) || resets bs

abbrev pub after_bytes : List ℕ → Core → Core
after_bytes bytes arm = if resets bytes then arm_exception arm reset else arm

-- A second RESET changes nothing.
arm_exception_twice :
    (p : Core) → arm_exception (arm_exception p reset) reset ≡ arm_exception p reset
unfolding arm_exception arm_write_cpsr arm_write_usr_register write_cpsr write_usr_register
arm_exception_twice p = ap (λ r. record p { reg = r }) (twice p.reg)
  where
    again : Registers → Registers
    again r = write_usr_register (write_cpsr r 0x1d3) 15 0

    twice : (r : Registers) → again (again r) ≡ again r
    twice r = ap₂ (λ s m. record { slots = s; mode = m }) (fun_ext λ i. ground arith) (ground arith)

after_bytes-cons :
    (b : ℕ) (bs : List ℕ) (arm : Core)
    → after_bytes bs (irq_received b arm) ≡ after_bytes (b ∷ bs) arm
unfolding resets irq_received arm_exception
after_bytes-cons b bs arm = elim (Bool-cases (b == reset)) [
  | inl same ↦
      rw same (choice (λ x. x ≡ arm_exception arm reset) (resets bs) (arm_exception_twice arm) refl)
  | inr other ↦ rw other refl
]

module _ {World : Type 0} {sockets : Sockets World} (server : ServerData) {host : List ℕ} {port : ℕ}
    (d : Delivery sockets server.socket host port) where
  round_end :
      {w : World} {fd : ℕ} (arm : Core)
      → d.Incoming fd [] w
      → Returns
          (λ (place, w', arm'). (place ≡ accepting) × (arm' ≡ arm))
          (irq_round sockets server (reading fd) w arm)
  unfolding irq_round irq_read
  round_end arm comes =
      Returns-bind (d.read-end comes) λ (o, w') ended. rw ended (returns (refl, refl))

  round_byte :
      {w : World} {fd b : ℕ} {bytes : List ℕ} (arm : Core)
      → d.Incoming fd (b ∷ bytes) w
      → Returns
          (λ (place, w', arm').
            (place ≡ reading fd) × d.Incoming fd bytes w' × (arm' ≡ irq_received b arm))
          (irq_round sockets server (reading fd) w arm)
  unfolding irq_round irq_read
  round_byte arm comes =
      Returns-bind (d.read-Incoming comes)
        λ (o, w') (found, comes'). rw found (returns (refl, comes', refl))

  irq_rounds-Incoming :
      (bytes : List ℕ) {w : World} {fd : ℕ} (arm : Core)
      → d.Incoming fd bytes w
      → Returns
          (λ (place, w', arm'). (place ≡ accepting) × (arm' ≡ after_bytes bytes arm))
          (irq_rounds sockets (suc (length bytes)) server (reading fd) w arm)
  unfolding irq_rounds resets
  irq_rounds-Incoming [] arm comes =
      Returns-bind (round_end arm comes) λ (place, w', arm') at. returns at
  irq_rounds-Incoming (b ∷ bs) arm comes =
      Returns-bind (round_byte arm comes) λ (place, w', arm') (at, comes', left).
        rw (at, left)
          (Returns-mono (irq_rounds-Incoming bs (irq_received b arm) comes')
            λ r (done, same). (done, same ∙ after_bytes-cons b bs arm))

  -- On sockets that deliver what is written: where a client has sent bytes to the server, as many rounds
  -- as bytes and two more serve its connection and wait for the next one. They leave the processor as one RESET does if a byte is RESET, and as it was
  -- if none is.
  pub irq_rounds-Sent :
      (bytes : List ℕ) {w : World} (arm : Core)
      → d.Sent bytes w
      → Returns
          (λ (place, w', arm'). (place ≡ accepting) × (arm' ≡ after_bytes bytes arm))
          (irq_rounds sockets (suc (suc (length bytes))) server accepting w arm)
  unfolding irq_rounds irq_round
  irq_rounds-Sent bytes arm sent =
      Returns-bind
        (Returns-bind
          {Q = λ (place, w', arm').
            (fd : ℕ) × (place ≡ reading fd) × d.Incoming fd bytes w' × (arm' ≡ arm)}
          (d.accept-Incoming sent) λ (fd, w') comes. returns (fd, refl, comes, refl))
        λ (place, w', arm') (fd, at, comes, same).
          rw (at, same) (irq_rounds-Incoming bytes arm comes)

-- On sockets that deliver what is written: a run of send_irq with the name of an exception, to a host and
-- a port where `irq_listener` waits, is defined, and after three rounds of `irq_listener` that one waits
-- again, with the exception raised in its processor.
pub main-irq_rounds :
    {World : Type 0} {sockets : Sockets World} (server : ServerData) {v : ℕ} {host : List ℕ}
    (d : Delivery sockets server.socket host (v % 2 ^ 16)) {w : World} (e : ℕ) (port name : List ℕ)
    (rest : List (List ℕ)) (arm : Core)
    → 1 ≤ e
    → e < 8
    → arm_get_exception_name e ≡ ret (some name)
    → atoi port ≡ ret v
    → d.Listening w
    → Returns
        (λ w'.
          Returns
            (λ (place, left, arm'). (place ≡ accepting) × (arm' ≡ arm_exception arm e))
            (irq_rounds sockets 3 server accepting w' arm))
        (Irq.main sockets (host ∷ port ∷ name ∷ rest) w)
unfolding resets arm_exception
main-irq_rounds server d e port name rest arm low high named number listens =
    Returns-mono (main-Sent d e port name rest low high named number listens) λ w' sent.
      Returns-mono (irq_rounds-Sent server d (e ∷ []) arm sent)
        λ r (place, left). (place, left ∙ ground arith)
