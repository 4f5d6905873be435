-- ===== src/Tests/Network.antt =====
-- The threads and send_irq.c on a network of one connection, at inputs.
use prog.Prelude.{
  ℕ, ◌≡◌, refl, arith, Option, none, some, List, [], ◌∷◌, ◌++◌, Run, ret, exited, Returns, returns,
  codes,
}
use prog.Tests.{moves_core}
use prog.Exception.{arm_exception}
use prog.Names.Irq as Irq
use prog.Sockets.{Sockets}
use prog.Sockets.Delivery.{Delivery}
use prog.Simulator.Threads.{ServerData, accepting, irq_rounds}
use prog.Simulator.Interrupts.{main-irq_rounds}

pub data Network : Type 0 where
  quiet : Network
  linked sent incoming : List ℕ → Network

unfoldable pub accepted : Network → Run (ℕ × Network)
accepted (sent bytes) = ret (5, incoming bytes)
accepted _ = exited 0

unfoldable pub connected : Network → Run Network
connected quiet = ret (linked [])
connected _ = exited 0

unfoldable pub received : Network → Run (Option ℕ × Network)
received (incoming []) = ret (none, quiet)
received (incoming (b ∷ bytes)) = ret (some b, incoming bytes)
received _ = exited 0

unfoldable pub written : List ℕ → Network → Run Network
written bytes (linked before) = ret (linked (before ++ bytes))
written bytes _ = exited 0

unfoldable pub ended : Network → Network
ended (linked bytes) = sent bytes
ended w = w

abbrev pub network : Sockets Network
network = record {
  socket = λ w. ret (3, w);
  set_reuse = λ fd w. ret w;
  bind = λ fd port w. ret w;
  getsockname = λ fd w. some 4321;
  listen = λ fd w. ret w;
  accept = λ fd w. accepted w;
  gethostbyname = λ name w. ret (127 ∷ 0 ∷ 0 ∷ 1 ∷ [], w);
  connect = λ fd address port w. connected w;
  read = λ fd w. received w;
  write = λ fd bytes w. written bytes w;
  shutdown = λ fd w. ended w;
  close = λ fd w. w;
  print = λ what w. w;
}

data IsQuiet : Network → Type 0 where
  is_quiet : IsQuiet quiet

data IsLinked (bytes : List ℕ) : Network → Type 0 where
  is_linked : IsLinked bytes (linked bytes)

data IsSent (bytes : List ℕ) : Network → Type 0 where
  is_sent : IsSent bytes (sent bytes)

data IsIncoming (bytes : List ℕ) : Network → Type 0 where
  is_incoming : IsIncoming bytes (incoming bytes)

connected-Linked : {w : Network} → IsQuiet w → Returns (IsLinked []) (connected w)
unfolding connected
connected-Linked is_quiet = returns is_linked

written-Linked :
    {w : Network} {before : List ℕ} (bytes : List ℕ)
    → IsLinked before w
    → Returns (IsLinked (before ++ bytes)) (written bytes w)
unfolding written
written-Linked bytes is_linked = returns is_linked

ended-Sent : {w : Network} {bytes : List ℕ} → IsLinked bytes w → IsSent bytes (ended w)
unfolding ended
ended-Sent is_linked = is_sent

accepted-Incoming :
    {w : Network} {bytes : List ℕ}
    → IsSent bytes w
    → Returns (λ (fd, w'). IsIncoming bytes w') (accepted w)
unfolding accepted
accepted-Incoming is_sent = returns is_incoming

received-Incoming :
    {w : Network} {b : ℕ} {bytes : List ℕ}
    → IsIncoming (b ∷ bytes) w
    → Returns (λ (o, w'). (o ≡ some b) × IsIncoming bytes w') (received w)
unfolding received
received-Incoming is_incoming = returns (refl, is_incoming)

received-end : {w : Network} → IsIncoming [] w → Returns (λ (o, w'). o ≡ none) (received w)
unfolding received
received-end is_incoming = returns refl

abbrev delivery : (server : ℕ) (host : List ℕ) (port : ℕ) → Delivery network server host port
delivery server host port = record {
  Listening = IsQuiet;
  Resolved = λ address. IsQuiet;
  Linked = λ fd. IsLinked;
  Sent = IsSent;
  Incoming = λ fd. IsIncoming;
  socket-Listening = λ h. returns h;
  set_reuse-Listening = λ fd h. returns h;
  gethostbyname-Resolved = λ h. returns h;
  connect-Linked = λ fd h. connected-Linked h;
  write-Linked = λ bytes h. written-Linked bytes h;
  shutdown-Sent = λ h. ended-Sent h;
  close-Sent = λ fd h. h;
  accept-Incoming = λ h. accepted-Incoming h;
  read-Incoming = λ h. received-Incoming h;
  read-end = λ h. received-end h;
}

abbrev pub server : ServerData
server = record { socket = 3; port = 4321 }

main-irq_rounds_example :
    Returns
      (λ w'.
        Returns
          (λ (place, left, arm'). (place ≡ accepting) × (arm' ≡ arm_exception moves_core 1))
          (irq_rounds network 3 server accepting w' moves_core))
      (Irq.main network (codes "localhost" ∷ codes "4321" ∷ codes "reset" ∷ []) quiet)
unfolding prog.Names.arm_get_exception_name prog.Names.nth prog.Gdb.Text.atoi
    prog.Gdb.Text.skip_space prog.Gdb.Text.text_at prog.Gdb.Text.is_space prog.Gdb.Text.dec_digits
main-irq_rounds_example =
    main-irq_rounds server (delivery 3 (codes "localhost") 4321) 1 (codes "4321") (codes "reset") []
      moves_core (omega arith) (omega arith) refl refl is_quiet
