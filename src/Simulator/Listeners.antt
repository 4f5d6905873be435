-- ===== src/Simulator/Listeners.antt =====
-- A round of `irq_listener`, whatever the system's calls do.
use prog.Prelude.{ℕ, Option, none, some, Ensures, value, after}
use prog.Core.{Core}
use prog.Core.Valid.{IsValid}
use prog.Exception.Reset.{arm_exception-IsValid}
use prog.Sockets.{Sockets}
use prog.Simulator.{irq_received}
use prog.Simulator.Threads.{ServerData, Place, accepting, reading, irq_read, irq_round}

module _ {World : Type 0} (sockets : Sockets World) where
  pub irq_round-IsValid :
      (server : ServerData) (place : Place) (w : World) (arm : Core)
      → IsValid arm
      → Ensures (λ (place', w', arm'). IsValid arm') (irq_round sockets server place w arm)
  unfolding irq_round irq_received
  irq_round-IsValid server accepting w arm valid =
      after (sockets.accept server.socket w) λ accepted. value valid
  irq_round-IsValid server (reading fd) w arm valid =
      after (sockets.read fd w) λ (o, w'). value (after_read o w')
    where
      after_read : (o : Option ℕ) (w' : World) → IsValid (irq_read sockets fd o w' arm).2
      after_read none w' = valid
      after_read (some irq) w' = arm_exception-IsValid irq valid
