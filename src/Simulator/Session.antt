-- ===== src/Simulator/Session.antt =====
-- Packets and interrupts, in the order in which their threads get the lock.
use mathlib.Core.Path.{subst}
use prog.Prelude.{ℕ, ◌<◌, ◌≡◌, refl, arith, List, Option, some, ret, Ensures, value}
use prog.Memory.{Host, memory_create}
use prog.Core.{Core}
use prog.Core.Valid.{IsValid}
use prog.Exception.Reset.{arm_exception-IsValid, arm_create_lem}
use prog.Gdb.{Gdb, gdb_init_data, gdb_transmit_packet, gdb_require_retransmission}
use prog.Gdb.Packets.{Locals, gdb_packet_analysis}
use prog.Gdb.Kept.{KeptIf}
use prog.Gdb.Packets.Valid.{gdb_packet_analysis-KeptIf}
use prog.Simulator.{Settings, start, irq_received}

-- A client's packets and the other calls of its scanner, and requests for interrupts, in any order.
-- `cont` holds the lock while it runs.
pub data Session (host : Host) (target : ℕ) (arm : Core) : Gdb → Type 0 where
  opening : Session host target arm (gdb_init_data arm)
  analysed :
      {g g' : Gdb}
      → Session host target arm g
      → (rounds : ℕ) (l : Locals) (packet : List ℕ)
      → gdb_packet_analysis host target rounds l g packet ≡ ret (some g')
      → Session host target arm g'
  transmitted :
      {g : Gdb} → Session host target arm g → Session host target arm (gdb_transmit_packet g)
  refused :
      {g : Gdb} → Session host target arm g → Session host target arm (gdb_require_retransmission g)
  interrupted :
      {g : Gdb}
      → Session host target arm g
      → (irq : ℕ) → Session host target arm (record g { arm = irq_received irq g.arm })

kept : {P : Option Gdb → Type 0} {o : Option Gdb} → Ensures P (ret o) → P o
kept (value h) = h

Session-IsValid_from :
    (host : Host) (target : ℕ) {arm : Core} {g : Gdb}
    → IsValid arm
    → Session host target arm g
    → IsValid g.arm
unfolding gdb_init_data gdb_transmit_packet gdb_require_retransmission irq_received
Session-IsValid_from host target valid opening = valid
Session-IsValid_from host target valid (analysed before rounds l packet given) = kept (
    subst (Ensures KeptIf) given (
      gdb_packet_analysis-KeptIf host target rounds l _ packet
        (Session-IsValid_from host target valid before)))
Session-IsValid_from host target valid (transmitted before) =
    Session-IsValid_from host target valid before
Session-IsValid_from host target valid (refused before) =
    Session-IsValid_from host target valid before
Session-IsValid_from host target valid (interrupted before irq) =
    arm_exception-IsValid irq (Session-IsValid_from host target valid before)

-- Every processor that packets and interrupts lead to from the one that the simulator starts is valid,
-- whatever bytes its memory's block holds.
pub Session-IsValid :
    {File : Type 0} (host : Host) (target garbage : ℕ) (heap : ℕ → ℕ) (s : Settings File) {g : Gdb}
    → target < 2
    → ((a : ℕ) → heap a < 256)
    → Session host target ((start target heap garbage s).1) g
    → IsValid g.arm
unfolding start memory_create
Session-IsValid host target garbage heap s flag bytes session =
    Session-IsValid_from host target
      (arm_create_lem garbage (memory_create heap 0x2_0000 target)
        record { whole_words = refl; small = omega arith; flag = flag; byte = bytes }).0
      session
