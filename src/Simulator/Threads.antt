-- ===== src/Simulator/Threads.antt =====
-- arm_simulator.c: the server sockets and the two threads, over the calls of Sockets.
use prog.Prelude.{ℕ, zero, suc, Option, none, some, List, [], ◌∷◌, Run, ret, ◌>>=◌, codes}
use prog.Core.{Core}
use prog.Memory.{Host}
use prog.Gdb.Packets.{Locals}
use prog.Scanner.{ParserData, gdb_scanner}
use prog.Trace.Pieces.{Piece, text, decimal}
use prog.Sockets.{Sockets}
use prog.Simulator.{irq_received}

pub record ServerData : Type 0 where
  pub socket : ℕ
  pub port : ℕ

-- Where the loops of `irq_listener` are: at `Accept`, or at `Read` from a connection.
pub data Place : Type 0 where
  accepting : Place
  reading : ℕ → Place

-- The port that the socket is bound to; the requested one is left where `getsockname` fails.
abbrev bound_port : ℕ → Option ℕ → ℕ
bound_port port none = port
bound_port port (some bound) = bound

abbrev pub announced : List ℕ → ServerData → List Piece
announced what server =
    text (codes "Listening to ") ∷ text what ∷ decimal server.port ∷ text (codes "\n") ∷ []

module _ {World : Type 0} (sockets : Sockets World) where
  unfoldable pub create_server : (port : ℕ) → World → Run (ServerData × World)
  create_server port w = do
    (fd, w1) ← sockets.socket w
    w2 ← sockets.set_reuse fd w1
    w3 ← sockets.bind fd port w2
    w4 ← sockets.listen fd w3
    ret (record { socket = fd; port = bound_port port (sockets.getsockname fd w3) }, w4)

  -- The end of `gdb_listener`, which a `cont` that still runs does not reach.
  abbrev pub hung_up :
      (server connection : ℕ) → World → Option ParserData → Option (ParserData × World)
  hung_up server connection w none = none
  hung_up server connection w (some d) =
      some (d, sockets.close server (sockets.shutdown connection w))

  -- `sent` is what comes on the connection, and `none` where a `cont` still runs. What the scanner writes
  -- and shuts down on the connection stands in its own events.
  unfoldable pub gdb_listener :
      (host : Host) (target rounds : ℕ) (l : ℕ → Locals) (gdb_port : ℕ) (sent : List ℕ)
      → Core
      → World
      → Run (Option (ParserData × World))
  gdb_listener host target rounds l gdb_port sent arm w = do
    (server, w1) ← create_server gdb_port w
    let w2 = sockets.print (announced (codes "gdb connection on port ") server) w1
    (connection, w3) ← sockets.accept server.socket w2
    done ← gdb_scanner host target rounds l arm sent
    ret (hung_up server.socket connection w3 done)

  -- What a call of `Read` leads to: the end of the connection, or one more byte.
  unfoldable pub irq_read : (connection : ℕ) → Option ℕ → World → Core → Place × World × Core
  irq_read connection none w arm = (accepting, sockets.shutdown connection w, arm)
  irq_read connection (some irq) w arm = (reading connection, w, irq_received irq arm)

  -- A round of the loops of `irq_listener`, which has one call that waits.
  unfoldable pub irq_round : ServerData → Place → World → Core → Run (Place × World × Core)
  unfolding irq_read
  irq_round server accepting w arm = do
    (connection, w') ← sockets.accept server.socket w
    ret (reading connection, w', arm)
  irq_round server (reading connection) w arm = do
    (irq, w') ← sockets.read connection w
    ret (irq_read connection irq w' arm)

  -- The loops have no end: so many of their rounds.
  unfoldable pub irq_rounds :
      (rounds : ℕ) → ServerData → Place → World → Core → Run (Place × World × Core)
  unfolding irq_round
  irq_rounds zero server place w arm = ret (place, w, arm)
  irq_rounds (suc rounds) server place w arm = do
    (place', w', arm') ← irq_round server place w arm
    irq_rounds rounds server place' w' arm'

  unfoldable pub irq_listener : (rounds irq_port : ℕ) → Core → World → Run (Place × World × Core)
  unfolding create_server irq_rounds
  irq_listener rounds irq_port arm w = do
    (server, w1) ← create_server irq_port w
    let w2 = sockets.print (announced (codes "irq connections on port ") server) w1
    irq_rounds rounds server accepting w2 arm
