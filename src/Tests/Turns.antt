-- ===== src/Tests/Turns.antt =====
-- Turns of the two threads, at inputs.
use prog.Prelude.{ℕ, ◌≡◌, ◌≢◌, refl, arith, some, some_injective, [], ret, Ensures, value, codes}
use prog.Tests.Protocol.{locals}
use prog.Tests.Programs.{settings}
use prog.Tests.Network.{Network, network, incoming, sent, server}
use prog.Constants.{reset}
use prog.Memory.{little}
use prog.Core.{Core}
use prog.Gdb.{gdb_init_data}
use prog.Scanner.{ParserData, Token, ack, scan, gdb_scanner}
use prog.Scanner.Valid.{IsSound}
use prog.Sockets.{Sockets}
use prog.Simulator.{start, irq_received}
use prog.Simulator.Threads.{Place, accepting, reading}
use prog.Simulator.Interleaving.{
  Process, Interleaving, none_yet, gdb_turn, irq_turn, starting, Interleaving-gdb_scanner,
  Interleaving-IsSound,
}

-- a network that always has the byte 6 to read
abbrev six : Sockets Network
six = record network { read = λ fd w. ret (some 6, w) }

other_byte : some 6 ≢ some reset
other_byte e = different (some_injective e)
  where
    different : 6 ≢ reset
    different = omega arith

six_calm : (fd : ℕ) (w : Network) → Ensures (λ (o, w'). o ≢ some reset) (six.read fd w)
six_calm fd w = value other_byte

abbrev first_core : Core
first_core = (start 0 (λ _. 0) 0 settings).1

-- the interrupts' thread has accepted a connection and read a byte, and then GDB's `+` has come
abbrev now : Process Network
now = record {
  world = incoming [];
  place = reading 5;
  count = 1;
  left = [];
  parser = record { gdb = gdb_init_data (irq_received 6 first_core); buffer = [] };
}

turns :
    Interleaving six server little 0 9
      (λ _. locals)
      (starting six server little 0 9 (λ _. locals) first_core (codes "+") (sent []))
      now
unfolding starting prog.Scanner.tokens prog.Scanner.act prog.Scanner.handle_error
    prog.Gdb.gdb_init_data prog.Simulator.Threads.irq_round prog.Simulator.Threads.irq_read
    prog.Tests.Network.accepted
turns = gdb_turn (irq_turn (irq_turn none_yet refl) refl) refl

Interleaving-gdb_scanner_example :
    gdb_scanner little 0 9 (λ _. locals) first_core (codes "+")
    ≡ scan little 0 9 (λ _. locals) 1 [] now.parser
Interleaving-gdb_scanner_example =
    Interleaving-gdb_scanner six server little 0 9 (λ _. locals) six_calm first_core (codes "+")
      (sent []) turns

Interleaving-IsSound_example : IsSound now.parser
Interleaving-IsSound_example =
    Interleaving-IsSound six server little 0 9 (λ _. locals) 0 (λ _. 0) settings (codes "+")
      (sent []) (omega arith) (λ _. omega arith) turns
