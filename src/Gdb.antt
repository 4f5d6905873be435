-- ===== src/Gdb.antt =====
-- gdb_protocol.c: the answers to GDB, over the core and its memory. `gdb->mem` is the memory of
-- `gdb->arm`: arm_simulator.c passes the same one to both. Calls of the system are recorded as events
-- in their order; what `Rio_writen` does with its bytes is not modelled. The trace and debug messages
-- are left out.
pub mod Text
pub mod Words
pub mod Kept
pub mod Answers
pub mod Registers
pub mod Block
pub mod Stepping
pub mod Packets
use prog.Prelude.{
  ℕ, zero, suc, ◌+◌, ◌-◌, ◌%◌, ◌^◌, Option, none, some, List, [], ◌∷◌, ◌++◌, leb, ltb, ◌==◌,
  if◌then◌else◌, Run, ret, undefined, ◌>>=◌, length, take, codes,
}
use prog.Constants.{undefined_instruction, prefetch_abort, data_abort}
use prog.Core.{Core}
use prog.Gdb.Text.{sprintf_02x}

-- `Rio_writen(gdb->fd, ...)` with these bytes, `shutdown(gdb->fd, SHUT_WR)`, and the calls on the lock
pub data Event : Type 0 where
  written : List ℕ → Event
  shut_down locked unlocked : Event

-- `packet` is the array up to its terminator, MAX_PACKET_SIZE bytes at most with it.
pub record Gdb : Type 0 where
  pub arm : Core
  pub target_exception : ℕ
  pub packet : List ℕ
  pub len : ℕ
  pub events : List Event

abbrev pub max_packet_size : ℕ
max_packet_size = 1024

abbrev pub happens : Event → Gdb → Gdb
happens e g = record g { events = g.events ++ (e ∷ []) }

unfoldable pub gdb_init_data : Core → Gdb
gdb_init_data arm = record { arm = arm; target_exception = 0; packet = []; len = 0; events = [] }

unfoldable pub gdb_send_ack : Gdb → Gdb
gdb_send_ack g = happens (written (codes "+")) g

unfoldable pub gdb_require_retransmission : Gdb → Gdb
gdb_require_retransmission g = happens (written (codes "-")) g

unfoldable pub gdb_transmit_packet : Gdb → Gdb
gdb_transmit_packet g = happens (written (take g.len g.packet)) g

-- The sum of the loops over a packet's bytes.
unfoldable pub check_sum : ℕ → List ℕ → ℕ
check_sum check [] = check
check_sum check (c ∷ s) = check_sum ((check + c) % 256) s

abbrev pub framed : List ℕ → List ℕ
framed text = (b'$' ∷ text) ++ (b'#' ∷ sprintf_02x (check_sum 0 text))

-- The handlers write their answer into `gdb->buffer`, which is `gdb->packet + 1`: here it is the
-- argument. The frame and its terminator take five bytes more.
unfoldable pub gdb_send_buffer : List ℕ → Gdb → Run Gdb
unfolding gdb_transmit_packet
gdb_send_buffer text g =
    if leb (length text + 5) max_packet_size
    then ret (gdb_transmit_packet (record g { packet = framed text; len = length text + 4 }))
    else undefined

-- The text in the buffer with a piece written at its end, which must fit with its terminator.
unfoldable pub written_at_end : List ℕ → List ℕ → Run (List ℕ)
written_at_end buffer piece =
    if ltb (length buffer + length piece + 1) max_packet_size
    then ret (buffer ++ piece)
    else undefined

unfoldable pub gdb_send_data : List ℕ → Gdb → Run Gdb
gdb_send_data text g = written_at_end [] text >>= (λ buffer. gdb_send_buffer buffer g)

unfoldable pub gdb_send_stop_reason : Gdb → Run Gdb
gdb_send_stop_reason g =
    if g.target_exception == undefined_instruction
    then gdb_send_data (codes "S04") g
    else if g.target_exception == prefetch_abort
    then gdb_send_data (codes "S10") g
    else if g.target_exception == data_abort
    then gdb_send_data (codes "S10") g
    else gdb_send_data (codes "S05") g
