-- ===== src/Gdb/Packets.antt =====
-- The table of handlers, and what is done with a packet.
pub mod Framing
pub mod Valid
use prog.Prelude.{
  ℕ, zero, suc, ◌+◌, ◌-◌, max, Option, none, some, List, [], ◌∷◌, ◌++◌, ◌==◌, if◌then◌else◌, Run,
  ret, undefined, ◌>>=◌, length, take, drop, codes,
}
use prog.Memory.{Host}
use prog.Gdb.{
  Gdb, happens, locked, unlocked, gdb_send_ack, gdb_require_retransmission, gdb_send_data,
  check_sum,
}
use prog.Gdb.Text.{scan_x}
use prog.Gdb.Answers.{kill_request, query, reason, set_thread}
use prog.Gdb.Registers.{
  read_general_registers, read_register, write_general_registers, write_register,
}
use prog.Gdb.Block.{read_memory, write_memory_binary}
use prog.Gdb.Stepping.{step, cont}

pub data Handler : Type 0 where
  continues kills queries reads_general reads_memory reads_register reasons sets_thread steps :
      Handler
  writes_general writes_memory writes_register : Handler

-- `handler[index]` after `gdb_init`.
unfoldable pub gdb_init : ℕ → Option Handler
gdb_init index =
    if index == b'c'
    then some continues
    else if index == b'k'
    then some kills
    else if index == b'q'
    then some queries
    else if index == b'g'
    then some reads_general
    else if index == b'm'
    then some reads_memory
    else if index == b'p'
    then some reads_register
    else if index == b'?'
    then some reasons
    else if index == b'H'
    then some sets_thread
    else if index == b's'
    then some steps
    else if index == b'G'
    then some writes_general
    else if index == b'X'
    then some writes_memory
    else if index == b'P'
    then some writes_register
    else none

-- What the local variables of the handlers hold before they are assigned.
pub record Locals : Type 0 where
  pub address : ℕ
  pub size : ℕ
  pub reg : ℕ
  pub value : ℕ → ℕ
  pub instruction : ℕ
  pub given : ℕ

abbrev pub ended : Run Gdb → Run (Option Gdb)
ended m = m >>= (λ g. ret (some g))

module _ (host : Host) (target rounds : ℕ) (l : Locals) where
  -- A handler's call; `none` is a `cont` that steps on after so many rounds.
  unfoldable pub handle : Handler → Gdb → List ℕ → Run (Option Gdb)
  handle continues g s = cont host rounds l.instruction g s
  handle kills g s = ended (kill_request g s)
  handle queries g s = ended (query g s)
  handle reads_general g s = ended (read_general_registers host target g s)
  handle reads_memory g s = ended (read_memory l.address l.size g s)
  handle reads_register g s = ended (read_register host target g s)
  handle reasons g s = ended (reason g s)
  handle sets_thread g s = ended (set_thread g s)
  handle steps g s = ended (step host g s)
  handle writes_general g s = ended (write_general_registers host target l.value g s)
  handle writes_memory g s = ended (write_memory_binary l.address l.size g s)
  handle writes_register g s = ended (write_register host target l.reg (l.value 0) g s)

  abbrev pub unlock : Option Gdb → Option Gdb
  unlock none = none
  unlock (some g) = some (happens unlocked g)

  -- What follows the check, on the bytes from the command on.
  unfoldable pub command : Gdb → List ℕ → Run (Option Gdb)
  unfolding handle
  command g [] = undefined
  command g (index ∷ s) = elim (gdb_init index) [
    | none ↦ ended (gdb_send_data (codes "") g)
    | some h ↦ handle h (happens locked g) s >>= (λ o. ret (unlock o))
  ]

  abbrev pub set_byte : ℕ → List ℕ → List ℕ
  set_byte i s = take i s ++ (0 ∷ drop (i + 1) s)

  -- `packet` is the text that the scanner matched, without its terminator: from `$` to the two digits.
  unfoldable pub gdb_packet_analysis : Gdb → List ℕ → Run (Option Gdb)
  unfolding command
  gdb_packet_analysis g packet = do
    let i = max 1 (length packet - 3)
    let check = check_sum 0 (take (i - 1) (drop 1 packet))
    scanned ← scan_x (drop (i + 1) packet ++ (0 ∷ []))
    let given = elim scanned as (λ _. ℕ) [ none ↦ l.given | some (v, _) ↦ v ]
    if check == given
        then command (gdb_send_ack g) (drop 1 (set_byte i packet ++ (0 ∷ [])))
        else ret (some (gdb_require_retransmission g))
