-- ===== src/Gdb/Kept.antt =====
-- The processor through the functions that send answers.
use prog.Prelude.{
  ℕ, ◌+◌, List, [], Option, none, some, leb, ◌==◌, length, choice, after, Ensures, value, no_value,
}
use prog.Core.Valid.{IsValid}
use prog.Gdb.{
  Gdb, gdb_send_buffer, gdb_send_data, gdb_send_stop_reason, written_at_end, gdb_transmit_packet,
}

abbrev pub Kept : Gdb → Type 0
Kept g = IsValid g.arm

-- The core is valid, if the packet's command has ended.
abbrev pub KeptIf : Option Gdb → Type 0
KeptIf none = Unit {0}
KeptIf (some g) = IsValid g.arm

pub gdb_send_buffer-Kept :
    (t : List ℕ) (g : Gdb) → IsValid g.arm → Ensures Kept (gdb_send_buffer t g)
unfolding gdb_send_buffer gdb_transmit_packet
gdb_send_buffer-Kept t g valid =
    choice (Ensures Kept) (leb (length t + 5) 1024) (value valid) no_value

pub gdb_send_data-Kept : (t : List ℕ) (g : Gdb) → IsValid g.arm → Ensures Kept (gdb_send_data t g)
unfolding gdb_send_data
gdb_send_data-Kept t g valid = after (written_at_end [] t) (λ b. gdb_send_buffer-Kept b g valid)

pub gdb_send_stop_reason-Kept : (g : Gdb) → IsValid g.arm → Ensures Kept (gdb_send_stop_reason g)
unfolding gdb_send_stop_reason
gdb_send_stop_reason-Kept g valid =
    choice (Ensures Kept) (g.target_exception == 2) (gdb_send_data-Kept _ g valid) (
      choice (Ensures Kept) (g.target_exception == 4) (gdb_send_data-Kept _ g valid) (
        choice (Ensures Kept) (g.target_exception == 5) (gdb_send_data-Kept _ g valid)
          (gdb_send_data-Kept _ g valid)))
