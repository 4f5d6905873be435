-- ===== src/Gdb/Answers.antt =====
-- The handlers that do not look at the core: `query`, `reason`, `set_thread` and `kill_request`.
use prog.Prelude.{
  ℕ, ◌-◌, ◌^◌, ◌&&◌, ◌||◌, List, [], ◌∷◌, ◌==◌, if◌then◌else◌, Run, ret, undefined, ◌>>=◌, codes,
}
use prog.Gdb.{Gdb, happens, shut_down, gdb_send_data, gdb_send_stop_reason}
use prog.Gdb.Text.{text_at, text_eq, starts_with, atoi}

unfoldable pub kill_request : Gdb → List ℕ → Run Gdb
kill_request g s = ret (happens shut_down g)

unfoldable pub query : Gdb → List ℕ → Run Gdb
query g s =
    if text_eq (text_at s) (codes "Offsets")
    then gdb_send_data (codes "Text=0;Data=0;Bss=0") g
    else if starts_with (text_at s) (codes "Supported")
    then gdb_send_data (codes "PacketSize=400") g
    else if text_eq (text_at s) (codes "TStatus")
    then gdb_send_data (codes "T0;tnotrun:0") g
    else if text_eq (text_at s) (codes "Symbol::")
    then gdb_send_data (codes "") g
    else gdb_send_data (codes "") g

unfoldable pub reason : Gdb → List ℕ → Run Gdb
reason g s = gdb_send_stop_reason g

-- The value is an int's 32 bits: below 1 and above -2 are 0 and -1.
unfoldable pub set_thread : Gdb → List ℕ → Run Gdb
set_thread g [] = undefined
set_thread g (kind ∷ s) = do
  value ← atoi s
  if ((kind == b'c') || (kind == b'g')) && ((value == 0) || (value == 2 ^ 32 - 1))
      then gdb_send_data (codes "OK") g
      else gdb_send_data (codes "E01") g
