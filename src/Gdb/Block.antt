-- ===== src/Gdb/Block.antt =====
-- The handlers of the memory, `read_memory` and `write_memory_binary`.
pub mod Dump
pub mod Fill
pub mod RoundTrip
pub mod Kept
use prog.Prelude.{
  ℕ, zero, suc, ◌+◌, ◌*◌, ◌-◌, ◌%◌, ◌^◌, Bool, true, false, Option, none, some, List, [], ◌∷◌, ◌++◌,
  bit_xor, ltb, leb, ◌==◌, if◌then◌else◌, Run, ret, undefined, exited, ◌>>=◌, drop, codes,
}
use prog.Word.{u8, add32}
use prog.Memory.{
  Memory, Status, success, failure, memory_get_size, memory_read_byte, memory_write_byte,
}
use prog.Core.{Core}
use prog.Gdb.{Gdb, gdb_send_data, gdb_send_buffer, written_at_end}
use prog.Gdb.Text.{sprintf_02x, sscanf_pair, after_index}

-- The `while` loop of `read_memory`: it ends after `size` bytes, or where a byte cannot be read.
unfoldable pub dump : Memory → (size address : ℕ) → List ℕ → Run (List ℕ)
dump mem zero address buffer = ret buffer
dump mem (suc size) address buffer = do
  read ← memory_read_byte mem address
  elim read [
    | none ↦ ret buffer
    | some value ↦
        written_at_end buffer (sprintf_02x value)
        >>= (λ buffer'. dump mem size (add32 address 1) buffer')
  ]

-- `g_address` and `g_size` are what `address` and `size` hold before the scan.
unfoldable pub read_memory : (g_address g_size : ℕ) → Gdb → List ℕ → Run Gdb
unfolding dump
read_memory g_address g_size g s = do
  (address, size) ← sscanf_pair g_address g_size s
  buffer ← dump g.arm.mem size address []
  gdb_send_buffer buffer g

-- `*content` and the pointer after it.
unfoldable pub fetch_char : List ℕ → Run (ℕ × List ℕ)
fetch_char [] = undefined
fetch_char (c ∷ s) = ret (c, s)

-- The byte that the content gives, with 0x7d as the escape, and the content after it.
unfoldable pub unescaped : List ℕ → Run (ℕ × List ℕ)
unfolding fetch_char
unescaped content = do
  (c, rest) ← fetch_char content
  if c == 0x7d
      then fetch_char rest >>= (λ next. ret (u8 (bit_xor next.0 0x20), next.1))
      else ret (u8 c, rest)

-- The `for` loop of `write_memory_binary`, with `left` rounds to go; the flag is `write_ok`.
unfoldable pub fill : (left address : ℕ) → Bool → List ℕ → Memory → Run (Bool × Memory)
fill zero address ok content mem = ret (ok, mem)
fill (suc left) address false content mem = ret (false, mem)
fill (suc left) address true content mem = do
  (value, rest) ← unescaped content
  (status, mem') ← memory_write_byte mem address value
  fill left (add32 address 1) (elim status as (λ _. Bool) [ success ↦ true | failure ↦ false ]) rest
      mem'

unfoldable pub write_memory_binary : (g_address g_size : ℕ) → Gdb → List ℕ → Run Gdb
unfolding fill
write_memory_binary g_address g_size g s = do
  (address, size) ← sscanf_pair g_address g_size s
  content ← after_index b':' s
  (ok, mem') ← fill size address (ltb address (memory_get_size g.arm.mem)) content g.arm.mem
  let g' = record g { arm = record (g.arm) { mem = mem' } }
  if ok then gdb_send_data (codes "OK") g' else gdb_send_data (codes "E02") g'
