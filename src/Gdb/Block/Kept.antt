-- ===== src/Gdb/Block/Kept.antt =====
-- The processor's invariant through the handlers of the memory.
use prog.Prelude.{
  ℕ, zero, suc, ◌<◌, arith, Bool, true, false, List, [], ltb, ◌==◌, choice, after, Ensures, value,
  Ensures-bind,
}
use prog.Word.{add32}
use prog.Memory.{Memory, Status, memory_get_size, memory_write_byte}
use prog.Memory.Spec as Spec
use prog.Memory.Access.{memory_write_byte_lem}
use prog.Memory.Store.{put_byte-IsValid}
use prog.Core.{Core}
use prog.Core.Valid.{IsValid}
use prog.Gdb.{Gdb}
use prog.Gdb.Text.{sscanf_pair, after_index}
use prog.Gdb.Block.{dump, read_memory, fetch_char, unescaped, fill, write_memory_binary}
use prog.Gdb.Kept.{Kept, gdb_send_buffer-Kept, gdb_send_data-Kept}

pub read_memory-Kept :
    (a n : ℕ) (g : Gdb) (s : List ℕ) → IsValid g.arm → Ensures Kept (read_memory a n g s)
unfolding read_memory
read_memory-Kept a n g s valid =
    after (sscanf_pair a n s)
      λ (address, size). after (dump g.arm.mem size address []) λ b. gdb_send_buffer-Kept b g valid

unescaped-lt : (content : List ℕ) → Ensures (λ r. r.0 < 256) (unescaped content)
unfolding unescaped
unescaped-lt content = after (fetch_char content) λ (c, rest).
    choice (Ensures (λ r. r.0 < 256)) (c == 0x7d)
      (after (fetch_char rest) (λ r. value (omega arith))) (value (omega arith))

abbrev KeepsMemory : Bool × Memory → Type 0
KeepsMemory r = Spec.IsValid r.1

write_byte-KeepsMemory :
    {mem : Memory} (a v : ℕ)
    → Spec.IsValid mem
    → v < 256
    → Ensures (λ r. Spec.IsValid r.1) (memory_write_byte mem a v)
write_byte-KeepsMemory {mem} a v valid h = rw (memory_write_byte_lem mem a v) (
    value (
      choice (λ (r : Status × Memory). Spec.IsValid r.1) (ltb a mem.size)
        (put_byte-IsValid valid a v h) valid))

fill-KeepsMemory :
    (left a : ℕ) (ok : Bool) (content : List ℕ) {mem : Memory}
    → Spec.IsValid mem
    → Ensures KeepsMemory (fill left a ok content mem)
unfolding fill
fill-KeepsMemory zero a ok content valid = value valid
fill-KeepsMemory (suc left) a false content valid = value valid
fill-KeepsMemory (suc left) a true content valid =
    Ensures-bind (unescaped-lt content) λ (v, rest) h.
      Ensures-bind (write_byte-KeepsMemory a v valid h)
        λ (status, mem') k. fill-KeepsMemory left (add32 a 1) _ rest k

with_memory :
    {p : Core} {mem : Memory} → IsValid p → Spec.IsValid mem → IsValid (record p { mem = mem })
with_memory valid h = record { word = valid.word; user = valid.user; memory = h }

pub write_memory_binary-Kept :
    (a n : ℕ) (g : Gdb) (s : List ℕ) → IsValid g.arm → Ensures Kept (write_memory_binary a n g s)
unfolding write_memory_binary
write_memory_binary-Kept a n g s valid = after (sscanf_pair a n s) λ (address, size).
    after (after_index b':' s) λ content.
      Ensures-bind
        (fill-KeepsMemory size address (ltb address (memory_get_size g.arm.mem)) content
          valid.memory)
        λ (ok, mem') h.
          choice (Ensures Kept) ok (gdb_send_data-Kept _ _ (with_memory valid h))
            (gdb_send_data-Kept _ _ (with_memory valid h))
