-- ===== src/Gdb/Block/Dump.antt =====
-- What `read_memory` answers.
use prog.Prelude.{
  ℕ, zero, suc, ◌+◌, ◌*◌, ◌-◌, ◌^◌, ◌<◌, ◌≤◌, ◌≡◌, refl, ◌∙◌, sym, arith, min, Bool-cases, ltb→lt,
  true, false, inl, inr, List, [], ◌++◌, ltb, leb, if◌then◌else◌, ret, undefined, ◌>>=◌, length,
  length-append, append_assoc, append-nil,
}
use prog.Word.{add32}
use prog.Memory.{Memory}
use prog.Memory.Access.{memory_read_byte_lem}
use prog.Gdb.{Gdb, gdb_send_buffer, written_at_end}
use prog.Gdb.Text.{sprintf_02x, sscanf_pair}
use prog.Gdb.Block.{dump, read_memory}

-- n bytes from a on, two digits each.
unfoldable pub bytes_text : Memory → (n a : ℕ) → List ℕ
bytes_text mem zero a = []
bytes_text mem (suc n) a = sprintf_02x (mem.bytes a) ++ bytes_text mem n (a + 1)

-- How many of n bytes from a on the memory has.
abbrev pub available : Memory → (n a : ℕ) → ℕ
available mem n a = min n (mem.size - a)

pub length-bytes_text : (mem : Memory) (n a : ℕ) → length (bytes_text mem n a) ≡ 2 * n
unfolding bytes_text sprintf_02x
length-bytes_text mem zero a = refl
length-bytes_text mem (suc n) a = omega (arith, length-bytes_text mem n (a + 1))

written-fits :
    (buffer : List ℕ) (v : ℕ)
    → length buffer + 3 < 1024
    → written_at_end buffer (sprintf_02x v) ≡ ret (buffer ++ sprintf_02x v)
unfolding written_at_end sprintf_02x
written-fits buffer v h = ground arith

written-overflows :
    (buffer : List ℕ) (v : ℕ)
    → ltb (length buffer + 3) 1024 ≡ false
    → written_at_end buffer (sprintf_02x v) ≡ undefined
unfolding written_at_end sprintf_02x
written-overflows buffer v h = ground arith

module _ (mem : Memory) (small : mem.size < 2 ^ 32) where
  dump_end : (n a : ℕ) (buffer : List ℕ) → mem.size ≤ a → dump mem n a buffer ≡ ret buffer
  unfolding dump
  dump_end zero a buffer h = refl
  dump_end (suc n) a buffer h = rw (memory_read_byte_lem mem a) (ground arith)

  dump_step :
      (n a : ℕ) (buffer : List ℕ)
      → a < mem.size
      → dump mem (suc n) a buffer ≡ (
          written_at_end buffer (sprintf_02x (mem.bytes a))
          >>= (λ buffer'. dump mem n (a + 1) buffer'))
  unfolding dump
  dump_step n a buffer h =
      let next : add32 a 1 ≡ a + 1 = omega arith in
      let has : ltb a mem.size ≡ true = ground arith in
      rw (memory_read_byte_lem mem a, has, next) refl

  dump_none : (n a : ℕ) (buffer : List ℕ) → available mem n a ≡ 0 → dump mem n a buffer ≡ ret buffer
  unfolding dump
  dump_none zero a buffer e = refl
  dump_none (suc n) a buffer e = dump_end (suc n) a buffer (omega (arith, e))

  dump_lem :
      (k n a : ℕ) (buffer : List ℕ)
      → k ≡ available mem n a
      → length buffer + 1 < 1024
      → dump mem n a buffer ≡ (
          if ltb (length buffer + 2 * k + 1) 1024
          then ret (buffer ++ bytes_text mem k a)
          else undefined)
  unfolding bytes_text sprintf_02x
  dump_lem zero n a buffer e room =
      dump_none n a buffer (sym e) ∙ rw (append-nil buffer) (ground arith)
  dump_lem (suc k) zero a buffer e room = absurd (omega (arith, e))
  dump_lem (suc k) (suc n) a buffer e room =
      dump_step n a buffer (omega (arith, e)) ∙ elim (Bool-cases (ltb (length buffer + 3) 1024)) [
        | inl short ↦
            let fits : length buffer + 3 < 1024 = ltb→lt _ _ short in
            let piece = sprintf_02x (mem.bytes a) in
            let longer : length (buffer ++ piece) ≡ length buffer + 2 =
              length-append buffer piece in
            let same : length buffer + 2 + 2 * k + 1 ≡ length buffer + 2 * suc k + 1 =
              omega arith in
            rw
              (
                written-fits buffer (mem.bytes a) fits,
                dump_lem k n (a + 1) (buffer ++ piece) (omega (arith, e)) (omega (arith, longer)),
                longer,
                same,
                append_assoc buffer piece (bytes_text mem k (a + 1)),
              )
              refl
        | inr long ↦ rw (written-overflows buffer (mem.bytes a) long) (ground arith)
      ]

-- An `m` packet whose text scans as the address a and n bytes, of which a memory of less than 2 ^ 32
-- bytes has k from a on: the answer is the k bytes, two digits each, where k is 509 at most. With more of them the frame does not
-- fit in the packet's array, and what the code does is undefined.
pub read_memory_lem :
    (g_address g_size : ℕ) (g : Gdb) (s : List ℕ) (a n : ℕ)
    → g.arm.mem.size < 2 ^ 32
    → sscanf_pair g_address g_size s ≡ ret (a, n)
    → read_memory g_address g_size g s ≡ (
        if leb (available g.arm.mem n a) 509
        then gdb_send_buffer (bytes_text g.arm.mem (available g.arm.mem n a) a) g
        else undefined)
unfolding read_memory gdb_send_buffer
read_memory_lem g_address g_size g s a n small scanned =
    let k = available g.arm.mem n a in
    let wide = length-bytes_text g.arm.mem k a in
    rw (scanned, dump_lem g.arm.mem small k n a [] refl (omega arith)) (ground (arith, wide))
