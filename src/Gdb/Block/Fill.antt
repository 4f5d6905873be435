-- ===== src/Gdb/Block/Fill.antt =====
-- What `write_memory_binary` stores.
use prog.Prelude.{
  ℕ, zero, suc, ◌+◌, ◌^◌, ◌<◌, ◌≤◌, ◌≡◌, ◌≢◌, ◌⊎◌, inl, inr, refl, ◌∙◌, arith, Bool, true, false,
  List, [], ◌∷◌, ◌++◌, bit_xor, ltb, leb, ◌==◌, ◌||◌, ◌&&◌, if◌then◌else◌, ret, Bool-cases, ltb→lt,
  ltb→le, length, take, codes,
}
use prog.Word.{add32}
use prog.Memory.{Memory}
use prog.Memory.Spec.{put_byte}
use prog.Memory.Access.{memory_write_byte_lem}
use prog.Gdb.Block.Dump.{available}
use prog.Gdb.{Gdb, gdb_send_data}
use prog.Gdb.Text.{sscanf_pair, after_index}
use prog.Gdb.Block.{fill, unescaped, fetch_char, write_memory_binary}

-- GDB's escape: the bytes of `#`, `$` and `}`, with the bit 5 flipped, after a `}`.
unfoldable pub escaped : List ℕ → List ℕ
escaped [] = []
escaped (v ∷ vs) =
    if (v == b'#') || ((v == b'$') || (v == 0x7d))
    then 0x7d ∷ bit_xor v 0x20 ∷ escaped vs
    else v ∷ escaped vs

-- The memory with the bytes from the address a on.
unfoldable pub put_bytes : Memory → ℕ → List ℕ → Memory
put_bytes mem a [] = mem
put_bytes mem a (v ∷ vs) = put_bytes (put_byte mem a v) (a + 1) vs

-- Bytes are less than 256.
pub data AreBytes : List ℕ → Type 0 where
  no_bytes : AreBytes []
  a_byte : {v : ℕ} {vs : List ℕ} → v < 256 → AreBytes vs → AreBytes (v ∷ vs)

unescaped-plain :
    (v : ℕ) (vs rest : List ℕ)
    → v ≢ 35
    → v ≢ 36
    → v ≢ 125
    → v < 256
    → unescaped (escaped (v ∷ vs) ++ rest) ≡ ret (v, escaped vs ++ rest)
unfolding unescaped fetch_char escaped
unescaped-plain v vs rest a b c h = ground arith

unescaped-special :
    (v : ℕ) (vs rest : List ℕ)
    → (v ≡ 35) ⊎ ((v ≡ 36) ⊎ (v ≡ 125))
    → unescaped (escaped (v ∷ vs) ++ rest) ≡ ret (v, escaped vs ++ rest)
unfolding unescaped fetch_char escaped
unescaped-special v vs rest (inl e) = rw e refl
unescaped-special v vs rest (inr (inl e)) = rw e refl
unescaped-special v vs rest (inr (inr e)) = rw e refl

is_special : (v : ℕ) → ((v ≡ 35) ⊎ ((v ≡ 36) ⊎ (v ≡ 125))) ⊎ ((v ≢ 35) × (v ≢ 36) × (v ≢ 125))
is_special v = ground arith

unescaped-escaped :
    (v : ℕ) (vs rest : List ℕ)
    → v < 256
    → unescaped (escaped (v ∷ vs) ++ rest) ≡ ret (v, escaped vs ++ rest)
unescaped-escaped v vs rest h = elim (is_special v) [
  | inl e ↦ unescaped-special v vs rest e
  | inr (a, b, c) ↦ unescaped-plain v vs rest a b c h
]

fill_refused :
    (left a : ℕ) (content : List ℕ) (mem : Memory)
    → fill left a false content mem ≡ ret (false, mem)
unfolding fill
fill_refused zero a content mem = refl
fill_refused (suc left) a content mem = refl

fill_step :
    (n a v : ℕ) (content rest : List ℕ) (mem : Memory)
    → unescaped content ≡ ret (v, rest)
    → a < mem.size
    → mem.size < 2 ^ 32
    → fill (suc n) a true content mem ≡ fill n (a + 1) true rest (put_byte mem a v)
unfolding fill
fill_step n a v content rest mem e h small =
    let next : add32 a 1 ≡ a + 1 = omega arith in
    let has : ltb a mem.size ≡ true = ground arith in
    rw (e, memory_write_byte_lem mem a v, has, next) refl

fill_outside :
    (n a v : ℕ) (content rest : List ℕ) (mem : Memory)
    → unescaped content ≡ ret (v, rest)
    → mem.size ≤ a
    → fill (suc n) a true content mem ≡ ret (false, mem)
unfolding fill
fill_outside n a v content rest mem e h =
    let past : ltb a mem.size ≡ false = ground arith in
    rw (e, memory_write_byte_lem mem a v, past, fill_refused n (add32 a 1) rest mem) refl

fill_lem :
    (vs rest : List ℕ) (a : ℕ) (mem : Memory)
    → AreBytes vs
    → a ≤ mem.size
    → mem.size < 2 ^ 32
    → fill (length vs) a true (escaped vs ++ rest) mem
      ≡ ret (leb (a + length vs) mem.size, put_bytes mem a (take (available mem (length vs) a) vs))
unfolding put_bytes fill escaped put_byte
fill_lem [] rest a mem no_bytes h small =
    let all : leb (a + 0) mem.size ≡ true = ground arith in
    let none_left : available mem 0 a ≡ 0 = omega arith in rw (all, none_left) refl
fill_lem (v ∷ vs) rest a mem (a_byte b bs) h small = elim (Bool-cases (ltb a mem.size)) [
  | inl inside ↦
      let lt : a < mem.size = ltb→lt a mem.size inside in
      let size : available mem (suc (length vs)) a ≡ suc (available mem (length vs) (a + 1)) =
        omega arith in
      let sum : a + suc (length vs) ≡ a + 1 + length vs = omega arith in
      fill_step (length vs) a v (escaped (v ∷ vs) ++ rest) (escaped vs ++ rest) mem
        (unescaped-escaped v vs rest b) lt small
      ∙ fill_lem vs rest (a + 1) (put_byte mem a v) bs (omega arith) small
      ∙ rw (size, sum) refl
  | inr outside ↦
      let le : mem.size ≤ a = ltb→le a mem.size outside in
      let past : leb (a + suc (length vs)) mem.size ≡ false = ground arith in
      let none_left : available mem (suc (length vs)) a ≡ 0 = omega arith in
      fill_outside (length vs) a v (escaped (v ∷ vs) ++ rest) (escaped vs ++ rest) mem
        (unescaped-escaped v vs rest b) le
      ∙ rw (past, none_left) refl
]

abbrev pub written_reply : Memory → (n a : ℕ) → List ℕ
written_reply mem n a = if ltb a mem.size && leb (a + n) mem.size then codes "OK" else codes "E02"

answered :
    (b : Bool) (g : Gdb)
    → (if b then gdb_send_data (codes "OK") g else gdb_send_data (codes "E02") g)
      ≡ gdb_send_data (if b then codes "OK" else codes "E02") g
answered true g = refl
answered false g = refl

-- In a memory of less than 2 ^ 32 bytes, an `X` packet whose text scans as the address a and the length
-- of the bytes vs, and has these bytes in GDB's escape after its colon: the answer is OK where the
-- address and all bytes are in the memory and else E02. The bytes that the memory has room for are
-- stored in either case.
pub write_memory_binary_lem :
    (g_address g_size : ℕ) (g : Gdb) (s vs rest : List ℕ) (a : ℕ)
    → g.arm.mem.size < 2 ^ 32
    → AreBytes vs
    → sscanf_pair g_address g_size s ≡ ret (a, length vs)
    → after_index b':' s ≡ ret (escaped vs ++ rest)
    → write_memory_binary g_address g_size g s
      ≡ gdb_send_data (written_reply g.arm.mem (length vs) a) (record g {
        arm = record (g.arm) {
          mem = put_bytes g.arm.mem a (take (available g.arm.mem (length vs) a) vs);
        };
      })
unfolding write_memory_binary put_bytes
write_memory_binary_lem g_address g_size g s vs rest a small bytes scanned content =
    elim (Bool-cases (ltb a g.arm.mem.size)) [
      | inl inside ↦
          let le : a ≤ g.arm.mem.size = omega (arith, ltb→lt a g.arm.mem.size inside) in
          rw (scanned, content, inside, fill_lem vs rest a g.arm.mem bytes le small)
            (answered (leb (a + length vs) g.arm.mem.size) _)
      | inr outside ↦
          let none_left : available g.arm.mem (length vs) a ≡ 0 =
            omega (arith, ltb→le a g.arm.mem.size outside) in
          rw
            (
              scanned,
              content,
              outside,
              none_left,
              fill_refused (length vs) a (escaped vs ++ rest) g.arm.mem,
            )
            refl
    ]
