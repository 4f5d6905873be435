-- ===== src/Scanner/WriteRead.antt =====
-- Bytes that GDB writes and reads back on one connection.
use prog.Prelude.{
  ℕ, ◌+◌, ◌*◌, ◌<◌, ◌≤◌, ◌^◌, ◌≡◌, refl, ◌∙◌, arith, true, ltb, leb, ◌&&◌, some, List, [], ◌∷◌,
  ◌++◌, ret, length, take-length, codes,
}
use prog.Memory.{Host}
use prog.Core.{Core}
use prog.Gdb.{written, locked, unlocked, framed, check_sum, gdb_init_data, gdb_send_ack, happens}
use prog.Gdb.Text.{sprintf_02x, sscanf_pair, after_index}
use prog.Gdb.Block.Dump.{available, read_memory_lem}
use prog.Gdb.Block.Fill.{put_bytes, AreBytes, escaped, write_memory_binary_lem}
use prog.Gdb.Block.RoundTrip.{hex_text, size-put_bytes, bytes_text-put_bytes}
use prog.Gdb.Packets.{Locals, command, handle, gdb_init}
use prog.Scanner.{gdb_scanner}
use prog.Scanner.Tokens.{IsPlain, plain}
use prog.Scanner.Answer.{gdb_send_buffer_lem}
use prog.Scanner.Restore.{send_ok_lem}
use prog.Scanner.Requests.{stream, no_requests, request, served, gdb_scanner-stream}

length-hex_text : (vs : List ℕ) → length (hex_text vs) ≡ 2 * length vs
unfolding hex_text sprintf_02x
length-hex_text [] = refl
length-hex_text (v ∷ vs) = omega (arith, length-hex_text vs)

-- The handler's string: the text after the command, and what the check of its frame leaves.
abbrev pub string_of : ℕ → List ℕ → List ℕ
string_of index text = text ++ (0 ∷ (sprintf_02x (check_sum 0 (index ∷ text)) ++ (0 ∷ [])))

module _ (host : Host) (target rounds : ℕ) (l : ℕ → Locals) (arm : Core) where
  -- On one connection, to a memory of less than 2 ^ 32 bytes: an `X` packet whose text is plain, scans as
  -- the address a and the length of the bytes vs and has them in GDB's escape after its colon, and then
  -- an `m` packet whose text is plain and scans as the same address and length, where all of them fit in
  -- the memory and are 509 at most. Both are acknowledged; the first is answered by OK and the second by
  -- the bytes, two digits each, each under the lock; the memory then has the bytes, and nothing else of
  -- the processor is changed.
  pub gdb_scanner-write_read :
      (x m vs rest : List ℕ) (a : ℕ)
      → IsPlain x
      → IsPlain m
      → arm.mem.size < 2 ^ 32
      → AreBytes vs
      → a < arm.mem.size
      → a + length vs ≤ arm.mem.size
      → length vs ≤ 509
      → sscanf_pair (l 0).address (l 0).size (string_of b'X' x) ≡ ret (a, length vs)
      → after_index b':' (string_of b'X' x) ≡ ret (escaped vs ++ rest)
      → sscanf_pair (l 1).address (l 1).size (string_of b'm' m) ≡ ret (a, length vs)
      → gdb_scanner host target rounds l arm (stream ((b'X' ∷ x) ∷ (b'm' ∷ m) ∷ []))
        ≡ ret (
            some record {
              gdb = record {
                arm = record arm { mem = put_bytes arm.mem a vs };
                target_exception = 0;
                packet = framed (hex_text vs);
                len = length (hex_text vs) + 4;
                events =
                    written (codes "+")
                    ∷ locked
                    ∷ written (framed (codes "OK"))
                    ∷ unlocked
                    ∷ written (codes "+")
                    ∷ locked
                    ∷ written (framed (hex_text vs))
                    ∷ unlocked
                    ∷ [];
              };
              buffer = [];
            })
  unfolding command handle gdb_init gdb_init_data gdb_send_ack served
  gdb_scanner-write_read x m vs rest a plain_x plain_m small bytes inside fits short scanned content
        scanned' =
      let mem = arm.mem in
      let after : Core = record arm { mem = put_bytes mem a vs } in
      let g = happens locked (gdb_send_ack (gdb_init_data arm)) in
      let answered =
        happens (written (framed (codes "OK")))
          (record g { arm = after; packet = framed (codes "OK"); len = 6 }) in
      let g' = happens locked (gdb_send_ack (happens unlocked answered)) in
      let size : after.mem.size ≡ mem.size = size-put_bytes vs mem a in
      let all : available mem (length vs) a ≡ length vs = omega arith in
      let whole : available after.mem (length vs) a ≡ length vs = omega (arith, size) in
      let ok : (ltb a mem.size && leb (a + length vs) mem.size) ≡ true = ground arith in
      let enough : leb (length vs) 509 ≡ true = ground arith in
      gdb_scanner-stream host target rounds l arm (
        request (plain (omega arith) (omega arith) plain_x)
          (request (plain (omega arith) (omega arith) plain_m) no_requests))
      ∙ rw
          (
            write_memory_binary_lem (l 0).address (l 0).size g (string_of b'X' x) vs rest a small
                bytes scanned content,
            ok,
            all,
            take-length vs,
            send_ok_lem (record g { arm = after }),
            read_memory_lem (l 1).address (l 1).size g' (string_of b'm' m) a (length vs)
                (omega (arith, size)) scanned',
            whole,
            enough,
            bytes_text-put_bytes vs mem a,
            gdb_send_buffer_lem (hex_text vs) g' (omega (arith, length-hex_text vs)),
          )
          refl
