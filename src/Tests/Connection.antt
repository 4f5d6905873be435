-- ===== src/Tests/Connection.antt =====
-- Requests one after the other, at inputs.
use prog.Prelude.{
  ℕ, ◌+◌, ◌≤◌, ◌≡◌, ◌>>=◌, refl, arith, List, [], ◌∷◌, ◌++◌, some, ret, length, codes,
}
use prog.Memory.{little, memory_create}
use prog.Exception.{arm_create}
use prog.Gdb.{gdb_init_data, Gdb, check_sum, framed, gdb_send_buffer, written, locked, unlocked}
use prog.Gdb.Text.{hex_digit, sprintf_02x, sscanf_pair, after_index}
use prog.Gdb.Block.Fill.{escaped, put_bytes, a_byte, no_bytes}
use prog.Gdb.Block.RoundTrip.{hex_text}
use prog.Scanner.WriteRead.{string_of, gdb_scanner-write_read}
use prog.Scanner.Requests.{stream, served, ArePlain, request, no_requests, gdb_scanner-stream}
use prog.Scanner.{with_gdb, gdb_scanner}
use prog.Core.{Core}
use prog.Scanner.Tokens.{IsPlain, plain, plain_end}
use prog.Tests.{moves_core}
use prog.Tests.Protocol.{locals, new_bytes, moves_core_small}

moves_core_wide : 64 ≤ moves_core.mem.size
unfolding arm_create prog.Exception.arm_exception prog.Core.arm_write_usr_register
    prog.Core.arm_write_cpsr memory_create prog.Memory.Spec.put_word
moves_core_wide = omega arith

-- 0x24 is escaped
abbrev new_text : List ℕ
new_text = codes "8,2:}" ++ (4 ∷ 5 ∷ [])

new_text-scanned : sscanf_pair 0 0 (string_of b'X' new_text) ≡ ret (8, length new_bytes)
unfolding sscanf_pair prog.Gdb.Text.after_comma prog.Gdb.Text.scan_x prog.Gdb.Text.in_range
    prog.Gdb.Text.hex_number prog.Gdb.Text.signed_hex prog.Gdb.Text.unsigned_hex
    prog.Gdb.Text.has_prefix prog.Gdb.Text.some_digits prog.Gdb.Text.hex_digits
    prog.Gdb.Text.digit_of prog.Gdb.Text.text_at prog.Gdb.Text.skip_space prog.Gdb.Text.is_space
new_text-scanned = refl

new_text-content :
    after_index b':' (string_of b'X' new_text)
    ≡ ret (escaped new_bytes ++ (0 ∷ (sprintf_02x (check_sum 0 (b'X' ∷ new_text)) ++ (0 ∷ []))))
unfolding after_index escaped
new_text-content = refl

read_text-scanned : sscanf_pair 0 0 (string_of b'm' (codes "8,2")) ≡ ret (8, length new_bytes)
unfolding sscanf_pair prog.Gdb.Text.after_comma prog.Gdb.Text.scan_x prog.Gdb.Text.in_range
    prog.Gdb.Text.hex_number prog.Gdb.Text.signed_hex prog.Gdb.Text.unsigned_hex
    prog.Gdb.Text.has_prefix prog.Gdb.Text.some_digits prog.Gdb.Text.hex_digits
    prog.Gdb.Text.digit_of prog.Gdb.Text.text_at prog.Gdb.Text.skip_space prog.Gdb.Text.is_space
read_text-scanned = refl

read_text-IsPlain : IsPlain (codes "8,2")
read_text-IsPlain =
    plain (omega arith) (omega arith)
      (plain (omega arith) (omega arith) (plain (omega arith) (omega arith) plain_end))

new_text-IsPlain : IsPlain new_text
new_text-IsPlain = plain (omega arith) (omega arith) (
    plain (omega arith) (omega arith) (
      plain (omega arith) (omega arith) (
        plain (omega arith) (omega arith) (
          plain (omega arith) (omega arith)
            (plain (omega arith) (omega arith) (plain (omega arith) (omega arith) plain_end))))))

gdb_scanner-write_read_example :
    gdb_scanner little 1 5
      (λ _. locals)
      moves_core
      (stream ((b'X' ∷ new_text) ∷ (b'm' ∷ codes "8,2") ∷ []))
    ≡ ret (
        some record {
          gdb = record {
            arm = record moves_core { mem = put_bytes moves_core.mem 8 new_bytes };
            target_exception = 0;
            packet = framed (hex_text new_bytes);
            len = length (hex_text new_bytes) + 4;
            events =
                written (codes "+")
                ∷ locked
                ∷ written (framed (codes "OK"))
                ∷ unlocked
                ∷ written (codes "+")
                ∷ locked
                ∷ written (framed (hex_text new_bytes))
                ∷ unlocked
                ∷ [];
          };
          buffer = [];
        })
gdb_scanner-write_read_example =
    gdb_scanner-write_read little 1 5 (λ _. locals) moves_core new_text (codes "8,2") new_bytes
      (0 ∷ (sprintf_02x (check_sum 0 (b'X' ∷ new_text)) ++ (0 ∷ []))) 8 new_text-IsPlain
      read_text-IsPlain moves_core_small (a_byte (omega arith) (a_byte (omega arith) no_bytes))
      (omega (arith, moves_core_wide)) (omega (arith, moves_core_wide)) (omega arith)
      new_text-scanned new_text-content read_text-scanned

-- a request for the registers, and one for a register
two_requests : ArePlain (codes "g" ∷ codes "p1" ∷ [])
two_requests = request (plain (omega arith) (omega arith) plain_end) (
    request (plain (omega arith) (omega arith) (plain (omega arith) (omega arith) plain_end))
      no_requests)

gdb_scanner-stream_example :
    gdb_scanner little 1 5 (λ _. locals) moves_core (stream (codes "g" ∷ codes "p1" ∷ [])) ≡ (
      served little 1 5 (λ _. locals) 0 (codes "g" ∷ codes "p1" ∷ []) (gdb_init_data moves_core)
      >>= (λ o. ret (with_gdb o)))
gdb_scanner-stream_example = gdb_scanner-stream little 1 5 (λ _. locals) moves_core two_requests
