-- ===== src/Tests/Protocol.antt =====
-- What GDB asks for, at inputs.
use prog.Prelude.{
  ℕ, ◌+◌, ◌*◌, ◌^◌, ◌<◌, ◌≡◌, refl, arith, List, [], ◌∷◌, ◌++◌, some, leb, ◌==◌, if◌then◌else◌, ret,
  undefined, ◌>>=◌, length, take, codes,
}
use prog.Memory.{Host, little, big, Memory, memory_create}
use prog.Core.{Core, arm_write_register}
use prog.Instruction.{arm_step}
use prog.Exception.{arm_create}
use prog.Gdb.{
  Gdb, gdb_init_data, gdb_send_ack, gdb_require_retransmission, gdb_send_buffer, gdb_send_data,
  gdb_send_stop_reason, check_sum, framed,
}
use prog.Gdb.Text.{hex_digit, sprintf_02x, sscanf_pair, after_index}
use prog.Gdb.Registers.Reply.{all_registers}
use prog.Gdb.Block.{read_memory, write_memory_binary}
use prog.Gdb.Block.Dump.{available, bytes_text, read_memory_lem}
use prog.Gdb.Block.Fill.{
  a_byte, no_bytes, escaped, put_bytes, written_reply, write_memory_binary_lem,
}
use prog.Gdb.Stepping.{step}
use prog.Gdb.Stepping.Stop.{step_lem}
use prog.Gdb.Packets.{Locals, command, gdb_packet_analysis}
use prog.Gdb.Packets.Framing.{gdb_packet_analysis_lem}
use prog.Scanner.{gdb_scanner, with_gdb}
use prog.Scanner.Answer.{gdb_scanner-registers}
use prog.Gdb.{written, locked, unlocked}
use prog.Scanner.Tokens.{plain, plain_end}
use prog.Scanner.Noise.{IsNoise, noise, silence, asked, gdb_scanner-noise}
use prog.Tests.{moves_core, moves_core-IsValid}

abbrev connected : Gdb
connected = record { arm = moves_core; target_exception = 0; packet = []; len = 0; events = [] }

abbrev pub locals : Locals
locals = record { address = 0; size = 0; reg = 0; value = λ _. 0; instruction = 0; given = 0 }

abbrev asked_bytes : List ℕ
asked_bytes = codes "8,4" ++ (0 ∷ [])

pub moves_core_small : moves_core.mem.size < 2 ^ 32
unfolding arm_create prog.Exception.arm_exception prog.Core.arm_write_usr_register
    prog.Core.arm_write_cpsr memory_create prog.Memory.Spec.put_word
moves_core_small = omega arith

asked_bytes-scanned : sscanf_pair 0 0 asked_bytes ≡ ret (8, 4)
unfolding sscanf_pair prog.Gdb.Text.after_comma prog.Gdb.Text.scan_x prog.Gdb.Text.in_range
    prog.Gdb.Text.hex_number prog.Gdb.Text.signed_hex prog.Gdb.Text.unsigned_hex
    prog.Gdb.Text.has_prefix prog.Gdb.Text.some_digits prog.Gdb.Text.hex_digits
    prog.Gdb.Text.digit_of prog.Gdb.Text.text_at prog.Gdb.Text.skip_space prog.Gdb.Text.is_space
asked_bytes-scanned = refl

read_memory_lem_example : read_memory 0 0 connected asked_bytes ≡ (
    if leb (available moves_core.mem 4 8) 509
    then gdb_send_buffer (bytes_text moves_core.mem (available moves_core.mem 4 8) 8) connected
    else undefined)
read_memory_lem_example =
    read_memory_lem 0 0 connected asked_bytes 8 4 moves_core_small asked_bytes-scanned

-- 0x24 is escaped
abbrev pub new_bytes : List ℕ
new_bytes = 0x24 ∷ 5 ∷ []

abbrev sent_bytes : List ℕ
sent_bytes = codes "8,2:}" ++ (4 ∷ 5 ∷ 0 ∷ [])

sent_bytes-scanned : sscanf_pair 0 0 sent_bytes ≡ ret (8, length new_bytes)
unfolding sscanf_pair prog.Gdb.Text.after_comma prog.Gdb.Text.scan_x prog.Gdb.Text.in_range
    prog.Gdb.Text.hex_number prog.Gdb.Text.signed_hex prog.Gdb.Text.unsigned_hex
    prog.Gdb.Text.has_prefix prog.Gdb.Text.some_digits prog.Gdb.Text.hex_digits
    prog.Gdb.Text.digit_of prog.Gdb.Text.text_at prog.Gdb.Text.skip_space prog.Gdb.Text.is_space
sent_bytes-scanned = refl

sent_bytes-content : after_index b':' sent_bytes ≡ ret (escaped new_bytes ++ (0 ∷ []))
unfolding after_index escaped
sent_bytes-content = refl

write_memory_binary_lem_example :
    write_memory_binary 0 0 connected sent_bytes
    ≡ gdb_send_data (written_reply moves_core.mem (length new_bytes) 8) (record connected {
      arm = record moves_core {
        mem =
            put_bytes moves_core.mem 8
              (take (available moves_core.mem (length new_bytes) 8) new_bytes);
      };
    })
write_memory_binary_lem_example =
    write_memory_binary_lem 0 0 connected sent_bytes new_bytes (0 ∷ []) 8 moves_core_small
      (a_byte (omega arith) (a_byte (omega arith) no_bytes)) sent_bytes-scanned sent_bytes-content

step_lem_example : step little connected [] ≡ (
    arm_step little moves_core >>= (λ (result, p).
      gdb_send_data (codes "S05") (record connected { arm = p; target_exception = result })))
step_lem_example = step_lem little connected [] moves_core-IsValid

gdb_packet_analysis_lem_example :
    gdb_packet_analysis little 1 5 locals connected
      ((b'$' ∷ codes "g") ++ (b'#' ∷ hex_digit 6 ∷ hex_digit 7 ∷ []))
    ≡ (if check_sum 0 (codes "g") == (6 * 16 + 7)
        then command little 1 5 locals
            (gdb_send_ack connected)
            (codes "g" ++ (0 ∷ hex_digit 6 ∷ hex_digit 7 ∷ 0 ∷ []))
        else ret (some (gdb_require_retransmission connected)))
gdb_packet_analysis_lem_example =
    gdb_packet_analysis_lem little 1 5 locals connected (codes "g") 6 7 (omega arith) (omega arith)

two_noises : IsNoise (codes "xy")
two_noises =
    noise (omega arith) (omega arith) (omega arith) (omega arith)
      (noise (omega arith) (omega arith) (omega arith) (omega arith) silence)

gdb_scanner-noise_example :
    gdb_scanner little 1 5 (λ _. locals) moves_core (codes "xy" ++ framed (codes "g")) ≡ (
      command little 1 5 locals
        (gdb_send_ack (asked (codes "xy") (gdb_init_data moves_core)))
        (codes "g" ++ (0 ∷ (sprintf_02x (check_sum 0 (codes "g")) ++ (0 ∷ []))))
      >>= (λ o. ret (with_gdb o)))
gdb_scanner-noise_example =
    gdb_scanner-noise little 1 5 (λ _. locals) moves_core (codes "xy") (codes "g") two_noises
      (omega arith) (plain (omega arith) (omega arith) plain_end)

gdb_scanner-registers_example :
    gdb_scanner little 1 5 (λ _. locals) moves_core (framed (codes "g"))
    ≡ ret (
        some record {
          gdb = record {
            arm = moves_core;
            target_exception = 0;
            packet = framed (all_registers little 1 moves_core);
            len = length (all_registers little 1 moves_core) + 4;
            events =
                written (codes "+")
                ∷ locked
                ∷ written (framed (all_registers little 1 moves_core))
                ∷ unlocked
                ∷ [];
          };
          buffer = [];
        })
gdb_scanner-registers_example = gdb_scanner-registers little 1 5 (λ _. locals) moves_core
