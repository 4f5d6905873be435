-- ===== src/Tests/Requests.antt =====
-- Requests from their bytes, at inputs.
use prog.Prelude.{
  ℕ, ◌+◌, ◌≤◌, ◌≡◌, ltb, if◌then◌else◌, refl, arith, [], ◌∷◌, ◌++◌, some, ret, length, codes,
}
use prog.Memory.{little}
use prog.Gdb.{gdb_init_data, Gdb, check_sum, framed, gdb_send_buffer, written, locked, unlocked}
use prog.Gdb.Text.{hex_digit, sprintf_02x, sscanf_pair, after_index}
use prog.Gdb.Block.Dump.{available, bytes_text}
use prog.Scanner.{gdb_scanner}
use prog.Gdb.Words.{write_uint32}
use prog.Gdb.Registers.{shown_register}
use prog.Gdb.Registers.Reply.{all_registers}
use prog.Gdb.Registers.Restore.{SameButSlots}
use prog.Scanner.Restore.{gdb_scanner-write_registers}
use prog.Core.{Core}
use prog.Scanner.Answer.{gdb_scanner-register, gdb_scanner-memory}
use prog.Scanner.Tokens.{plain, plain_end}
use prog.Tests.{moves_core, moves_core-IsValid, moves_core-aligned}
use prog.Tests.Protocol.{locals, moves_core_small}

asked_text-scanned :
    sscanf_pair 0 0
      (codes "8,4" ++ (0 ∷ (sprintf_02x (check_sum 0 (b'm' ∷ codes "8,4")) ++ (0 ∷ []))))
    ≡ ret (8, 4)
unfolding sscanf_pair prog.Gdb.Text.after_comma prog.Gdb.Text.scan_x prog.Gdb.Text.in_range
    prog.Gdb.Text.hex_number prog.Gdb.Text.signed_hex prog.Gdb.Text.unsigned_hex
    prog.Gdb.Text.has_prefix prog.Gdb.Text.some_digits prog.Gdb.Text.hex_digits
    prog.Gdb.Text.digit_of prog.Gdb.Text.text_at prog.Gdb.Text.skip_space prog.Gdb.Text.is_space
asked_text-scanned = refl

gdb_scanner-memory_example :
    gdb_scanner little 1 5 (λ _. locals) moves_core (framed (b'm' ∷ codes "8,4"))
    ≡ ret (
        some record {
          gdb = record {
            arm = moves_core;
            target_exception = 0;
            packet = framed (bytes_text moves_core.mem (available moves_core.mem 4 8) 8);
            len = length (bytes_text moves_core.mem (available moves_core.mem 4 8) 8) + 4;
            events =
                written (codes "+")
                ∷ locked
                ∷ written (framed (bytes_text moves_core.mem (available moves_core.mem 4 8) 8))
                ∷ unlocked
                ∷ [];
          };
          buffer = [];
        })
gdb_scanner-memory_example =
    gdb_scanner-memory little 1 5 (λ _. locals) moves_core (codes "8,4") 8 4
      (plain (omega arith) (omega arith)
        (plain (omega arith) (omega arith) (plain (omega arith) (omega arith) plain_end)))
      asked_text-scanned moves_core_small (omega arith)

gdb_scanner-register_example :
    gdb_scanner little 1 5 (λ _. locals) moves_core (framed (b'p' ∷ hex_digit 10 ∷ []))
    ≡ ret (
        some record {
          gdb = record {
            arm = moves_core;
            target_exception = 0;
            packet =
                framed
                  (write_uint32 little 1 (shown_register moves_core (if ltb 10 10 then 10 else 0)));
            len =
                length
                  (write_uint32 little 1 (shown_register moves_core (if ltb 10 10 then 10 else 0)))
                + 4;
            events =
                written (codes "+")
                ∷ locked
                ∷ written (
                    framed (
                      write_uint32 little 1
                        (shown_register moves_core (if ltb 10 10 then 10 else 0))))
                ∷ unlocked
                ∷ [];
          };
          buffer = [];
        })
gdb_scanner-register_example =
    gdb_scanner-register little 1 5 (λ _. locals) moves_core 10 (omega arith)

gdb_scanner-write_registers_example :
    (q : Core) × (gdb_scanner little 1 5
        (λ _. locals)
        moves_core
        (framed (b'G' ∷ all_registers little 1 moves_core))
      ≡ ret (
          some record {
            gdb = record {
              arm = q;
              target_exception = 0;
              packet = framed (codes "OK");
              len = 6;
              events = written (codes "+") ∷ locked ∷ written (framed (codes "OK")) ∷ unlocked ∷ [];
            };
            buffer = [];
          }))
    × ((i : ℕ) → i ≤ 16 → q.reg.slots i ≡ moves_core.reg.slots i)
    × (q.reg.slots 17 ≡ moves_core.reg.slots 17)
    × SameButSlots moves_core q
gdb_scanner-write_registers_example =
    gdb_scanner-write_registers little 1 5 (λ _. locals) moves_core moves_core-IsValid
      moves_core-aligned
