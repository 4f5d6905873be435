-- ===== src/Scanner/Restore.antt =====
-- The registers that were shown to GDB, sent back as bytes.
use prog.Prelude.{
  ℕ, zero, suc, ◌%◌, ◌≤◌, ◌+◌, ◌≡◌, refl, ◌∙◌, arith, List, [], ◌∷◌, ◌++◌, some, ret, codes,
}
use prog.Memory.{Host}
use prog.Core.{Core, arm_read_cpsr}
use prog.Core.Valid.{IsValid}
use prog.Gdb.{
  Gdb, written, locked, unlocked, framed, check_sum, gdb_init_data, gdb_send_ack, gdb_send_data,
  happens,
}
use prog.Gdb.Text.{sprintf_02x, hex_digit}
use prog.Gdb.Words.{write_bytes, write_uint32}
use prog.Gdb.Registers.{shown_register}
use prog.Gdb.Registers.Reply.{all_registers, registers_text, unknown_text}
use prog.Gdb.Registers.Restore.{SameButSlots, write_general_registers-all_registers}
use prog.Gdb.Packets.{Locals, command, handle, gdb_init}
use prog.Scanner.{gdb_scanner}
use prog.Scanner.Tokens.{IsPlain, plain, plain_end}
use prog.Scanner.Noise.{silence, gdb_scanner-noise}

IsPlain-append : {s t : List ℕ} → IsPlain s → IsPlain t → IsPlain (s ++ t)
IsPlain-append plain_end after = after
IsPlain-append (plain a b rest) after = plain a b (IsPlain-append rest after)

hex_digit-IsPlain : {s : List ℕ} (d : ℕ) → IsPlain s → IsPlain (hex_digit d ∷ s)
unfolding hex_digit
hex_digit-IsPlain d rest = plain (ground arith) (ground arith) rest

mark : {s : List ℕ} → IsPlain s → IsPlain (b'x' ∷ s)
mark rest = plain (omega arith) (omega arith) rest

eight_marks : IsPlain (codes "xxxxxxxx")
eight_marks = mark (mark (mark (mark (mark (mark (mark (mark plain_end)))))))

unknown_text-IsPlain : (left : ℕ) → IsPlain (unknown_text left)
unfolding unknown_text
unknown_text-IsPlain zero = plain_end
unknown_text-IsPlain (suc left) = IsPlain-append eight_marks (unknown_text-IsPlain left)

-- The answer OK.
pub send_ok_lem :
    (g : Gdb)
    → gdb_send_data (codes "OK") g
      ≡ ret (
          happens
            (written (framed (codes "OK")))
            (record g { packet = framed (codes "OK"); len = 6 }))
unfolding gdb_send_data prog.Gdb.gdb_send_buffer prog.Gdb.written_at_end
    prog.Gdb.gdb_transmit_packet sprintf_02x
send_ok_lem g = refl

module _ (host : Host) (target : ℕ) where
  write_uint32-IsPlain : (v : ℕ) → IsPlain (write_uint32 host target v)
  unfolding write_uint32 write_bytes sprintf_02x
  write_uint32-IsPlain v = hex_digit-IsPlain _ (
      hex_digit-IsPlain _ (
        hex_digit-IsPlain _ (
          hex_digit-IsPlain _ (
            hex_digit-IsPlain _
              (hex_digit-IsPlain _ (hex_digit-IsPlain _ (hex_digit-IsPlain _ plain_end)))))))

  registers_text-IsPlain : (p : Core) (left i : ℕ) → IsPlain (registers_text host target p left i)
  unfolding registers_text
  registers_text-IsPlain p zero i = plain_end
  registers_text-IsPlain p (suc left) i =
      IsPlain-append (write_uint32-IsPlain (shown_register p i))
        (registers_text-IsPlain p left (i + 1))

  all_registers-IsPlain : (p : Core) → IsPlain (all_registers host target p)
  unfolding all_registers
  all_registers-IsPlain p =
      IsPlain-append (registers_text-IsPlain p 16 0)
        (IsPlain-append (unknown_text-IsPlain 25) (write_uint32-IsPlain (arm_read_cpsr p)))

  -- The text of the registers of a valid processor with an aligned pc, sent back with `G` in a frame to a
  -- server of any processor: it is acknowledged and, under the lock, answered by OK, and that processor
  -- then holds these registers and the CPSR; its SPSR, mode, memory and cycle count stay.
  pub gdb_scanner-write_registers :
      (rounds : ℕ) (l : ℕ → Locals) (arm : Core) {p : Core}
      → IsValid p
      → p.reg.slots 15 % 4 ≡ 0
      → (q : Core) × (gdb_scanner host target rounds l arm
            (framed (b'G' ∷ all_registers host target p))
          ≡ ret (
              some record {
                gdb = record {
                  arm = q;
                  target_exception = 0;
                  packet = framed (codes "OK");
                  len = 6;
                  events =
                      written (codes "+") ∷ locked ∷ written (framed (codes "OK")) ∷ unlocked ∷ [];
                };
                buffer = [];
              }))
        × ((i : ℕ) → i ≤ 16 → q.reg.slots i ≡ p.reg.slots i)
        × (q.reg.slots 17 ≡ arm.reg.slots 17)
        × SameButSlots arm q
  unfolding command handle gdb_init gdb_init_data gdb_send_ack
  gdb_scanner-write_registers rounds l arm {p} valid aligned =
      let text = all_registers host target p in
      let g = happens locked (gdb_send_ack (gdb_init_data arm)) in
      let (q, answered, slots, spsr, frame) =
        write_general_registers-all_registers host target (l 0).value g
          (0 ∷ (sprintf_02x (check_sum 0 (b'G' ∷ text)) ++ (0 ∷ []))) valid aligned in
      (
        q,
        gdb_scanner-noise host target rounds l arm [] (b'G' ∷ text) silence (omega arith)
              (plain (omega arith) (omega arith) (all_registers-IsPlain p))
            ∙ rw answered (rw (send_ok_lem (record g { arm = q })) refl),
        slots,
        spsr,
        frame,
      )
