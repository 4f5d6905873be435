-- ===== src/Scanner/Answer.antt =====
-- From the bytes of a request to those of its answer.
use prog.Prelude.{
  ℕ, ◌+◌, ◌^◌, ◌<◌, ◌≤◌, ◌≡◌, ◌≢◌, ltb, if◌then◌else◌, refl, ap, sym, ◌∙◌, arith, true, List, [],
  ◌∷◌, ◌++◌, some, leb, ret, length, length-append, take, take-length, codes,
}
use prog.Memory.{Host}
use prog.Core.{Core, arm_read_cpsr}
use prog.Gdb.{
  Gdb, written, locked, unlocked, framed, check_sum, gdb_init_data, gdb_send_ack, gdb_send_buffer,
  gdb_transmit_packet, happens,
}
use prog.Gdb.Text.{sprintf_02x, hex_digit}
use prog.Gdb.Registers.{shown_register}
use prog.Gdb.Registers.Single.{read_register_lem}
use prog.Gdb.Words.{write_uint32}
use prog.Gdb.Registers.Reply.{
  all_registers, registers_text, unknown_text, length-registers_text, length-unknown_text,
  length-write_uint32, read_general_registers_lem,
}
use prog.Gdb.Packets.{Locals, command, handle, gdb_init}
use prog.Scanner.{gdb_scanner}
use prog.Gdb.Text.{sscanf_pair}
use prog.Gdb.Block.Dump.{available, bytes_text, length-bytes_text, read_memory_lem}
use prog.Scanner.Tokens.{IsPlain, plain, plain_end}
use prog.Scanner.Noise.{silence, gdb_scanner-noise}

length-framed : (t : List ℕ) → length (framed t) ≡ length t + 4
unfolding sprintf_02x
length-framed t = omega (arith, length-append t (b'#' ∷ sprintf_02x (check_sum 0 t)))

-- The whole frame is sent.
pub gdb_send_buffer_lem :
    (t : List ℕ) (g : Gdb)
    → length t + 5 ≤ 1024
    → gdb_send_buffer t g
      ≡ ret (happens (written (framed t)) (record g { packet = framed t; len = length t + 4 }))
unfolding gdb_send_buffer gdb_transmit_packet
gdb_send_buffer_lem t g h =
    let whole : take (length t + 4) (framed t) ≡ framed t =
      ap (λ n. take n (framed t)) (sym (length-framed t)) ∙ take-length (framed t) in
    let fits : leb (length t + 5) 1024 ≡ true = ground (arith, h) in rw (fits, whole) refl

hex_digit_plain : (d : ℕ) → d < 16 → (hex_digit d ≢ b'$') × (hex_digit d ≢ b'#')
unfolding hex_digit
hex_digit_plain d h = (ground arith, ground arith)

module _ (host : Host) (target rounds : ℕ) (l : ℕ → Locals) (arm : Core) where
  length-all_registers : length (all_registers host target arm) ≡ 336
  unfolding all_registers
  length-all_registers =
      let tail = unknown_text 25 ++ write_uint32 host target (arm_read_cpsr arm) in
      omega (
        arith,
        length-append (registers_text host target arm 16 0) tail,
        length-append (unknown_text 25) (write_uint32 host target (arm_read_cpsr arm)),
        length-registers_text host target arm 16 0,
        length-unknown_text 25,
        length-write_uint32 host target (arm_read_cpsr arm),
      )

  -- A request for the registers, in its frame, is acknowledged and, under the lock, answered by the frame
  -- of their text; the processor stays as it was.
  pub gdb_scanner-registers :
      let text = all_registers host target arm in
      gdb_scanner host target rounds l arm (framed (codes "g"))
      ≡ ret (
          some record {
            gdb = record {
              arm = arm;
              target_exception = 0;
              packet = framed text;
              len = length text + 4;
              events = written (codes "+") ∷ locked ∷ written (framed text) ∷ unlocked ∷ [];
            };
            buffer = [];
          })
  unfolding command handle gdb_init gdb_init_data gdb_send_ack
  gdb_scanner-registers =
      let text = all_registers host target arm in
      gdb_scanner-noise host target rounds l arm [] (codes "g") silence (omega arith)
        (plain (omega arith) (omega arith) plain_end)
      ∙ rw
          (
            read_general_registers_lem host target
                (happens locked (gdb_send_ack (gdb_init_data arm)))
                (0 ∷ (sprintf_02x (check_sum 0 (codes "g")) ++ (0 ∷ []))),
            gdb_send_buffer_lem text (happens locked (gdb_send_ack (gdb_init_data arm)))
                (omega (arith, length-all_registers)),
          )
          refl

  -- A request for memory, in its frame, whose text is plain and scans as the address a and n bytes, of
  -- which a memory of less than 2 ^ 32 bytes has k from a on, 509 at most: it is acknowledged and, under
  -- the lock, answered by the frame of these k bytes, two digits each; the processor stays as it was.
  pub gdb_scanner-memory :
      (request : List ℕ) (a n : ℕ)
      → IsPlain request
      → sscanf_pair
          (l 0).address
          (l 0).size
          (request ++ (0 ∷ (sprintf_02x (check_sum 0 (b'm' ∷ request)) ++ (0 ∷ []))))
        ≡ ret (a, n)
      → arm.mem.size < 2 ^ 32
      → available arm.mem n a ≤ 509
      → let text = bytes_text arm.mem (available arm.mem n a) a in
        gdb_scanner host target rounds l arm (framed (b'm' ∷ request))
        ≡ ret (
            some record {
              gdb = record {
                arm = arm;
                target_exception = 0;
                packet = framed text;
                len = length text + 4;
                events = written (codes "+") ∷ locked ∷ written (framed text) ∷ unlocked ∷ [];
              };
              buffer = [];
            })
  unfolding command handle gdb_init gdb_init_data gdb_send_ack
  gdb_scanner-memory request a n unmarked scanned small short =
      let text = bytes_text arm.mem (available arm.mem n a) a in
      let g = happens locked (gdb_send_ack (gdb_init_data arm)) in
      let fits : leb (available arm.mem n a) 509 ≡ true = ground (arith, short) in
      let wide = length-bytes_text arm.mem (available arm.mem n a) a in
      gdb_scanner-noise host target rounds l arm [] (b'm' ∷ request) silence (omega arith)
        (plain (omega arith) (omega arith) unmarked)
      ∙ rw
          (
            read_memory_lem (l 0).address (l 0).size g
                (request ++ (0 ∷ (sprintf_02x (check_sum 0 (b'm' ∷ request)) ++ (0 ∷ [])))) a n
                small scanned,
            fits,
            gdb_send_buffer_lem text g (omega (arith, wide)),
          )
          refl

  -- A request for one register by its hexadecimal digit d, in its frame, is acknowledged and, under the
  -- lock, answered by the frame of a word in eight digits, which is the register d up to 9 and r0 for a
  -- to f; the processor stays as it was.
  pub gdb_scanner-register :
      (d : ℕ)
      → d < 16
      → let text = write_uint32 host target (shown_register arm (if ltb d 10 then d else 0)) in
        gdb_scanner host target rounds l arm (framed (b'p' ∷ hex_digit d ∷ []))
        ≡ ret (
            some record {
              gdb = record {
                arm = arm;
                target_exception = 0;
                packet = framed text;
                len = length text + 4;
                events = written (codes "+") ∷ locked ∷ written (framed text) ∷ unlocked ∷ [];
              };
              buffer = [];
            })
  unfolding command handle gdb_init gdb_init_data gdb_send_ack
  gdb_scanner-register d digit =
      let text = write_uint32 host target (shown_register arm (if ltb d 10 then d else 0)) in
      let g = happens locked (gdb_send_ack (gdb_init_data arm)) in
      let wide = length-write_uint32 host target (shown_register arm (if ltb d 10 then d else 0)) in
      let not_marks = hex_digit_plain d digit in
      gdb_scanner-noise host target rounds l arm [] (b'p' ∷ hex_digit d ∷ []) silence (omega arith)
        (plain (omega arith) (omega arith) (plain not_marks.0 not_marks.1 plain_end))
      ∙ rw
          (
            read_register_lem host target g d digit
                (sprintf_02x (check_sum 0 (b'p' ∷ hex_digit d ∷ [])) ++ (0 ∷ [])),
            gdb_send_buffer_lem text g (omega (arith, wide)),
          )
          refl
