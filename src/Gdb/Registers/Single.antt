-- ===== src/Gdb/Registers/Single.antt =====
-- `read_register` and `write_register` on one hexadecimal digit.
use prog.Prelude.{
  ℕ, suc, ◌^◌, ◌<◌, ◌≡◌, arith, List, ◌∷◌, ◌++◌, some, ltb, if◌then◌else◌, ret, length, codes,
}
use prog.Memory.{Host}
use prog.Core.{arm_write_register}
use prog.Gdb.{Gdb, gdb_send_data, gdb_send_buffer, written_at_end}
use prog.Gdb.Text.{
  hex_digit, digit_of, hex_digits, text_at, skip_space, is_space, signed_dec, dec_digits, atoi,
  scan_x, hex_number, in_range, after_index, unsigned_hex, has_prefix, some_digits,
}
use prog.Gdb.Text.Digits.{
  digit_of-hex_digit, text_at-hex_digit, skip_space-hex_digit, signed_hex-hex_digit,
}
use prog.Gdb.Words.{write_uint32}
use prog.Gdb.Words.RoundTrip.{read_uint32-write_uint32}
use prog.Gdb.Registers.{shown_register, read_register, write_register}
use prog.Gdb.Registers.Reply.{length-write_uint32}

-- `atoi` reads decimal digits, and 0 from a letter.
atoi-hex_digit :
    (d : ℕ) (s : List ℕ) → d < 16 → atoi (hex_digit d ∷ 0 ∷ s) ≡ ret (if ltb d 10 then d else 0)
unfolding atoi signed_dec dec_digits text_at skip_space is_space hex_digit
atoi-hex_digit d s h = ground arith

unsigned_hex-one :
    (w d : ℕ) (s : List ℕ)
    → d < 16
    → unsigned_hex (suc (suc w)) (hex_digit d ∷ b'=' ∷ s) ≡ some (d, b'=' ∷ s)
unfolding unsigned_hex has_prefix some_digits hex_digits digit_of
unsigned_hex-one w d s h = rw (digit_of-hex_digit d h) (ground arith)

scan_x-hex_digit :
    (d : ℕ) (s : List ℕ)
    → d < 16
    → scan_x (hex_digit d ∷ b'=' ∷ s) ≡ ret (some (d, b'=' ∷ text_at s))
unfolding scan_x hex_number in_range text_at
scan_x-hex_digit d s h =
    rw
      (
        text_at-hex_digit d h (b'=' ∷ s),
        skip_space-hex_digit d h (b'=' ∷ text_at s),
        signed_hex-hex_digit d h (b'=' ∷ text_at s) (suc (suc (length (text_at s)))),
        unsigned_hex-one (length (text_at s)) d (text_at s) h,
      )
      (ground arith)

module _ (host : Host) (target : ℕ) (g : Gdb) where
  read_register-below :
      (s : List ℕ) (reg : ℕ)
      → reg < 16
      → atoi s ≡ ret reg
      → read_register host target g s
        ≡ gdb_send_buffer (write_uint32 host target (shown_register g.arm reg)) g
  unfolding read_register written_at_end
  read_register-below s reg h e =
      rw e (ground (arith, length-write_uint32 host target (shown_register g.arm reg)))

  -- After the `=`: the word that was written.
  after_digit : (d : ℕ) (s : List ℕ) → d < 16 → after_index b'=' (hex_digit d ∷ b'=' ∷ s) ≡ ret s
  unfolding after_index hex_digit
  after_digit d s h = ground arith

  module _ (d : ℕ) (digit : d < 16) (s : List ℕ) where
    -- GDB asks for the register d by its hexadecimal digit. Up to 9 the answer is the register's word;
    -- for a to f it is that of r0.
    pub read_register_lem :
        read_register host target g (hex_digit d ∷ 0 ∷ s)
        ≡ gdb_send_buffer
            (write_uint32 host target (shown_register g.arm (if ltb d 10 then d else 0)))
            g
    read_register_lem =
        read_register-below (hex_digit d ∷ 0 ∷ s) (if ltb d 10 then d else 0) (ground arith)
          (atoi-hex_digit d s digit)

    -- A write of the word v to the register d, which GDB names by its hexadecimal digit, is answered
    -- by OK and writes that register.
    pub write_register_lem :
        (garbage_reg garbage v : ℕ)
        → v < 2 ^ 32
        → write_register host target garbage_reg garbage g
            (hex_digit d ∷ b'=' ∷ (write_uint32 host target v ++ s))
          ≡ gdb_send_data (codes "OK") (record g { arm = arm_write_register g.arm d v })
    unfolding write_register
    write_register_lem garbage_reg garbage v word =
        rw
          (
            scan_x-hex_digit d (write_uint32 host target v ++ s) digit,
            after_digit d (write_uint32 host target v ++ s) digit,
            read_uint32-write_uint32 host target garbage v s word,
          )
          (ground arith)
