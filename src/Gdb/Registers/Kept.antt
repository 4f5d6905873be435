-- ===== src/Gdb/Registers/Kept.antt =====
-- The processor's invariant through the handlers of the registers.
use prog.Prelude.{
  ℕ, zero, suc, ◌+◌, ◌%◌, ◌^◌, ◌<◌, arith, List, [], ltb, drop, choice, after, Ensures, value,
  ended, Ensures-bind,
}
use prog.Memory.{Host, little, big, host_word, update}
use prog.Core.{Core}
use prog.Core.Valid.{IsValid, arm_write_register-IsValid, arm_write_cpsr-IsValid}
use prog.Gdb.{Gdb, written_at_end}
use prog.Gdb.Text.{sscanf_2x, assigned, scan_x, after_index, atoi}
use prog.Gdb.Words.{read_bytes, read_uint32, byte_index}
use prog.Gdb.Registers.{
  write_registers, skip_words, read_general_registers, read_register, write_general_registers,
  write_register, general_registers, not_implemented,
}
use prog.Gdb.Kept.{Kept, gdb_send_buffer-Kept, gdb_send_data-Kept}

-- Words scanned from text fit.
host_word-lt :
    (host : Host) (a b c d : ℕ)
    → a < 256
    → b < 256
    → c < 256
    → d < 256
    → host_word host a b c d < 2 ^ 32
host_word-lt little a b c d ha hb hc hd = omega arith
host_word-lt big a b c d ha hb hc hd = omega arith

abbrev AreBytes : (ℕ → ℕ) → Type 0
AreBytes bytes = (i : ℕ) → bytes i < 256

module _ (host : Host) (target : ℕ) where
  read_bytes-AreBytes :
      (left k v : ℕ) (bytes : ℕ → ℕ) (s : List ℕ)
      → AreBytes bytes
      → Ensures AreBytes (read_bytes host target left k v bytes s)
  unfolding read_bytes
  read_bytes-AreBytes zero k v bytes s h = value h
  read_bytes-AreBytes (suc left) k v bytes s h = after (sscanf_2x s) λ o.
      read_bytes-AreBytes left (k + 1) (assigned v o)
        (update bytes (byte_index host target k) (assigned v o % 256)) (drop 2 s)
        (λ i. ground (arith, h i))

  pub read_uint32-lt :
      (garbage : ℕ) (s : List ℕ) → Ensures (λ v. v < 2 ^ 32) (read_uint32 host target garbage s)
  unfolding read_uint32
  read_uint32-lt garbage s =
      Ensures-bind (read_bytes-AreBytes 4 0 garbage (λ _. 0) s (λ _. omega arith))
        λ bytes h. value (host_word-lt host _ _ _ _ (h 0) (h 1) (h 2) (h 3))

  write_registers-IsValid :
      (garbage : ℕ → ℕ) (left i : ℕ) (s : List ℕ) {p : Core}
      → IsValid p
      → Ensures IsValid (write_registers host target garbage left i s p)
  unfolding write_registers
  write_registers-IsValid garbage zero i s valid = value valid
  write_registers-IsValid garbage (suc left) i s {p} valid =
      Ensures-bind (read_uint32-lt (garbage i) s) λ v h.
        write_registers-IsValid garbage left (i + 1) (drop 8 s)
          (arm_write_register-IsValid valid i v h)

  pub write_general_registers-Kept :
      (garbage : ℕ → ℕ) (g : Gdb) (s : List ℕ)
      → IsValid g.arm
      → Ensures Kept (write_general_registers host target garbage g s)
  unfolding write_general_registers
  write_general_registers-Kept garbage g s valid =
      Ensures-bind (write_registers-IsValid garbage 16 0 s valid) λ p h.
        after (skip_words host target garbage 25 16 (drop 128 s)) λ text.
          Ensures-bind (read_uint32-lt (garbage 41) text)
            λ v word. gdb_send_data-Kept _ _ (arm_write_cpsr-IsValid h v word)

  pub write_register-Kept :
      (garbage_reg garbage : ℕ) (g : Gdb) (s : List ℕ)
      → IsValid g.arm
      → Ensures Kept (write_register host target garbage_reg garbage g s)
  unfolding write_register
  write_register-Kept garbage_reg garbage g s valid = after (scan_x s) λ o.
      after (after_index b'=' s) λ text. Ensures-bind (read_uint32-lt garbage text) λ v word.
        choice (Ensures Kept) _ (gdb_send_data-Kept _ _ (arm_write_register-IsValid valid _ v word))
          ended

  pub read_general_registers-Kept :
      (g : Gdb) (s : List ℕ) → IsValid g.arm → Ensures Kept (read_general_registers host target g s)
  unfolding read_general_registers
  read_general_registers-Kept g s valid = after (general_registers host target g.arm 16 0 []) λ a.
      after (not_implemented 24 a) λ b.
        after (not_implemented 1 b)
          λ c. after (written_at_end c _) λ d. gdb_send_buffer-Kept d g valid

  pub read_register-Kept :
      (g : Gdb) (s : List ℕ) → IsValid g.arm → Ensures Kept (read_register host target g s)
  unfolding read_register
  read_register-Kept g s valid = after (atoi s) λ reg.
      choice (Ensures Kept) (ltb reg 16)
        (after (written_at_end [] _) (λ b. gdb_send_buffer-Kept b g valid)) ended
