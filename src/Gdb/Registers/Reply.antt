-- ===== src/Gdb/Registers/Reply.antt =====
-- What `read_general_registers` sends.
use prog.Prelude.{
  ℕ, zero, suc, ◌+◌, ◌*◌, ◌<◌, ◌≡◌, refl, ◌∙◌, ap, sym, arith, List, [], ◌++◌, ret, length,
  length-append, append_assoc, append-nil, codes,
}
use prog.Memory.{Host}
use prog.Core.{Core, arm_read_cpsr}
use prog.Gdb.{Gdb, gdb_send_buffer, written_at_end}
use prog.Gdb.Text.{sprintf_02x}
use prog.Gdb.Words.{write_bytes, write_uint32}
use prog.Gdb.Registers.{shown_register, general_registers, not_implemented, read_general_registers}

-- Eight digits are added where they fit.
eight :
    (buffer piece : List ℕ)
    → length piece ≡ 8
    → length buffer + 9 < 1024
    → written_at_end buffer piece ≡ ret (buffer ++ piece)
unfolding written_at_end
eight buffer piece whole fits = ground arith

unfoldable pub unknown_text : ℕ → List ℕ
unknown_text zero = []
unknown_text (suc left) = codes "xxxxxxxx" ++ unknown_text left

pub length-unknown_text : (left : ℕ) → length (unknown_text left) ≡ 8 * left
unfolding unknown_text
length-unknown_text zero = refl
length-unknown_text (suc left) = omega (arith, length-unknown_text left)

not_implemented_lem :
    (left : ℕ) (buffer : List ℕ)
    → length buffer + 8 * left + 1 < 1024
    → not_implemented left buffer ≡ ret (buffer ++ unknown_text left)
unfolding not_implemented unknown_text
not_implemented_lem zero buffer fits = ap ret (sym (append-nil buffer))
not_implemented_lem (suc left) buffer fits =
    let word : List ℕ = codes "xxxxxxxx" in
    rw (eight buffer word refl (omega arith)) (
      not_implemented_lem left (buffer ++ word) (omega (arith, length-append buffer word))
      ∙ ap ret (append_assoc buffer word (unknown_text left)))

unknown_split : unknown_text 24 ++ unknown_text 1 ≡ unknown_text 25
unfolding unknown_text
unknown_split = refl

regrouped : (a b c d : List ℕ) → ((a ++ b) ++ c) ++ d ≡ a ++ ((b ++ c) ++ d)
regrouped a b c d = simp append_assoc

module _ (host : Host) (target : ℕ) where
  pub length-write_uint32 : (v : ℕ) → length (write_uint32 host target v) ≡ 8
  unfolding write_uint32 write_bytes sprintf_02x
  length-write_uint32 v = refl

  -- The registers from i on, and unknown words.
  unfoldable pub registers_text : Core → (left i : ℕ) → List ℕ
  registers_text p zero i = []
  registers_text p (suc left) i =
      write_uint32 host target (shown_register p i) ++ registers_text p left (i + 1)

  -- r0 to r14 and the pc, 25 unknown words, and the CPSR.
  unfoldable pub all_registers : Core → List ℕ
  all_registers p =
      registers_text p 16 0 ++ (unknown_text 25 ++ write_uint32 host target (arm_read_cpsr p))

  general_registers_lem :
      (p : Core) (left i : ℕ) (buffer : List ℕ)
      → length buffer + 8 * left + 1 < 1024
      → general_registers host target p left i buffer ≡ ret (buffer ++ registers_text p left i)
  unfolding general_registers registers_text
  general_registers_lem p zero i buffer fits = ap ret (sym (append-nil buffer))
  general_registers_lem p (suc left) i buffer fits =
      let word = write_uint32 host target (shown_register p i) in
      let whole : length word ≡ 8 = length-write_uint32 _ in
      rw (eight buffer word whole (omega arith)) (
        general_registers_lem p left (i + 1) (buffer ++ word)
          (omega (arith, whole, length-append buffer word))
        ∙ ap ret (append_assoc buffer word (registers_text p left (i + 1))))

  pub length-registers_text : (p : Core) (left i : ℕ) → length (registers_text p left i) ≡ 8 * left
  unfolding registers_text
  length-registers_text p zero i = refl
  length-registers_text p (suc left) i =
      let word = write_uint32 host target (shown_register p i) in
      length-append word (registers_text p left (i + 1))
      ∙ omega
          (arith, length-write_uint32 (shown_register p i), length-registers_text p left (i + 1))

  arranged :
      (p : Core)
      → let cpsr = write_uint32 host target (arm_read_cpsr p) in
        ((registers_text p 16 0 ++ unknown_text 24) ++ unknown_text 1) ++ cpsr ≡ all_registers p
  unfolding all_registers
  arranged p =
      rw (← unknown_split) (regrouped (registers_text p 16 0) (unknown_text 24) (unknown_text 1) _)

  -- `read_general_registers` sends the registers, whatever the packet held before.
  pub read_general_registers_lem :
      (g : Gdb) (s : List ℕ)
      → read_general_registers host target g s ≡ gdb_send_buffer (all_registers g.arm) g
  unfolding read_general_registers
  read_general_registers_lem g s =
      let p = g.arm in
      let general = registers_text p 16 0 in
      let long : length general ≡ 128 = length-registers_text p 16 0 in
      let cpsr = write_uint32 host target (arm_read_cpsr p) in
      rw
        (
          general_registers_lem p 16 0 [] (omega arith),
          not_implemented_lem 24 general (omega (arith, long)),
          not_implemented_lem 1 (general ++ unknown_text 24) (
              omega (arith, long, length-append general (unknown_text 24), length-unknown_text 24)),
          eight ((general ++ unknown_text 24) ++ unknown_text 1) cpsr (length-write_uint32 _) (
              omega (
                arith,
                long,
                length-append general (unknown_text 24),
                length-append (general ++ unknown_text 24) (unknown_text 1),
                length-unknown_text 24,
                length-unknown_text 1,
              )),
        )
        (ap (λ t. gdb_send_buffer t g) (arranged p))
