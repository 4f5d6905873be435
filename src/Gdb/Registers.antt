-- ===== src/Gdb/Registers.antt =====
-- The handlers of the registers. `host` runs the simulator and `target` is the order that
-- BIG_ENDIAN_SIMULATOR chooses.
pub mod Reply
pub mod Restore
pub mod Single
pub mod Kept
use prog.Prelude.{
  ℕ, zero, suc, ◌+◌, ◌*◌, ◌-◌, ◌%◌, ◌^◌, Option, none, some, List, [], ◌∷◌, ◌++◌, ltb, leb, ◌==◌,
  if◌then◌else◌, Run, ret, undefined, exited, ◌>>=◌, drop, codes,
}
use prog.Word.{sub32}
use prog.Memory.{Host}
use prog.Core.{Core, arm_read_register, arm_read_cpsr, arm_write_register, arm_write_cpsr}
use prog.Gdb.{Gdb, gdb_send_data, gdb_send_buffer, written_at_end}
use prog.Gdb.Text.{atoi, assigned, scan_x, after_index}
use prog.Gdb.Words.{read_uint32, write_uint32}

-- A failed `assert`: SIGABRT, which a shell reports as 128 + 6.
abbrev pub aborted : ℕ
aborted = 134

-- The word that GDB is shown for a register: the pc is read one instruction in advance.
abbrev pub shown_register : Core → ℕ → ℕ
shown_register p i = if i == 15 then sub32 (arm_read_register p i) 4 else arm_read_register p i

-- `sprintf(position, "xxxxxxxx")`, so many times.
unfoldable pub not_implemented : (left : ℕ) → List ℕ → Run (List ℕ)
not_implemented zero buffer = ret buffer
not_implemented (suc left) buffer = do
  buffer' ← written_at_end buffer (codes "xxxxxxxx")
  not_implemented left buffer'

module _ (host : Host) (target : ℕ) where
  -- The first loop and what follows it: r0 to r14, and the pc.
  unfoldable pub general_registers : Core → (left i : ℕ) → List ℕ → Run (List ℕ)
  unfolding write_uint32
  general_registers p zero i buffer = ret buffer
  general_registers p (suc left) i buffer = do
    buffer' ← written_at_end buffer (write_uint32 host target (shown_register p i))
    general_registers p left (i + 1) buffer'

  -- f0 to f7 take three words each, and fps one more.
  unfoldable pub read_general_registers : Gdb → List ℕ → Run Gdb
  unfolding general_registers not_implemented
  read_general_registers g s = do
    general ← general_registers g.arm 16 0 []
    floating ← not_implemented 24 general
    fps ← not_implemented 1 floating
    all ← written_at_end fps (write_uint32 host target (arm_read_cpsr g.arm))
    gdb_send_buffer all g

  -- `atoi` gives an int, and `reg` is unsigned.
  unfoldable pub read_register : Gdb → List ℕ → Run Gdb
  read_register g s = do
    reg ← atoi s
    if ltb reg 16
        then written_at_end [] (write_uint32 host target (shown_register g.arm reg))
          >>= (λ buffer. gdb_send_buffer buffer g)
        else exited aborted

  -- `garbage` is what `value` of `read_uint32` holds, for the call at each register.
  unfoldable pub write_registers : (ℕ → ℕ) → (left i : ℕ) → List ℕ → Core → Run Core
  write_registers garbage zero i s p = ret p
  write_registers garbage (suc left) i s p = do
    value ← read_uint32 host target (garbage i) s
    write_registers garbage left (i + 1) (drop 8 s) (arm_write_register p i value)

  -- Words that are read and dropped.
  unfoldable pub skip_words : (ℕ → ℕ) → (left i : ℕ) → List ℕ → Run (List ℕ)
  skip_words garbage zero i s = ret s
  skip_words garbage (suc left) i s = do
    _ ← read_uint32 host target (garbage i) s
    skip_words garbage left (i + 1) (drop 8 s)

  unfoldable pub write_general_registers : (ℕ → ℕ) → Gdb → List ℕ → Run Gdb
  unfolding write_registers skip_words
  write_general_registers garbage g s = do
    p ← write_registers garbage 16 0 s g.arm
    after ← skip_words garbage 25 16 (drop 128 s)
    value ← read_uint32 host target (garbage 41) after
    gdb_send_data (codes "OK") (record g { arm = arm_write_cpsr p value })

  -- `reg` holds `garbage_reg` where the scan assigns nothing.
  unfoldable pub write_register : (garbage_reg garbage : ℕ) → Gdb → List ℕ → Run Gdb
  write_register garbage_reg garbage g s = do
    scanned ← scan_x s
    let reg = elim scanned as (λ _. ℕ) [ none ↦ garbage_reg | some (v, _) ↦ v ]
    text ← after_index b'=' s
    value ← read_uint32 host target garbage text
    if ltb reg 16
        then gdb_send_data (codes "OK") (record g { arm = arm_write_register g.arm reg value })
        else exited aborted
