-- ===== src/Core/Fetch.antt =====
-- The fetch and the program counter.
use prog.Prelude.{
  ℕ, ◌+◌, ◌%◌, ◌^◌, ◌<◌, ◌≡◌, refl, ap, sym, ◌∙◌, Option, none, some, arith, bit_and, ltb,
  if◌then◌else◌, Run, ret, ◌>>=◌, Returns, returns, Returns-bind,
}
use native.Mathlib.Decide.{ℕ_discrete}
use prog.Word.{bit, add32, sub32}
use prog.Word.Bits.{bits_ext}
use prog.Util.{clr_bit}
use prog.Util.Macros.{bit-clr_bit_self, bit-clr_bit_ne, clr_bit-lt}
use prog.Memory.{Host, memory_read_word}
use prog.Memory.Spec.{word_at}
use prog.Memory.Access.{memory_read_word_lem}
use prog.Core.{Core, arm_fetch, arm_read_word, arm_read_register, arm_write_register}
use prog.Core.Valid.{IsValid, arm_write_register-IsValid}
use prog.Core.Access.{Below, arm_read_word-Below}

-- Clearing a bit that is clear already.
clr_bit_idle : (x i : ℕ) → x < 2 ^ 32 → i < 32 → bit x i ≡ 0 → clr_bit x i ≡ x
clr_bit_idle x i word h clear = bits_ext 32 (clr_bit x i) x (clr_bit-lt x i h word) word λ j k.
    elim (ℕ_discrete j i) [
      | yes e ↦ ap (bit (clr_bit x i)) e ∙ bit-clr_bit_self x i h ∙ sym clear ∙ ap (bit x) (sym e)
      | no ne ↦ bit-clr_bit_ne x i h j k ne
    ]

pub pc_mask_idle : (x : ℕ) → x < 2 ^ 32 → x % 4 ≡ 0 → bit_and x 0xffff_fffd ≡ x
pc_mask_idle x word h = unfold clr_bit in clr_bit_idle x 1 word (omega arith) (omega arith)

-- An aligned pc reads as the address in slot 15 plus 4.
pub arm_read_register_pc :
    {p : Core}
    → IsValid p
    → p.reg.slots 15 % 4 ≡ 0
    → arm_read_register p 15 ≡ add32 (p.reg.slots 15) 4
unfolding arm_read_register
arm_read_register_pc {p} valid aligned =
    pc_mask_idle (add32 (p.reg.slots 15) 4) (omega arith) (omega arith)

-- The core in which the fetch reads, one cycle on; and the core after a fetch at an aligned pc.
abbrev pub next_cycle : Core → Core
next_cycle p = record p { cycle_count = (p.cycle_count + 1) % 2 ^ 32 }

abbrev pub fetched : Core → Core
fetched p = arm_write_register (next_cycle p) 15 (add32 (p.reg.slots 15) 4)

next_cycle-IsValid : {p : Core} → IsValid p → IsValid (next_cycle p)
next_cycle-IsValid valid = record { word = valid.word; user = valid.user; memory = valid.memory }

pub fetched-IsValid : {p : Core} → IsValid p → IsValid (fetched p)
fetched-IsValid {p} valid = arm_write_register-IsValid (next_cycle-IsValid valid) 15 _ (omega arith)

slots_fetched : (p : Core) → (fetched p).reg.slots 15 ≡ add32 (p.reg.slots 15) 4
unfolding arm_write_register
slots_fetched p = refl

module _ {p : Core} (valid : IsValid p) (host : Host) where
  after_read : ℕ → Run (Option ℕ × Core)
  after_read a =
      memory_read_word host p.mem a
      >>= (λ v. ret (v, arm_write_register (next_cycle p) 15 (add32 a 4)))

  -- From a valid core with an aligned pc, a fetch counts a cycle, moves the pc on by 4, and gives the
  -- word that it pointed to, or fails where it pointed outside the memory. The pc then reads as the
  -- address of the fetched instruction plus 8.
  pub arm_fetch_lem :
      p.reg.slots 15 % 4 ≡ 0
      → (arm_fetch host p
          ≡ ret (
            if ltb (p.reg.slots 15) p.mem.size then some (word_at p.mem (p.reg.slots 15)) else none,
            fetched p,
          ))
        × (arm_read_register (fetched p) 15 ≡ add32 (p.reg.slots 15) 8)
  unfolding arm_fetch after_read
  arm_fetch_lem aligned = (
    ap after_read address
        ∙ rw (memory_read_word_lem valid.memory host (p.reg.slots 15)) (ground (arith, aligned)),
    arm_read_register_pc (arm_write_register-IsValid (next_cycle-IsValid valid) 15 _ (omega arith))
          (omega (arith, slots_fetched p))
        ∙ omega (arith, slots_fetched p),
  )
    where
      address : sub32 (arm_read_register (next_cycle p) 15) 4 ≡ p.reg.slots 15
      address =
          omega (arith, arm_read_register_pc (next_cycle-IsValid valid) aligned, valid.word 15)

  -- A fetch from a valid core, at any pc, gives a word or fails, and keeps the core valid.
  pub arm_fetch-IsValid : Returns (λ (v, q). Below (2 ^ 32) v × IsValid q) (arm_fetch host p)
  unfolding arm_fetch arm_read_word
  arm_fetch-IsValid =
      Returns-bind
        (arm_read_word-Below (next_cycle-IsValid valid)
          (sub32 (arm_read_register (next_cycle p) 15) 4) host)
        λ v h. returns (h, arm_write_register-IsValid (next_cycle-IsValid valid) 15 _ (omega arith))
