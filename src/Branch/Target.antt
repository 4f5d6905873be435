-- ===== src/Branch/Target.antt =====
-- Where B and BL lead, and what else they change.
use prog.Prelude.{
  ℕ, ◌+◌, ◌*◌, ◌/◌, ◌%◌, ◌^◌, ◌≤◌, ◌<◌, ◌≡◌, ◌≢◌, refl, ◌∙◌, true, arith, bit_or, ◌&&◌, ==→eq,
  every_below, every_below→, ◌==◌, if◌then◌else◌, choice,
}
use prog.Word.{bit, add32, sub32}
use prog.Word.Fields.{bit_or-high, bit_and-mask}
use prog.Util.{get_bit, condition_passed}
use prog.Util.Macros.{get_bit-eq-bit}
use prog.Core.{Core, arm_read_register, arm_read_cpsr, arm_write_register}
use prog.Core.Valid.{IsValid, arm_read_register-write_ne, arm_write_register-IsValid}
use prog.Core.Fetch.{arm_read_register_pc}
use prog.Branch.{branch_offset, arm_branch}

ones_table : every_below 512 (λ q. bit_or q 511 == 511) ≡ true
unfolding every_below
ones_table = refl

sign_extended : (ins : ℕ) → ins < 2 ^ 32 → bit_or ins 0xff80_0000 ≡ 0xff80_0000 + ins % 2 ^ 23
sign_extended ins h = ground (
  arith,
  bit_or-high 23 (ins / 2 ^ 23) 511 (ins % 2 ^ 23) (omega arith),
  ==→eq _ _ (every_below→ 512 (λ q. bit_or q 511 == 511) (ins / 2 ^ 23) ones_table (omega arith)),
)

-- The displacement: with bit 23 set it is the sign-extended 24-bit field times 4, and with bit 23
-- clear it is the low 30 bits of the whole instruction word times 4.
pub branch_offset_lem :
    (ins : ℕ)
    → ins < 2 ^ 32
    → branch_offset ins
      ≡ (if bit ins 23 == 1 then sub32 (4 * (ins % 2 ^ 24)) (2 ^ 26) else 4 * (ins % 2 ^ 30))
unfolding branch_offset
branch_offset_lem ins h =
    ground (arith, get_bit-eq-bit ins 23, sign_extended ins h, bit_and-mask 32 ins)

-- A forward B or BL, whose bits 27 to 25 are 101 and bit 23 is 0, is never displaced by its 24-bit
-- field times 4: at least 2 ^ 29 more is added.
pub branch_forward :
    (ins : ℕ)
    → ins < 2 ^ 32
    → ins / 2 ^ 25 % 8 ≡ 5
    → bit ins 23 ≡ 0
    → 4 * (ins % 2 ^ 24) + 2 ^ 29 ≤ branch_offset ins
branch_forward ins h class forward = ground (arith, branch_offset_lem ins h)

module _ {p : Core} (valid : IsValid p) (ins : ℕ) (aligned : p.reg.slots 15 % 4 ≡ 0) where
  -- From a valid core whose pc, already moved on by the fetch, is aligned: a branch that is taken
  -- sets the pc to itself plus 4 plus the displacement, stores the pc in r14 if it links, and changes
  -- no other register, the CPSR, the mode, the memory or the cycle count; one not taken changes
  -- nothing. The result is 0.
  pub arm_branch_lem :
      let q = (arm_branch p ins).1 in
      let pc = p.reg.slots 15 in
      let taken = condition_passed (arm_read_cpsr p) ins in
      ((arm_branch p ins).0 ≡ 0)
      × (q.reg.slots 15 ≡ (if taken then add32 (add32 pc 4) (branch_offset ins) else pc))
      × (q.reg.slots 14 ≡ (if taken && (get_bit ins 24 == 1) then pc else p.reg.slots 14))
      × ((i : ℕ) → i ≢ 14 → i ≢ 15 → q.reg.slots i ≡ p.reg.slots i)
      × (q.reg.mode ≡ p.reg.mode)
      × (q.mem ≡ p.mem)
      × (q.cycle_count ≡ p.cycle_count)
  unfolding arm_branch arm_write_register
  arm_branch_lem =
      let linked = arm_write_register p 14 (sub32 (arm_read_register p 15) 4) in
      let before = arm_read_register_pc valid aligned in
      let after : arm_read_register linked 15 ≡ add32 (p.reg.slots 15) 4 =
        arm_read_register-write_ne p 14 (sub32 (arm_read_register p 15) 4) 15 (omega arith)
        ∙ before in
      let word = valid.word 15 in
      (
        refl,
        ground (arith, before, after),
        ground (arith, before, after, word),
        λ i h k. ground (arith, h, k),
        ground arith,
        ground arith,
        ground arith,
      )

pub arm_branch-IsValid : {p : Core} (ins : ℕ) → IsValid p → IsValid (arm_branch p ins).1
unfolding arm_branch
arm_branch-IsValid {p} ins valid =
    let linked =
      choice IsValid (get_bit ins 24 == 1)
        (arm_write_register-IsValid valid 14 (sub32 (arm_read_register p 15) 4) (omega arith))
        valid in
    choice IsValid (condition_passed (arm_read_cpsr p) ins)
      (arm_write_register-IsValid linked 15 _ (omega arith)) valid
