-- ===== src/LoadStore/Single/Thumb.antt =====
-- What a load into the pc does to the pc and the bit T.
use prog.Prelude.{
  ℕ, ◌+◌, ◌-◌, ◌*◌, ◌/◌, ◌%◌, ◌^◌, ◌<◌, ◌≡◌, refl, ap, ◌∙◌, arith, not, bit_and, bit_or,
  if◌then◌else◌, ◌==◌,
}
use prog.Word.{bit, shr}
use prog.Word.Bits.{bit-bit_and, bit-bit_or, bit_and_assoc}
use prog.Word.Fields.{
  bit_and-mask, bit_or-high, bit_or-zero, half-bit_and, half-bit_or, shr-bit_and,
}
use prog.Util.{set_bit, clr_bit}
use prog.Util.Macros.{get_bit-eq-bit}
use prog.Core.{Core, arm_read_cpsr, arm_write_register, arm_write_cpsr}
use prog.Core.Valid.{arm_read_cpsr-write_register}
use prog.LoadStore.Single.{set_thumb, load_into}

even_lem : (v : ℕ) → v < 2 ^ 32 → bit_and v 0xffff_fffe ≡ v - v % 2
even_lem v h =
    omega (arith, half-bit_and v 0xffff_fffe, bit-bit_and v 0xffff_fffe 0, bit_and-mask 31 (v / 2))

-- The bit 5 set, and cleared.
odd_lem : (q : ℕ) → bit_or q 1 ≡ q / 2 * 2 + 1
odd_lem q = omega (arith, half-bit_or q 1, bit-bit_or q 1 0, bit_or-zero (q / 2))

set_lem : (c : ℕ) → set_bit c 5 ≡ c - bit c 5 * 32 + 32
unfolding set_bit
set_lem c =
    ap (λ x. bit_or x 32) split
    ∙ bit_or-high 5 (c / 32) 1 (c % 32) (omega arith)
    ∙ omega (arith, odd_lem (c / 32))
  where
    split : c ≡ c / 32 * 2 ^ 5 + c % 32
    split = omega arith

clr_lem : (c : ℕ) → c < 2 ^ 32 → clr_bit c 5 ≡ c - bit c 5 * 32
unfolding clr_bit
clr_lem c h = omega (
  arith,
  shr-bit_and 5 c 0xffff_ffdf,
  half-bit_and (shr c 5) 0x7ff_fffe,
  bit-bit_and (shr c 5) 0x7ff_fffe 0,
  bit_and-mask 26 (shr c 5 / 2),
  bit_and-mask 5 (bit_and c 0xffff_ffdf),
  bit_and_assoc c 0xffff_ffdf 31 h (omega arith) (omega arith),
  bit_and-mask 5 c,
)

-- A value loaded into a register: into the pc it goes without its bit 0, which becomes the bit T.
pub load_into_lem :
    (q : Core) (rd v : ℕ)
    → v < 2 ^ 32
    → arm_read_cpsr q < 2 ^ 32
    → load_into q rd v ≡ (
        let c = arm_read_cpsr q in
        if rd == 15
        then arm_write_cpsr (arm_write_register q 15 (v - v % 2)) (c - bit c 5 * 32 + v % 2 * 32)
        else arm_write_register q rd v)
unfolding load_into set_thumb
load_into_lem q rd v h hc =
    let c = arm_read_cpsr q in
    let t : (if not (bit v 0 == 0) then c - bit c 5 * 32 + 32 else c - bit c 5 * 32)
        ≡ c - bit c 5 * 32 + v % 2 * 32 =
      ground arith in
    rw
      (
        even_lem v h,
        arm_read_cpsr-write_register q 15 (v - v % 2),
        get_bit-eq-bit v 0,
        set_lem c,
        clr_lem c hc,
        t,
      )
      refl
