-- ===== src/DataProcessing/Conditions.antt =====
-- The conditions that an instruction after a CMP meets.
use prog.Prelude.{ℕ, ◌^◌, ◌<◌, ◌≡◌, ◌≢◌, ◌∙◌, true, false, some, arith, ◌==◌, ltb, leb, not}
use prog.Word.{bit, sub32}
use prog.Util.{condition_holds, eq, ne, cs_hs, cc_lo, hi, ls, ge, lt}
use prog.Core.{Core, arm_read_cpsr}
use prog.DataProcessing.Operations.{arm_cmp}
use prog.DataProcessing.Flags.{flag, get_bit-eq-flag}
use prog.DataProcessing.Compare.{arm_cmp_flags}

module _ (p : Core) (a b v : ℕ) (a_word : a < 2 ^ 32) (b_word : b < 2 ^ 32) where
  abbrev after : Core
  after = arm_cmp p a b (flag p 29) v

  -- After CMP of words, the second other than 0, EQ and NE tell equality, and CS, CC, HI and LS the
  -- unsigned order of the operands.
  pub arm_cmp_unsigned :
      b ≢ 0
      → (condition_holds (some eq) (arm_read_cpsr after) ≡ (a == b))
        × (condition_holds (some ne) (arm_read_cpsr after) ≡ not (a == b))
        × (condition_holds (some cs_hs) (arm_read_cpsr after) ≡ leb b a)
        × (condition_holds (some cc_lo) (arm_read_cpsr after) ≡ ltb a b)
        × (condition_holds (some hi) (arm_read_cpsr after) ≡ ltb b a)
        × (condition_holds (some ls) (arm_read_cpsr after) ≡ leb a b)
  unfolding condition_holds
  arm_cmp_unsigned ne_zero =
      let f = arm_cmp_flags p a b a_word b_word v in
      let z = get_bit-eq-flag after 30 ∙ f.1 in
      let c = get_bit-eq-flag after 29 ∙ f.2 in
      (
        ground (arith, z),
        ground (arith, z),
        ground (arith, c),
        ground (arith, c),
        ground (arith, z, c),
        ground (arith, z, c),
      )

  -- After CMP of a word with the second operand 0, CS and HI fail and CC and LS pass, whatever the
  -- first is.
  pub arm_cmp_zero :
      b ≡ 0
      → (condition_holds (some cs_hs) (arm_read_cpsr after) ≡ false)
        × (condition_holds (some cc_lo) (arm_read_cpsr after) ≡ true)
        × (condition_holds (some hi) (arm_read_cpsr after) ≡ false)
        × (condition_holds (some ls) (arm_read_cpsr after) ≡ true)
  unfolding condition_holds
  arm_cmp_zero zero_b =
      let f = arm_cmp_flags p a b a_word b_word v in
      let z = get_bit-eq-flag after 30 ∙ f.1 in
      let c = get_bit-eq-flag after 29 ∙ f.2 in
      (ground (arith, c), ground (arith, c), ground (arith, c), ground (arith, c))

  -- After CMP of two words of the same sign, LT passes exactly when they are negative, and GE
  -- exactly when they are not, whatever their order.
  pub arm_cmp_same_sign :
      bit a 31 ≡ bit b 31
      → (condition_holds (some lt) (arm_read_cpsr after) ≡ leb (2 ^ 31) a)
        × (condition_holds (some ge) (arm_read_cpsr after) ≡ ltb a (2 ^ 31))
  unfolding condition_holds
  arm_cmp_same_sign same =
      let f = arm_cmp_flags p a b a_word b_word v in
      let n = get_bit-eq-flag after 31 ∙ f.0 in
      let o = get_bit-eq-flag after 28 ∙ f.3 in (ground (arith, n, o), ground (arith, n, o))

  -- After CMP of words of different signs, LT passes exactly when the wrapped difference is
  -- negative: signed overflow is not seen.
  pub arm_cmp_different_signs :
      bit a 31 ≢ bit b 31
      → condition_holds (some lt) (arm_read_cpsr after) ≡ leb (2 ^ 31) (sub32 a b)
  unfolding condition_holds
  arm_cmp_different_signs different =
      let f = arm_cmp_flags p a b a_word b_word v in
      let n = get_bit-eq-flag after 31 ∙ f.0 in
      let o = get_bit-eq-flag after 28 ∙ f.3 in ground (arith, n, o)
