-- ===== src/Util/Conditions.antt =====
-- The condition field and `ConditionPassed`.
use prog.Prelude.{
  ℕ, zero, suc, ◌+◌, ◌*◌, ◌/◌, ◌^◌, ◌<◌, ◌≡◌, refl, ap, sym, ◌∙◌, true, false, not, bit_and, arith,
  ◌==◌, ==→eq, every_below, every_below→,
}
use prog.Word.{bit, shr}
use prog.Word.Bits.{bit-bit_and, bit_and-lt, bits_ext}
use prog.Word.Shift.{bit-shr}
use prog.Util.{cond_of, arm_get_cond, condition_holds, condition_passed}

top_nibble_table : every_below 4 (λ i. bit 0xf000_0000 (i + 28) == 1) ≡ true
unfolding every_below
top_nibble_table = refl

top_nibble : (ins : ℕ) → ins < 2 ^ 32 → shr (bit_and ins 0xf000_0000) 28 ≡ ins / 2 ^ 28
top_nibble ins h =
    bits_ext 4 (shr (bit_and ins 0xf000_0000) 28) (ins / 2 ^ 28)
      (omega (arith, bit_and-lt ins 0xf000_0000 32 h (omega arith))) (omega arith)
      λ i k. omega (
        arith,
        bit-shr 28 (bit_and ins 0xf000_0000) i,
        bit-shr 28 ins i,
        bit-bit_and ins 0xf000_0000 (i + 28),
        ==→eq _ _ (every_below→ 4 (λ j. bit 0xf000_0000 (j + 28) == 1) i top_nibble_table k),
      )

-- The condition is the top four bits of the instruction.
pub condition_passed-eq :
    (cpsr ins : ℕ)
    → ins < 2 ^ 32
    → condition_passed cpsr ins ≡ condition_holds (cond_of (ins / 2 ^ 28)) cpsr
unfolding condition_passed arm_get_cond
condition_passed-eq cpsr ins h = ap (λ c. condition_holds (cond_of c) cpsr) (top_nibble ins h)

pairs :
    (k cpsr : ℕ)
    → k < 7
    → condition_holds (cond_of (2 * k + 1)) cpsr ≡ not (condition_holds (cond_of (2 * k)) cpsr)
unfolding condition_holds cond_of
pairs zero cpsr h = ground arith
pairs (suc zero) cpsr h = ground arith
pairs (suc (suc zero)) cpsr h = ground arith
pairs (suc (suc (suc zero))) cpsr h = ground arith
pairs (suc (suc (suc (suc zero)))) cpsr h = ground arith
pairs (suc (suc (suc (suc (suc zero))))) cpsr h = ground arith
pairs (suc (suc (suc (suc (suc (suc zero)))))) cpsr h = ground arith
pairs (suc (suc (suc (suc (suc (suc (suc k))))))) cpsr h = absurd (omega arith)

-- Below 14 the conditions come in pairs: an instruction whose field is odd passes exactly when the
-- same instruction with the even field below it does not. The field 14 always passes, 15 never.
pub condition_passed_pairs :
    (cpsr rest k : ℕ)
    → rest < 2 ^ 28
    → k < 7
    → (condition_passed cpsr ((2 * k + 1) * 2 ^ 28 + rest)
        ≡ not (condition_passed cpsr (2 * k * 2 ^ 28 + rest)))
      × (condition_passed cpsr (14 * 2 ^ 28 + rest) ≡ true)
      × (condition_passed cpsr (15 * 2 ^ 28 + rest) ≡ false)
unfolding condition_holds cond_of
condition_passed_pairs cpsr rest k h small = (
  condition_passed_at (2 * k + 1) (omega arith)
      ∙ pairs k cpsr small
      ∙ ap not (sym (condition_passed_at (2 * k) (omega arith))),
  condition_passed_at 14 (omega arith),
  condition_passed_at 15 (omega arith),
)
  where
    condition_passed_at :
        (c : ℕ)
        → c < 16
        → condition_passed cpsr (c * 2 ^ 28 + rest) ≡ condition_holds (cond_of c) cpsr
    condition_passed_at c small =
        condition_passed-eq cpsr (c * 2 ^ 28 + rest) (omega arith)
        ∙ ap (λ d. condition_holds (cond_of d) cpsr) field
      where
        field : (c * 2 ^ 28 + rest) / 2 ^ 28 ≡ c
        field = omega arith
