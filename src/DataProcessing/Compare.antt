-- ===== src/DataProcessing/Compare.antt =====
-- The flags after the four comparing operations, against those of the ARM manual.
use prog.Prelude.{
  ℕ, ◌+◌, ◌^◌, ◌<◌, ◌≡◌, refl, ◌∙◌, arith, ◌==◌, ltb, leb, not, ◌&&◌, bit_and, bit_xor,
  if◌then◌else◌,
}
use prog.Word.{bit, add32, sub32, not32}
use prog.Core.{Core}
use prog.DataProcessing.Operations.{
  update_zn, update_v, update_c, lower, arm_tst, arm_teq, arm_cmp, arm_cmn,
}
use prog.DataProcessing.Flags.{
  flag, flag-lower_self, flag-lower_ne, update_zn_flags, update_v_flags, update_c_flags,
}

-- What the C and V flags become, and that no bit below them changes.
module _ (p : Core) (result a b x y c : ℕ) (given : c ≡ flag p 29) where
  abbrev zn : Core
  zn = update_zn p result

  abbrev vzn : Core
  vzn = update_v zn a b result

  pub nzcv :
      let q = update_c vzn x y c in
      (flag q 31 ≡ bit result 31)
      × (flag q 30 ≡ (if result == 0 then 1 else 0))
      × (flag q 29 ≡ (if ltb x y then 1 else 0))
      × (flag q 28 ≡ (if (bit a 31 == bit b 31) && not (bit a 31 == bit result 31) then 1 else 0))
      × ((j : ℕ) → j < 28 → flag q j ≡ flag p j)
  nzcv =
      let z = update_zn_flags p result in
      let v = update_v_flags zn a b result in
      let e : c ≡ flag vzn 29 =
        omega (arith, v.1 29 (omega arith) (omega arith), z.2 29 (omega arith)) in
      let k = update_c_flags vzn x y c e in
      (
        k.1 31 (omega arith) (omega arith) ∙ v.1 31 (omega arith) (omega arith) ∙ z.0,
        k.1 30 (omega arith) (omega arith) ∙ v.1 30 (omega arith) (omega arith) ∙ z.1,
        k.0,
        k.1 28 (omega arith) (omega arith) ∙ v.0,
        λ j h.
            k.1 j (omega arith) (omega arith)
            ∙ v.1 j (omega arith) (omega arith)
            ∙ z.2 j (omega arith),
      )

module _ (p : Core) (a b : ℕ) (a_word : a < 2 ^ 32) (b_word : b < 2 ^ 32) where
  -- CMP of words, given the C flag: N and Z are those of a - b, C is set when b is not 0 and at most
  -- a, V is set when the signs of a and b agree and that of the result differs, and no other bit
  -- changes.
  pub arm_cmp_flags :
      (v : ℕ)
      → let q = arm_cmp p a b (flag p 29) v in
        (flag q 31 ≡ bit (sub32 a b) 31)
        × (flag q 30 ≡ (if a == b then 1 else 0))
        × (flag q 29 ≡ (if ltb 0 b && leb b a then 1 else 0))
        × (flag q 28
            ≡ (if (bit a 31 == bit b 31) && not (bit a 31 == bit (sub32 a b) 31) then 1 else 0))
        × ((j : ℕ) → j < 28 → flag q j ≡ flag p j)
  unfolding arm_cmp
  arm_cmp_flags v =
      let f = nzcv p (sub32 a b) a b (sub32 0xffff_ffff a) (add32 (not32 b) 1) (flag p 29) refl in
      (f.0, f.1 ∙ ground arith, f.2 ∙ ground arith, f.3, f.4)

  -- CMN of words, given the C flag, sets the four flags as the ARM manual says: N and Z are those of
  -- a + b, C is the carry, V is the signed overflow, and no other bit changes.
  pub arm_cmn_flags :
      let q = arm_cmn p a b (flag p 29) in
      (flag q 31 ≡ bit (add32 a b) 31)
      × (flag q 30 ≡ (if add32 a b == 0 then 1 else 0))
      × (flag q 29 ≡ (if leb (2 ^ 32) (a + b) then 1 else 0))
      × (flag q 28 ≡ (
          if ltb a (2 ^ 31) && ltb b (2 ^ 31)
          then if leb (2 ^ 31) (a + b) then 1 else 0
          else if leb (2 ^ 31) a && leb (2 ^ 31) b
          then if ltb (a + b) (2 ^ 32 + 2 ^ 31) then 1 else 0
          else 0))
      × ((j : ℕ) → j < 28 → flag q j ≡ flag p j)
  unfolding arm_cmn
  arm_cmn_flags =
      let f = nzcv p (add32 a b) a b (sub32 0xffff_ffff a) b (flag p 29) refl in
      (f.0, f.1, f.2 ∙ ground arith, f.3 ∙ ground arith, f.4)

logical_flags :
    (p : Core) (result : ℕ)
    → let q = lower (update_zn p result) 29 in
      (flag q 31 ≡ bit result 31)
      × (flag q 30 ≡ (if result == 0 then 1 else 0))
      × (flag q 29 ≡ 0)
      × ((j : ℕ) → j < 29 → flag q j ≡ flag p j)
logical_flags p result =
    let z = update_zn_flags p result in
    let zn = update_zn p result in
    (
      flag-lower_ne zn 29 (omega arith) 31 (omega arith) (omega arith) ∙ z.0,
      flag-lower_ne zn 29 (omega arith) 30 (omega arith) (omega arith) ∙ z.1,
      flag-lower_self zn 29 (omega arith),
      λ j h. flag-lower_ne zn 29 (omega arith) j (omega arith) (omega arith) ∙ z.2 j (omega arith),
    )

-- TST: N and Z are those of a & b, C is cleared, and no other bit changes.
pub arm_tst_flags :
    (p : Core) (a b : ℕ)
    → let q = arm_tst p a b in
      (flag q 31 ≡ bit (bit_and a b) 31)
      × (flag q 30 ≡ (if bit_and a b == 0 then 1 else 0))
      × (flag q 29 ≡ 0)
      × ((j : ℕ) → j < 29 → flag q j ≡ flag p j)
unfolding arm_tst
arm_tst_flags p a b = logical_flags p (bit_and a b)

-- TEQ: N and Z are those of a ^ b, C is cleared, and no other bit changes.
pub arm_teq_flags :
    (p : Core) (a b : ℕ)
    → let q = arm_teq p a b in
      (flag q 31 ≡ bit (bit_xor a b) 31)
      × (flag q 30 ≡ (if bit_xor a b == 0 then 1 else 0))
      × (flag q 29 ≡ 0)
      × ((j : ℕ) → j < 29 → flag q j ≡ flag p j)
unfolding arm_teq
arm_teq_flags p a b = logical_flags p (bit_xor a b)
