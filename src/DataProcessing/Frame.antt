-- ===== src/DataProcessing/Frame.antt =====
-- The flag updates change the CPSR and nothing else of the core, and keep it valid.
use prog.Prelude.{
  ℕ, ◌<◌, ◌≡◌, ◌≢◌, refl, ◌∙◌, Bool, true, false, arith, ltb, not, ◌&&◌, truth, if◌then◌else◌,
}
use prog.Util.Macros.{set_bit-lt, clr_bit-lt}
use prog.Core.{Core, arm_read_cpsr, arm_write_cpsr}
use prog.Core.Valid.{IsValid, arm_read_cpsr-lt, arm_write_cpsr-IsValid}
use prog.DataProcessing.Operations.{
  raise, lower, update_zn, update_v, update_c, update_v_rsc, arm_tst, arm_teq, arm_cmp, arm_cmn,
}

-- Only the CPSR, slot 16, may differ.
pub record SameButCpsr (p q : Core) : Type 0 where
  pub slots : (i : ℕ) → i ≢ 16 → q.reg.slots i ≡ p.reg.slots i
  pub mode : q.reg.mode ≡ p.reg.mode
  pub mem : q.mem ≡ p.mem
  pub cycle_count : q.cycle_count ≡ p.cycle_count

pub SameButCpsr-refl : (p : Core) → SameButCpsr p p
SameButCpsr-refl p = record { slots = λ i h. refl; mode = refl; mem = refl; cycle_count = refl }

pub SameButCpsr-trans : {p q r : Core} → SameButCpsr p q → SameButCpsr q r → SameButCpsr p r
SameButCpsr-trans a b = record {
  slots = λ i h. b.slots i h ∙ a.slots i h;
  mode = b.mode ∙ a.mode;
  mem = b.mem ∙ a.mem;
  cycle_count = b.cycle_count ∙ a.cycle_count;
}

arm_write_cpsr-same : (p : Core) (v : ℕ) → SameButCpsr p (arm_write_cpsr p v)
unfolding arm_write_cpsr
arm_write_cpsr-same p v = record {
  slots = λ i h. ground arith;
  mode = refl;
  mem = refl;
  cycle_count = refl;
}

-- Flag updates: they stay within the CPSR and keep a valid core valid.
pub record IsFlagUpdate (p q : Core) : Type 0 where
  pub same : SameButCpsr p q
  pub valid : IsValid p → IsValid q

update_refl : (p : Core) → IsFlagUpdate p p
update_refl p = record { same = SameButCpsr-refl p; valid = λ v. v }

pub update_trans : {p q r : Core} → IsFlagUpdate p q → IsFlagUpdate q r → IsFlagUpdate p r
update_trans a b = record {
  same = SameButCpsr-trans a.same b.same;
  valid = λ v. b.valid (a.valid v);
}

raise-IsFlagUpdate : (p : Core) (i : ℕ) → i < 32 → IsFlagUpdate p (raise p i)
unfolding raise
raise-IsFlagUpdate p i h = record {
  same = arm_write_cpsr-same p _;
  valid = λ v. arm_write_cpsr-IsValid v _ (set_bit-lt (arm_read_cpsr p) i h (arm_read_cpsr-lt v));
}

lower-IsFlagUpdate : (p : Core) (i : ℕ) → i < 32 → IsFlagUpdate p (lower p i)
unfolding lower
lower-IsFlagUpdate p i h = record {
  same = arm_write_cpsr-same p _;
  valid = λ v. arm_write_cpsr-IsValid v _ (clr_bit-lt (arm_read_cpsr p) i h (arm_read_cpsr-lt v));
}

by_test :
    {p q r : Core} (b : Bool)
    → IsFlagUpdate p q
    → IsFlagUpdate p r
    → IsFlagUpdate p (if b then q else r)
by_test true x y = x
by_test false x y = y

module _ (p : Core) where
  pub update_zn-IsFlagUpdate : (result : ℕ) → IsFlagUpdate p (update_zn p result)
  unfolding update_zn
  update_zn-IsFlagUpdate result =
      update_trans
        (by_test _ (raise-IsFlagUpdate p 30 (omega arith)) (lower-IsFlagUpdate p 30 (omega arith)))
        (by_test _ (raise-IsFlagUpdate _ 31 (omega arith)) (lower-IsFlagUpdate _ 31 (omega arith)))

  pub update_v-IsFlagUpdate : (a b r : ℕ) → IsFlagUpdate p (update_v p a b r)
  unfolding update_v
  update_v-IsFlagUpdate a b r =
      by_test _ (raise-IsFlagUpdate p 28 (omega arith)) (lower-IsFlagUpdate p 28 (omega arith))

  pub update_v_rsc-IsFlagUpdate : (a r : ℕ) → IsFlagUpdate p (update_v_rsc p a r)
  unfolding update_v_rsc
  update_v_rsc-IsFlagUpdate a r =
      by_test _ (raise-IsFlagUpdate p 28 (omega arith)) (lower-IsFlagUpdate p 28 (omega arith))

  pub update_c-IsFlagUpdate : (a b c : ℕ) → IsFlagUpdate p (update_c p a b c)
  unfolding update_c
  update_c-IsFlagUpdate a b c =
      let first =
        by_test {p = p} (ltb a b && not (truth c)) (raise-IsFlagUpdate p 29 (omega arith))
          (update_refl p) in
      by_test _ (update_trans first (lower-IsFlagUpdate _ 29 (omega arith))) first

module _ (p : Core) (a b : ℕ) where
  pub arm_tst-IsFlagUpdate : IsFlagUpdate p (arm_tst p a b)
  unfolding arm_tst
  arm_tst-IsFlagUpdate =
      update_trans (update_zn-IsFlagUpdate p _) (lower-IsFlagUpdate _ 29 (omega arith))

  pub arm_teq-IsFlagUpdate : IsFlagUpdate p (arm_teq p a b)
  unfolding arm_teq
  arm_teq-IsFlagUpdate =
      update_trans (update_zn-IsFlagUpdate p _) (lower-IsFlagUpdate _ 29 (omega arith))

  pub arm_cmp-IsFlagUpdate : (c v : ℕ) → IsFlagUpdate p (arm_cmp p a b c v)
  unfolding arm_cmp
  arm_cmp-IsFlagUpdate c v =
      update_trans (update_trans (update_zn-IsFlagUpdate p _) (update_v-IsFlagUpdate _ a b _))
        (update_c-IsFlagUpdate _ _ _ c)

  pub arm_cmn-IsFlagUpdate : (c : ℕ) → IsFlagUpdate p (arm_cmn p a b c)
  unfolding arm_cmn
  arm_cmn-IsFlagUpdate c =
      update_trans (update_trans (update_zn-IsFlagUpdate p _) (update_v-IsFlagUpdate _ a b _))
        (update_c-IsFlagUpdate _ _ _ c)
