-- ===== src/DataProcessing/Written.antt =====
-- What the operations write with S: the result, and N and Z that describe it.
use prog.Prelude.{
  ℕ, ◌^◌, ◌<◌, ◌≡◌, ◌≢◌, refl, ap, sym, ◌∙◌, arith, bit_and, bit_xor, ◌==◌, if◌then◌else◌,
}
use prog.Word.{bit, add32, sub32, not32}
use prog.Util.{get_bit}
use prog.Core.{Core, arm_read_cpsr, arm_read_register, arm_write_register}
use prog.Core.Valid.{arm_read_register-write_self}
use prog.DataProcessing.Operations.{
  update_zn, update_c, arm_tst, arm_teq, arm_cmp, arm_cmn, arm_rsb,
}
use prog.DataProcessing.Flags.{
  flag, flag-write_register, get_bit-eq-flag, update_zn_flags, update_v_flags, update_c_flags,
}
use prog.DataProcessing.Compare.{arm_tst_flags, arm_teq_flags, arm_cmp_flags, arm_cmn_flags}
use prog.DataProcessing.Frame.{
  IsFlagUpdate, update_trans, update_zn-IsFlagUpdate, update_v-IsFlagUpdate, update_c-IsFlagUpdate,
  arm_tst-IsFlagUpdate, arm_teq-IsFlagUpdate, arm_cmp-IsFlagUpdate, arm_cmn-IsFlagUpdate,
}

-- A core q is as p with r in rd and with N and Z as r has them; of the rest only the CPSR may differ.
pub record IsWritten (p : Core) (rd r : ℕ) (q : Core) : Type 0 where
  pub result : q.reg.slots rd ≡ r
  pub negative : flag q 31 ≡ bit r 31
  pub zero_result : flag q 30 ≡ (if r == 0 then 1 else 0)
  pub others : (i : ℕ) → i ≢ rd → i ≢ 16 → q.reg.slots i ≡ p.reg.slots i
  pub mode : q.reg.mode ≡ p.reg.mode
  pub mem : q.mem ≡ p.mem

module _ {rd : ℕ} (low : rd < 15) where
  slots-write_register :
      (p1 : Core) (r i : ℕ)
      → (arm_write_register p1 rd r).reg.slots i ≡ (if i == rd then r else p1.reg.slots i)
  unfolding arm_write_register prog.Registers.write_register
  slots-write_register p1 r i = ground (arith, low)

  frame-write_register :
      (p1 : Core) (r : ℕ)
      → ((arm_write_register p1 rd r).reg.mode ≡ p1.reg.mode)
        × ((arm_write_register p1 rd r).mem ≡ p1.mem)
  unfolding arm_write_register prog.Registers.write_register
  frame-write_register p1 r = (ground arith, refl)

module _ {p : Core} {rd : ℕ} (low : rd < 15) where
  -- The flags first, and then the register.
  flags_first :
      {p1 : Core} {r : ℕ}
      → IsFlagUpdate p p1
      → flag p1 31 ≡ bit r 31
      → flag p1 30 ≡ (if r == 0 then 1 else 0)
      → IsWritten p rd r (arm_write_register p1 rd r)
  flags_first {p1} {r} update n z =
      let frame = frame-write_register low p1 r in
      record {
        result = slots-write_register low p1 r rd ∙ ground arith;
        negative = flag-write_register p1 rd r 31 ∙ n;
        zero_result = flag-write_register p1 rd r 30 ∙ z;
        others =
            λ i h k. slots-write_register low p1 r i ∙ ground (arith, h, update.same.slots i k);
        mode = frame.0 ∙ update.same.mode;
        mem = frame.1 ∙ update.same.mem;
      }

  -- The register first, and then the flags.
  register_first :
      {q : Core} {r : ℕ}
      → IsFlagUpdate (arm_write_register p rd r) q
      → flag q 31 ≡ bit r 31
      → flag q 30 ≡ (if r == 0 then 1 else 0)
      → IsWritten p rd r q
  register_first {q} {r} update n z =
      let frame = frame-write_register low p r in
      record {
        result =
            update.same.slots rd (omega arith) ∙ slots-write_register low p r rd ∙ ground arith;
        negative = n;
        zero_result = z;
        others =
            λ i h k. update.same.slots i k ∙ slots-write_register low p r i ∙ ground (arith, h);
        mode = update.same.mode ∙ frame.0;
        mem = update.same.mem ∙ frame.1;
      }

abbrev pub carry : Core → ℕ
carry p = get_bit (arm_read_cpsr p) 29

carry_lem : (p : Core) → carry p ≡ flag p 29
carry_lem p = get_bit-eq-flag p 29

module _ (p : Core) {rd : ℕ} (low : rd < 15) (a b : ℕ) (a_word : a < 2 ^ 32)
    (b_word : b < 2 ^ 32) where
  -- A comparison with the flag C given as its bit.
  cmp_zn :
      (v : ℕ)
      → (flag (arm_cmp p a b (carry p) v) 31 ≡ bit (sub32 a b) 31)
        × (flag (arm_cmp p a b (carry p) v) 30 ≡ (if sub32 a b == 0 then 1 else 0))
  cmp_zn v =
      let f = arm_cmp_flags p a b a_word b_word v in rw (carry_lem p) (f.0, f.1 ∙ ground arith)

  pub sub_lem :
      (v : ℕ)
      → IsWritten p rd (sub32 a b) (arm_write_register (arm_cmp p a b (carry p) v) rd (sub32 a b))
  sub_lem v = flags_first low (arm_cmp-IsFlagUpdate p a b (carry p) v) (cmp_zn v).0 (cmp_zn v).1

  pub tst_lem :
      (x y : ℕ) → IsWritten p rd (bit_and x y) (arm_write_register (arm_tst p x y) rd (bit_and x y))
  tst_lem x y = let f = arm_tst_flags p x y in flags_first low (arm_tst-IsFlagUpdate p x y) f.0 f.1

  pub teq_lem : IsWritten p rd (bit_xor a b) (arm_write_register (arm_teq p a b) rd (bit_xor a b))
  teq_lem = let f = arm_teq_flags p a b in flags_first low (arm_teq-IsFlagUpdate p a b) f.0 f.1

  pub zn_lem : (r : ℕ) → IsWritten p rd r (arm_write_register (update_zn p r) rd r)
  zn_lem r = let f = update_zn_flags p r in flags_first low (update_zn-IsFlagUpdate p r) f.0 f.1

  pub cmn_lem : IsWritten p rd (add32 (add32 a b) (carry p)) (
      arm_write_register
        (arm_cmn p a (add32 b (carry p)) (carry p))
        rd
        (add32 (add32 a b) (carry p)))
  cmn_lem =
      let sum : add32 a (add32 b (carry p)) ≡ add32 (add32 a b) (carry p) = omega arith in
      let f = arm_cmn_flags p a (add32 b (carry p)) a_word (omega arith) in
      let given = ap (arm_cmn p a (add32 b (carry p))) (carry_lem p) in
      flags_first low (arm_cmn-IsFlagUpdate p a (add32 b (carry p)) (carry p))
        (ap (λ q. flag q 31) given ∙ f.0 ∙ ap (λ x. bit x 31) sum)
        (ap (λ q. flag q 30) given ∙ f.1 ∙ ap (λ x. if x == 0 then 1 else 0) sum)

  pub moved_lem :
      (v : ℕ)
      → (let p1 = arm_write_register p rd v in
          IsWritten p rd v (update_zn p1 (arm_read_register p1 rd)))
  moved_lem v =
      let p1 = arm_write_register p rd v in
      let f = update_zn_flags p1 v in
      rw (arm_read_register-write_self p rd v low)
        (register_first low (update_zn-IsFlagUpdate p1 v) f.0 f.1)

  pub rsb_lem : (v : ℕ) → IsWritten p rd (sub32 a b) (arm_rsb p rd a b 1 (carry p) v)
  unfolding arm_rsb
  rsb_lem v =
      let r = sub32 a b in
      let p1 = arm_write_register p rd r in
      let zn = update_zn p1 r in
      let x = sub32 0xffff_ffff b in
      let y = add32 (not32 a) 1 in
      let c1 = update_c zn x y (carry p) in
      let z = update_zn_flags p1 r in
      let given : (carry p) ≡ flag zn 29 =
        carry_lem p ∙ sym (flag-write_register p rd r 29) ∙ sym (z.2 29 (omega arith)) in
      let k = update_c_flags zn x y (carry p) given in
      let w = update_v_flags c1 b a r in
      register_first low
        (update_trans
          (update_trans (update_zn-IsFlagUpdate p1 r) (update_c-IsFlagUpdate zn x y (carry p)))
          (update_v-IsFlagUpdate c1 b a r))
        (w.1 31 (omega arith) (omega arith) ∙ k.1 31 (omega arith) (omega arith) ∙ z.0)
        (w.1 30 (omega arith) (omega arith) ∙ k.1 30 (omega arith) (omega arith) ∙ z.1)
