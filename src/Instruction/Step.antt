-- ===== src/Instruction/Step.antt =====
-- One step, and the states that steps lead to.
use prog.Prelude.{
  ℕ, ◌^◌, ◌<◌, ◌≡◌, refl, arith, Option, none, some, ◌==◌, truth, choice, choice_knowing, bit_and,
  Run, ret, ◌>>=◌, Ensures, value, ended, Ensures-bind, Returns-Ensures, Returns-mono, Ensures-mono,
}
use prog.Word.{u8}
use prog.Util.{get_bit, get_bits}
use prog.Util.Macros.{get_bits-eq-field}
use prog.Memory.{Host}
use prog.Core.{Core}
use prog.Core.Valid.{IsValid}
use prog.Core.Access.{Below}
use prog.Core.Fetch.{arm_fetch-IsValid}
use prog.Exception.Reset.{arm_exception-IsValid}
use prog.DataProcessing.Valid.{arm_data_processing_shift-IsValid}
use prog.LoadStore.Single.Valid.{arm_load_store-IsValid}
use prog.LoadStore.Multiple.Valid.{arm_load_store_multiple-IsValid}
use prog.LoadStore.Half.Valid.{arm_load_store_half-IsValid}
use prog.Branch.{arm_coprocessor_others_swi}
use prog.Branch.Target.{arm_branch-IsValid}
use prog.Instruction.{decode, arm_execute_instruction, arm_step}

-- A valid core beside a result.
abbrev KeepsValid : ℕ × Core → Type 0
KeepsValid done = IsValid done.1

swi-Ensures : (p : Core) (ins : ℕ) → Ensures (λ _. Unit {0}) (arm_coprocessor_others_swi p ins)
unfolding arm_coprocessor_others_swi
swi-Ensures p ins =
    choice (Ensures (λ _. Unit {0})) (truth (get_bit ins 24))
      (choice (Ensures (λ _. Unit {0})) (bit_and ins 0xff_ffff == 0x12_3456) ended (value tt))
      (value tt)

module _ (host : Host) where
  -- What decoding a word gives has the result 0 and a valid core.
  abbrev pub Decoded : ℕ × Core → Type 0
  Decoded (result, q) = (result ≡ 0) × IsValid q

  settle :
      {m : Run (ℕ × Core)}
      → Ensures KeepsValid m
      → Ensures Decoded (m >>= (λ done. ret (0, done.1)))
  settle h = Ensures-bind h (λ done k. value (refl, k))

  pub decode-Decoded :
      {p : Core} (ins : ℕ) → IsValid p → ins < 2 ^ 32 → Ensures Decoded (decode host p ins)
  unfolding decode
  decode-Decoded {p} ins valid h =
      let champ = u8 (get_bits ins 27 25) in
      let shift = settle (arm_data_processing_shift-IsValid ins valid) in
      let single =
        settle
          (Returns-Ensures (Returns-mono (arm_load_store-IsValid host ins valid) λ done k. k.1)) in
      let small : champ < 8 = omega (arith, get_bits-eq-field ins 27 25) in
      choice_knowing (Ensures Decoded) (champ == 0)
        (λ _.
          choice (Ensures Decoded) (get_bits ins 7 4 == 0xb)
            (settle (
              Returns-Ensures
                (Returns-mono (arm_load_store_half-IsValid host ins valid) λ done k. k.1)))
            shift)
        λ n0.
          choice_knowing (Ensures Decoded) (champ == 1) (λ _. shift)
            λ n1.
              choice_knowing (Ensures Decoded) (champ == 2) (λ _. single)
                λ n2.
                  choice_knowing (Ensures Decoded) (champ == 3) (λ _. single)
                    λ n3.
                      choice_knowing (Ensures Decoded) (champ == 4)
                        (λ _. settle (
                          Returns-Ensures (
                            Returns-mono (arm_load_store_multiple-IsValid valid ins host)
                              λ done k. k.1)))
                        λ n4.
                          choice_knowing (Ensures Decoded) (champ == 5)
                            (λ _. value (refl, arm_branch-IsValid ins valid))
                            λ n5.
                              choice_knowing (Ensures Decoded) (champ == 6)
                                (λ _. value (refl, valid))
                                λ n6.
                                  choice_knowing (Ensures Decoded) (champ == 7)
                                    (λ _.
                                      Ensures-bind (swi-Ensures p ins) (λ _ _. value (refl, valid)))
                                    λ n7.
                                      absurd (ground (arith, small, n0, n1, n2, n3, n4, n5, n6, n7))

  executed :
      {p : Core}
      → IsValid p
      → Ensures (λ (result, q). (result < 2) × IsValid q) (arm_execute_instruction host p)
  unfolding arm_execute_instruction
  executed valid =
      Ensures-bind (Returns-Ensures (arm_fetch-IsValid valid host)) λ (o, q) (h, k). after o q h k
    where
      after :
          (o : Option ℕ) (q : Core)
          → Below (2 ^ 32) o
          → IsValid q
          → Ensures
              (λ (result, q'). (result < 2) × IsValid q')
              (elim o [ none ↦ ret (1, q) | some ins ↦ decode host q ins ])
      after none q h k = value (omega arith, k)
      after (some ins) q h k =
          Ensures-mono (decode-Decoded ins k h) λ done d. (omega (arith, d.0), d.1)

  -- A step from a valid core that gives a value returns 0 or 1 and leaves the core valid.
  pub arm_step-IsValid :
      {p : Core} → IsValid p → Ensures (λ (result, q). (result < 2) × IsValid q) (arm_step host p)
  unfolding arm_step
  arm_step-IsValid valid = Ensures-bind (executed valid) λ (result, q) (h, k).
      value (h, choice IsValid (truth result) (arm_exception-IsValid (u8 result) k) k)
