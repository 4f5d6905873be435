-- ===== src/Instruction/Outcome.antt =====
-- What one step does with a fetch that succeeds and with one that fails.
use prog.Prelude.{
  ℕ, ◌%◌, ◌≡◌, refl, inl, inr, Bool-cases, ltb, if◌then◌else◌, truth, arith, Run, ret, ◌>>=◌,
  Ensures, value, ended, no_value,
}
use prog.Constants.{reset}
use prog.Word.{u8}
use prog.Memory.{Host}
use prog.Memory.Spec.{word_at}
use prog.Memory.Store.{word_at-lt}
use prog.Core.{Core}
use prog.Core.Valid.{IsValid}
use prog.Core.Fetch.{fetched, fetched-IsValid, arm_fetch_lem}
use prog.Exception.{arm_exception}
use prog.Instruction.{decode, arm_execute_instruction, arm_step}
use prog.Instruction.Step.{Decoded, decode-Decoded}

-- The step's use of what it has executed.
raise_on : ℕ × Core → Run (ℕ × Core)
raise_on (result, p) = ret (result, if truth result then arm_exception p (u8 result) else p)

module _ (host : Host) where
  quiet : (m : Run (ℕ × Core)) → Ensures (Decoded host) m → m >>= raise_on ≡ m
  unfolding raise_on
  quiet _ (value {a = (result, q)} (zero_result, _)) = ground (arith, zero_result)
  quiet _ no_value = refl
  quiet _ ended = refl

  -- From a valid core with an aligned pc: where the pc is inside the memory a step is what decoding
  -- the word there does to the fetched core, and raises no exception; where it is outside, the step
  -- returns 1 and resets the core.
  pub arm_step_lem :
      {p : Core}
      → IsValid p
      → p.reg.slots 15 % 4 ≡ 0
      → arm_step host p ≡ (
          if ltb (p.reg.slots 15) p.mem.size
          then decode host (fetched p) (word_at p.mem (p.reg.slots 15))
          else ret (1, arm_exception (fetched p) reset))
  unfolding arm_step arm_execute_instruction raise_on
  arm_step_lem {p} valid aligned = elim (Bool-cases (ltb (p.reg.slots 15) p.mem.size)) [
    | inl inside ↦
        rw ((arm_fetch_lem valid host aligned).0, inside)
          (quiet _ (decode-Decoded host _ (fetched-IsValid valid) (word_at-lt valid.memory _)))
    | inr outside ↦ rw ((arm_fetch_lem valid host aligned).0, outside) refl
  ]
