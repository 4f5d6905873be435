-- ===== src/Tests/Tracing.antt =====
-- The calls of the macros of trace_location.h, at inputs.
use prog.Prelude.{ℕ, ◌≡◌, refl, arith, true, [], ◌∷◌, Run, ret, codes}
use prog.Tests.{moves_core, moves_core-IsValid}
use prog.Word.{add32}
use prog.Memory.{big}
use prog.Core.{
  arm_read_register, arm_read_usr_register, arm_read_cpsr, arm_read_spsr, arm_write_register,
  arm_write_usr_register, arm_write_cpsr, arm_write_spsr, arm_read_byte, arm_read_half,
  arm_read_word, arm_write_byte, arm_write_half, arm_write_word, arm_fetch,
}
use prog.Trace.{Trace}
use prog.Trace.Accesses.{
  traced_read_register, traced_read_usr_register, traced_read_cpsr, traced_read_spsr,
  traced_write_register, traced_write_usr_register, traced_write_cpsr, traced_write_spsr,
  traced_read_byte, traced_read_half, traced_read_word, traced_write_byte, traced_write_half,
  traced_write_word, traced_fetch, located_call, no_result, read_plus, write_plus, fetch_plus,
}
use prog.Trace.Accesses.Same.{Keeps}
use prog.Trace.Accesses.Calls.{register_calls-Keep, memory_calls-Keep}

-- all is traced, from one location
abbrev traced : Trace ℕ
traced = record {
  output = 1;
  last_address = 0;
  enabled = true;
  locations = (codes "arm_core.c", 7) ∷ [];
  below = 0;
  flags = 11;
  printed = [];
}

abbrev Called : {A : Type 0} → (A → ℕ → A) → (A → Type 0) → (Trace ℕ → Run (A × Trace ℕ)) → Type 0
Called plus Q access =
    Keeps traced Q (located_call plus true (codes "arm_load_store.c") 81 access traced)

register_calls-Keep_example :
    Called add32 (λ x. x ≡ arm_read_register moves_core 15) (traced_read_register moves_core 15)
    × Called add32
        (λ x. x ≡ arm_read_usr_register moves_core 15)
        (traced_read_usr_register moves_core 15)
    × Called add32 (λ x. x ≡ arm_read_cpsr moves_core) (traced_read_cpsr moves_core)
    × Called add32 (λ x. x ≡ arm_read_spsr moves_core) (traced_read_spsr moves_core)
    × Called no_result
        (λ q. q ≡ arm_write_register moves_core 15 40)
        (traced_write_register moves_core 15 40)
    × Called no_result
        (λ q. q ≡ arm_write_usr_register moves_core 15 40)
        (traced_write_usr_register moves_core 15 40)
    × Called no_result (λ q. q ≡ arm_write_cpsr moves_core 40) (traced_write_cpsr moves_core 40)
    × Called no_result (λ q. q ≡ arm_write_spsr moves_core 40) (traced_write_spsr moves_core 40)
register_calls-Keep_example =
    register_calls-Keep moves_core-IsValid true (codes "arm_load_store.c") 81 traced refl
      (omega arith) 15 40 (omega arith) (omega arith)

memory_calls-Keep_example :
    Called
      (read_plus 5)
      (λ o. arm_read_byte moves_core 66 ≡ ret o)
      (traced_read_byte 5 moves_core 66)
    × Called
        (read_plus 5)
        (λ o. arm_read_half big moves_core 66 ≡ ret o)
        (traced_read_half big 5 moves_core 66)
    × Called
        (read_plus 5)
        (λ o. arm_read_word big moves_core 66 ≡ ret o)
        (traced_read_word big 5 moves_core 66)
    × Called write_plus
        (λ r. arm_write_byte moves_core 66 7 ≡ ret r)
        (traced_write_byte moves_core 66 7)
    × Called write_plus
        (λ r. arm_write_half big moves_core 66 8 ≡ ret r)
        (traced_write_half big moves_core 66 8)
    × Called write_plus
        (λ r. arm_write_word big moves_core 66 9 ≡ ret r)
        (traced_write_word big moves_core 66 9)
    × Called (fetch_plus 5) (λ r. arm_fetch big moves_core ≡ ret r) (traced_fetch big 5 moves_core)
memory_calls-Keep_example =
    memory_calls-Keep moves_core-IsValid true (codes "arm_load_store.c") 81 traced refl
      (omega arith) big 5 66 7 8 9 (omega arith) (omega arith) (omega arith)
