-- ===== src/Trace/Accesses/Calls.antt =====
-- The macros of trace_location.h around each traced access.
use prog.Prelude.{
  ℕ, ◌^◌, ◌<◌, ◌≡◌, refl, ap, arith, Option, none, some, Bool, List, length, Run, ret,
}
use prog.Constants.{usr}
use prog.Word.{add32}
use prog.Memory.{Host, Status, success, failure}
use prog.Core.{
  Core, arm_read_register, arm_read_usr_register, arm_read_cpsr, arm_read_spsr, arm_write_register,
  arm_write_usr_register, arm_write_cpsr, arm_write_spsr, arm_read_byte, arm_read_half,
  arm_read_word, arm_write_byte, arm_write_half, arm_write_word, arm_fetch,
}
use prog.Core.Valid.{
  IsValid, arm_read_register-lt, arm_read_cpsr-lt, arm_read_usr_register-lt, arm_read_spsr-lt,
}
use prog.Core.Access.{
  arm_read_byte-Below, arm_read_half-Below, arm_read_word-Below, arm_write_byte-IsValid,
  arm_write_half-IsValid, arm_write_word-IsValid,
}
use prog.Trace.{Trace}
use prog.Trace.Accesses.{
  traced_read_register, traced_read_usr_register, traced_read_cpsr, traced_read_spsr,
  traced_write_register, traced_write_usr_register, traced_write_cpsr, traced_write_spsr,
  traced_read_byte, traced_read_half, traced_read_word, traced_write_byte, traced_write_half,
  traced_write_word, traced_fetch, located_call, no_result, read_plus, write_plus, fetch_plus,
}
use prog.Trace.Accesses.Same.{
  Keeps, located_call-Keeps, register-Keeps, read_register-Keeps, write_register-Keeps,
  read_traced-Keeps, write_traced-Keeps, fetch-Keeps,
}

-- END_LOCATION returns 0, which changes no result.
read_idle : (garbage : ℕ) (o : Option ℕ) → read_plus garbage o 0 ≡ o
read_idle garbage none = refl
read_idle garbage (some v) = refl

write_idle : (r : Status × Core) → write_plus r 0 ≡ r
write_idle (success, p) = refl
write_idle (failure, p) = refl

fetch_idle : (garbage : ℕ) (r : Option ℕ × Core) → fetch_plus garbage r 0 ≡ r
fetch_idle garbage (o, p) = ap (λ o'. (o', p)) (read_idle garbage o)

module _ {File : Type 0} where
  -- The calls of the macros, on a stack of locations that has room.
  module _ {p : Core} (valid : IsValid p) (end_first : Bool) (file : List ℕ) (line : ℕ)
      (t : Trace File) (top : t.below ≡ 0) (room : length t.locations < 128) where
    abbrev Called :
        {A : Type 0} → (A → ℕ → A) → (A → Type 0) → (Trace File → Run (A × Trace File)) → Type 0
    Called plus Q access = Keeps t Q (located_call plus end_first file line access t)

    called :
        {A : Type 0} (plus : A → ℕ → A) (Q : A → Type 0)
        {access : Trace File → Run (A × Trace File)}
        → ((a : A) → Q a → plus a 0 ≡ a)
        → ((u : Trace File) → Keeps u Q (access u))
        → Called plus Q access
    called plus Q idle keeps = located_call-Keeps plus Q end_first file line t top room idle keeps

    -- A word, and 0 added to it.
    word_idle : (word : ℕ) → word < 2 ^ 32 → (x : ℕ) → x ≡ word → add32 x 0 ≡ x
    word_idle word h x e = omega (arith, h, e)

    -- On a valid core, a trace whose stack of locations has room and whose top is not below it: a call of a
    -- macro of trace_location.h for a register access is defined, in whichever order END_LOCATION runs,
    -- its result is that of the access without a trace, and it leaves the stack and the switch as they were.
    pub register_calls-Keep :
        (reg v : ℕ)
        → reg < 16
        → v < 2 ^ 32
        → Called add32 (λ x. x ≡ arm_read_register p reg) (traced_read_register p reg)
          × Called add32 (λ x. x ≡ arm_read_usr_register p reg) (traced_read_usr_register p reg)
          × Called add32 (λ x. x ≡ arm_read_cpsr p) (traced_read_cpsr p)
          × Called add32 (λ x. x ≡ arm_read_spsr p) (traced_read_spsr p)
          × Called no_result (λ q. q ≡ arm_write_register p reg v) (traced_write_register p reg v)
          × Called no_result
              (λ q. q ≡ arm_write_usr_register p reg v)
              (traced_write_usr_register p reg v)
          × Called no_result (λ q. q ≡ arm_write_cpsr p v) (traced_write_cpsr p v)
          × Called no_result (λ q. q ≡ arm_write_spsr p v) (traced_write_spsr p v)
    unfolding traced_read_usr_register traced_read_cpsr traced_read_spsr traced_write_usr_register
        traced_write_cpsr traced_write_spsr arm_write_spsr
    register_calls-Keep reg v low word =
        let regs : reg < 18 = omega arith in
        (
          called add32 _ (word_idle _ (arm_read_register-lt valid reg))
              (λ u. read_register-Keeps valid reg u low),
          called add32 _ (word_idle _ (arm_read_usr_register-lt valid reg))
              (λ u. register-Keeps p.cycle_count 1 reg usr _ _ u (omega arith) regs (omega arith)),
          called add32 _ (word_idle _ (arm_read_cpsr-lt valid)) (λ u.
              register-Keeps p.cycle_count 1 16 0 _ _ u (omega arith) (omega arith) (omega arith)),
          called add32 _ (word_idle _ (arm_read_spsr-lt valid)) (λ u.
              register-Keeps p.cycle_count 1 17 p.reg.mode _ _ u (omega arith) (omega arith)
                (omega (arith, valid.user))),
          called no_result _ (λ _ _. refl) (λ u. write_register-Keeps valid reg v u low word),
          called no_result _ (λ _ _. refl)
              (λ u. register-Keeps _ 0 reg usr v _ u (omega arith) regs (omega arith)),
          called no_result _ (λ _ _. refl)
              (λ u. register-Keeps _ 0 16 0 v _ u (omega arith) (omega arith) (omega arith)),
          called no_result _ (λ _ _. refl)
              (λ u.
                register-Keeps _ 0 17 _ v _ u (omega arith) (omega arith)
                  (omega (arith, valid.user))),
        )

    -- On a valid core, a trace whose stack of locations has room and whose top is not below it: a call of a
    -- macro of trace_location.h for an access to the memory or for the fetch is defined, in whichever order
    -- END_LOCATION runs and whatever the caller's variable holds, its result is that of the access without a
    -- trace, failures included, and it leaves the stack and the switch as they were.
    pub memory_calls-Keep :
        (host : Host) (garbage a b h w : ℕ)
        → b < 256
        → h < 2 ^ 16
        → w < 2 ^ 32
        → Called (read_plus garbage) (λ o. arm_read_byte p a ≡ ret o) (traced_read_byte garbage p a)
          × Called
              (read_plus garbage)
              (λ o. arm_read_half host p a ≡ ret o)
              (traced_read_half host garbage p a)
          × Called
              (read_plus garbage)
              (λ o. arm_read_word host p a ≡ ret o)
              (traced_read_word host garbage p a)
          × Called write_plus (λ r. arm_write_byte p a b ≡ ret r) (traced_write_byte p a b)
          × Called write_plus
              (λ r. arm_write_half host p a h ≡ ret r)
              (traced_write_half host p a h)
          × Called write_plus
              (λ r. arm_write_word host p a w ≡ ret r)
              (traced_write_word host p a w)
          × Called
              (fetch_plus garbage)
              (λ r. arm_fetch host p ≡ ret r)
              (traced_fetch host garbage p)
    unfolding traced_read_byte traced_read_half traced_read_word traced_write_byte traced_write_half
        traced_write_word
    memory_calls-Keep host garbage a b h w byte half word = (
      called (read_plus garbage) _ (λ o _. read_idle garbage o)
          (λ u. read_traced-Keeps garbage 1 p a u (arm_read_byte-Below valid a)),
      called (read_plus garbage) _ (λ o _. read_idle garbage o)
          (λ u. read_traced-Keeps garbage 2 p a u (arm_read_half-Below valid a host)),
      called (read_plus garbage) _ (λ o _. read_idle garbage o)
          (λ u. read_traced-Keeps garbage 4 p a u (arm_read_word-Below valid a host)),
      called write_plus _ (λ r _. write_idle r)
          (λ u. write_traced-Keeps 1 a b u (arm_write_byte-IsValid valid a b byte)),
      called write_plus _ (λ r _. write_idle r)
          (λ u. write_traced-Keeps 2 a h u (arm_write_half-IsValid valid a host h half)),
      called write_plus _ (λ r _. write_idle r)
          (λ u. write_traced-Keeps 4 a w u (arm_write_word-IsValid valid a host w word)),
      called (fetch_plus garbage) _ (λ r _. fetch_idle garbage r)
          (λ u. fetch-Keeps valid host garbage u),
    )
