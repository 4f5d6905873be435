-- ===== src/Trace/Accesses/Same.antt =====
-- The traced accesses against those of Core.
use prog.Prelude.{
  ℕ, ◌+◌, ◌%◌, ◌^◌, ◌<◌, ◌≡◌, refl, ap, sym, ◌∙◌, arith, Bool, true, false, Bool-cases, inl, inr,
  Option, List, length, Run, ret, ◌>>=◌, Returns, returns, Returns-bind,
}
use prog.Word.{add32, sub32}
use prog.Memory.{Host, Status, memory_read_word}
use prog.Core.{Core, arm_read_register, arm_write_register, arm_read_word, arm_fetch}
use prog.Core.Valid.{IsValid, arm_write_register-IsValid}
use prog.Core.Access.{Below, arm_read_word-Below}
use prog.Trace.{Trace, trace_register}
use prog.Trace.Locations.{SamePlace, pushed, start_on, start_off, end_on, end_off}
use prog.Trace.Output.{trace_register-Returns, trace_memory-Returns}
use prog.Trace.Accesses.{
  read_traced, write_traced, seen, traced_read_register, traced_write_register, traced_fetch,
  located_call,
}

-- A result that a run gives, with the equation.
result-Returns :
    {A : Type 0} {P : A → Type 0} {m : Run A} → Returns P m → Returns (λ a. m ≡ ret a) m
result-Returns (returns p) = returns refl

-- Reading a word of a valid core is defined.
read_defined :
    (host : Host) {p : Core}
    → IsValid p
    → (a : ℕ) → Returns (Below (2 ^ 32)) (memory_read_word host p.mem a)
unfolding arm_read_word
read_defined host valid a = arm_read_word-Below valid a host

module _ {File : Type 0} where
  -- A traced access that is defined, with a result that satisfies Q and the stack of locations as it was.
  abbrev pub Keeps : {A : Type 0} → Trace File → (A → Type 0) → Run (A × Trace File) → Type 0
  Keeps t Q m = Returns (λ (a, t'). Q a × SamePlace t t') m

  pub trans : {t u v : Trace File} → SamePlace t u → SamePlace u v → SamePlace t v
  trans s r = record {
    locations = r.locations ∙ s.locations;
    below = r.below ∙ s.below;
    enabled = r.enabled ∙ s.enabled;
  }

  -- The macros around an access change nothing more, whichever order END_LOCATION runs in.
  pub located_call-Keeps :
      {A : Type 0} (plus : A → ℕ → A) (Q : A → Type 0) (end_first : Bool) (file : List ℕ) (line : ℕ)
      {access : Trace File → Run (A × Trace File)} (t : Trace File)
      → t.below ≡ 0
      → length t.locations < 128
      → ((a : A) → Q a → plus a 0 ≡ a)
      → ((u : Trace File) → Keeps u Q (access u))
      → Keeps t Q (located_call plus end_first file line access t)
  unfolding located_call
  located_call-Keeps plus Q true file line t top room idle keeps = elim (Bool-cases t.enabled) [
    | inl on ↦
        rw
          (
            start_on file line t on top room,
            end_on (pushed file line t) (file, line) t.locations on refl,
          )
          (Returns-bind (keeps t) λ (a, u) (q, same). rw (idle a q) (returns (q, same)))
    | inr off ↦
        rw (start_off file line t off, end_off t off)
          (Returns-bind (keeps t) λ (a, u) (q, same). rw (idle a q) (returns (q, same)))
  ]
  located_call-Keeps plus Q false file line t top room idle keeps = elim (Bool-cases t.enabled) [
    | inl on ↦ rw (start_on file line t on top room) (
        Returns-bind (keeps (pushed file line t)) λ (a, u) (q, same).
          rw (end_on u (file, line) t.locations (same.enabled ∙ on) same.locations, idle a q)
            (returns (q, record { locations = refl; below = same.below; enabled = same.enabled })))
    | inr off ↦ rw (start_off file line t off) (
        Returns-bind (keeps t)
          λ (a, u) (q, same). rw (end_off u (same.enabled ∙ off), idle a q) (returns (q, same)))
  ]

  module _ {A : Type 0} (cycle type reg mode value : ℕ) (result : A) (t : Trace File) where
    pub register-Keeps :
        type < 2
        → reg < 18
        → mode < 32
        → Keeps t
            (λ a. a ≡ result)
            (trace_register cycle type reg mode value t >>= (λ t'. ret (result, t')))
    register-Keeps ht hr hm =
        Returns-bind (trace_register-Returns cycle type reg mode value t ht hr hm)
          λ t' same. returns (refl, same)

  pub read_traced-Keeps :
      {P : Option ℕ → Type 0} {m : Run (Option ℕ)} (garbage size : ℕ) (p : Core) (a : ℕ)
      (t : Trace File)
      → Returns P m
      → Keeps t (λ o. m ≡ ret o) (read_traced garbage size p a m t)
  read_traced-Keeps garbage size p a t given = Returns-bind (result-Returns given) λ o e.
      Returns-bind
        (trace_memory-Returns p.cycle_count 1 size 0 a (seen garbage o) t (omega arith)
          (omega arith))
        λ t' same. returns (e, same)

  pub write_traced-Keeps :
      {P : Status × Core → Type 0} {m : Run (Status × Core)} (size a v : ℕ) (t : Trace File)
      → Returns P m
      → Keeps t (λ done. m ≡ ret done) (write_traced size a v m t)
  write_traced-Keeps size a v t given = Returns-bind (result-Returns given) λ done e.
      Returns-bind
        (trace_memory-Returns done.1.cycle_count 0 size 0 a v t (omega arith) (omega arith))
        λ t' same. returns (e, same)

  module _ {p : Core} (valid : IsValid p) where
    pub read_register-Keeps :
        (reg : ℕ) (t : Trace File)
        → reg < 16
        → Keeps t (λ v. v ≡ arm_read_register p reg) (traced_read_register p reg t)
    unfolding traced_read_register
    read_register-Keeps reg t h =
        register-Keeps p.cycle_count 1 reg p.reg.mode (arm_read_register p reg)
          (arm_read_register p reg) t (omega arith) (omega arith) (omega (arith, valid.user))

    pub write_register-Keeps :
        (reg v : ℕ) (t : Trace File)
        → reg < 16
        → v < 2 ^ 32
        → Keeps t (λ p'. p' ≡ arm_write_register p reg v) (traced_write_register p reg v t)
    unfolding traced_write_register
    write_register-Keeps reg v t h word =
        let q = arm_write_register p reg v in
        register-Keeps q.cycle_count 0 reg q.reg.mode v q t (omega arith) (omega arith)
          (omega (arith, (arm_write_register-IsValid valid reg v word).user))

  module _ {p : Core} (valid : IsValid p) where
    pub fetch-Keeps :
        (host : Host) (garbage : ℕ) (t : Trace File)
        → Keeps t (λ r. arm_fetch host p ≡ ret r) (traced_fetch host garbage p t)
    unfolding traced_fetch arm_fetch
    fetch-Keeps host garbage t =
        let p' = record p { cycle_count = (p.cycle_count + 1) % 2 ^ 32 } in
        let valid' : IsValid p' = record {
          word = valid.word;
          user = valid.user;
          memory = valid.memory;
        } in
        let address = sub32 (arm_read_register p' 15) 4 in
        Returns-bind (read_register-Keeps valid' 15 t (omega arith)) λ (pc, t1) (e, s1). rw e (
          Returns-bind (result-Returns (read_defined host valid' address)) λ o found.
            Returns-bind
              (trace_memory-Returns p'.cycle_count 1 4 1 address (seen garbage o) t1 (omega arith)
                (omega arith))
              λ t2 s2.
                Returns-bind
                  (write_register-Keeps valid' 15 (add32 address 4) t2 (omega arith) (omega arith))
                  λ (p'', t3) (e', s3). returns (
                    ap
                          (λ m.
                            m
                            >>= (λ value. ret (value, arm_write_register p' 15 (add32 address 4))))
                          found
                        ∙ ap (λ q. ret (o, q)) (sym e'),
                    trans s1 (trans s2 s3),
                  ))
