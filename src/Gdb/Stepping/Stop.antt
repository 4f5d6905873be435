-- ===== src/Gdb/Stepping/Stop.antt =====
-- Where `cont` stops, and what `step` answers.
use prog.Prelude.{
  ℕ, zero, suc, ◌<◌, ◌≤◌, ◌≡◌, refl, ◌∙◌, arith, Bool, true, false, List, Option, none, some, Run,
  ret, undefined, exited, ◌>>=◌, codes, Ensures, value, ended, no_value, Ensures-bind, Ensures-mono,
}
use prog.Memory.{Host}
use prog.Core.{Core}
use prog.Core.Valid.{IsValid}
use prog.Instruction.{arm_step}
use prog.Instruction.Step.{arm_step-IsValid}
use prog.Gdb.{Gdb, gdb_send_data, gdb_send_stop_reason}
use prog.Gdb.Stepping.{step, next_instruction, is_breakpoint, cont_loop, cont}

bind-same {ℓ κ ι} :
    {A : Type ℓ} {B : Type κ} {P : A → Type ι} {m : Run A} {f g : A → Run B}
    → Ensures P m
    → ((a : A) → P a → f a ≡ g a)
    → m >>= f ≡ m >>= g
bind-same (value p) same = same _ p
bind-same no_value same = refl
bind-same ended same = refl

itself {ℓ} : {A : Type ℓ} → (m : Run A) → Ensures (λ a. m ≡ ret a) m
itself (ret a) = value refl
itself undefined = no_value
itself (exited n) = ended

module _ (host : Host) where
  traced :
      (g : Gdb) (result : ℕ) (p : Core)
      → result < 2
      → gdb_send_stop_reason (record g { arm = p; target_exception = result })
        ≡ gdb_send_data (codes "S05") (record g { arm = p; target_exception = result })
  unfolding gdb_send_stop_reason
  traced g result p h = ground arith

  -- On a valid core `step` executes one step and answers S05, whatever the step returns.
  pub step_lem :
      (g : Gdb) (s : List ℕ)
      → IsValid g.arm
      → step host g s ≡ (
          arm_step host g.arm >>= (λ (result, p).
            gdb_send_data (codes "S05") (record g { arm = p; target_exception = result })))
  unfolding step
  step_lem g s valid =
      bind-same (arm_step-IsValid host valid) λ (result, p) (h, _). traced g result p h

  -- A run of the loop from g, where `instruction` is i, that ends in g' in its n-th round.
  pub data Stops : ℕ → ℕ → Gdb → Gdb → Type 0 where
    at_breakpoint :
        {i i' : ℕ} {g : Gdb}
        → next_instruction host g.arm i ≡ ret i'
        → is_breakpoint host i' ≡ true
        → Stops 1 i g g
    executes :
        {n i i' result : ℕ} {p : Core} {g g' : Gdb}
        → next_instruction host g.arm i ≡ ret i'
        → is_breakpoint host i' ≡ false
        → arm_step host g.arm ≡ ret (result, p)
        → Stops n i' (record g { arm = p; target_exception = result }) g'
        → Stops (suc n) i g g'

  -- The rest of a round that has read i'.
  abbrev rest_of_round : (rounds i' : ℕ) → Gdb → Bool → Run (Option Gdb)
  rest_of_round rounds i' g true = ret (some g)
  rest_of_round rounds i' g false =
      arm_step host g.arm
      >>= (λ done. cont_loop host rounds i' (record g { arm = done.1; target_exception = done.0 }))

  round_read :
      (rounds i i' : ℕ) (g : Gdb)
      → next_instruction host g.arm i ≡ ret i'
      → cont_loop host (suc rounds) i g ≡ rest_of_round rounds i' g (is_breakpoint host i')
  unfolding cont_loop
  round_read rounds i i' g next = rw next refl

  cont_loop-Stops :
      {n i : ℕ} {g g' : Gdb}
      → Stops n i g g'
      → (rounds : ℕ) → n ≤ rounds
      → cont_loop host rounds i g ≡ ret (some g')
  cont_loop-Stops (at_breakpoint next there) zero le = absurd (omega (arith, le))
  cont_loop-Stops (at_breakpoint {i} {i'} {g} next there) (suc rounds) le =
      round_read rounds i i' g next ∙ rw there refl
  cont_loop-Stops (executes next past done rest) zero le = absurd (omega (arith, le))
  cont_loop-Stops (executes {n} {i} {i'} {result} {p} {g} next past done rest) (suc rounds) le =
      round_read rounds i i' g next
      ∙ rw (past, done) (cont_loop-Stops rest rounds (omega (arith, le)))

  -- What some rounds of the loop give: a run that is not over, or one that stops within them.
  pub data Within (rounds i : ℕ) (g : Gdb) : Option Gdb → Type 0 where
    running : Within rounds i g none
    over : {n : ℕ} {g' : Gdb} → n ≤ rounds → Stops n i g g' → Within rounds i g (some g')

  longer :
      {rounds i i' result : ℕ} {p : Core} {g : Gdb} {o : Option Gdb}
      → next_instruction host g.arm i ≡ ret i'
      → is_breakpoint host i' ≡ false
      → arm_step host g.arm ≡ ret (result, p)
      → Within rounds i' (record g { arm = p; target_exception = result }) o
      → Within (suc rounds) i g o
  longer next past done running = running
  longer next past done (over le rest) = over (omega (arith, le)) (executes next past done rest)

  after_read :
      (rounds i i' : ℕ) (g : Gdb) (b : Bool)
      → next_instruction host g.arm i ≡ ret i'
      → is_breakpoint host i' ≡ b
      → ((g₁ : Gdb) → Ensures (Within rounds i' g₁) (cont_loop host rounds i' g₁))
      → Ensures (Within (suc rounds) i g) (rest_of_round rounds i' g b)
  after_read rounds i i' g true next there rest =
      value (over (omega arith) (at_breakpoint next there))
  after_read rounds i i' g false next past rest =
      Ensures-bind (itself (arm_step host g.arm))
        λ (result, p) done. Ensures-mono (rest _) λ o more. longer next past done more

  -- The rounds of the loop, if they give a value, are still running or have stopped at a breakpoint, by
  -- a run of as many rounds at most.
  pub cont_loop-Within :
      (rounds i : ℕ) (g : Gdb) → Ensures (Within rounds i g) (cont_loop host rounds i g)
  unfolding cont_loop
  cont_loop-Within zero i g = value running
  cont_loop-Within (suc rounds) i g =
      Ensures-bind (itself (next_instruction host g.arm i)) λ i' next.
        after_read rounds i i' g (is_breakpoint host i') next refl (cont_loop-Within rounds i')

  -- From g a run that reaches a breakpoint in its n-th round: with as many rounds or more, `cont` ends in
  -- the state at that breakpoint and answers the reason of the stop.
  pub cont_lem :
      {n i : ℕ} {g g' : Gdb} (s : List ℕ) (rounds : ℕ)
      → Stops n i g g'
      → n ≤ rounds
      → cont host rounds i g s ≡ (gdb_send_stop_reason g' >>= (λ answered. ret (some answered)))
  unfolding cont
  cont_lem s rounds stops le = rw (cont_loop-Stops stops rounds le) refl
