-- ===== src/Trace/Accesses.antt =====
-- The accesses of arm_core.c with their calls of trace.c, and the macros of trace_location.h around them.
-- `p` is as the function leaves it; the trace is passed along.
pub mod Same
pub mod Calls
use prog.Prelude.{
  ℕ, ◌+◌, ◌%◌, ◌^◌, Bool, Option, none, some, List, ◌==◌, if◌then◌else◌, Run, ret, ◌>>=◌,
}
use prog.Constants.{usr}
use prog.Word.{add32, sub32}
use prog.Memory.{Host, Status, success, failure, memory_read_word}
use prog.Core.{
  Core, arm_read_register, arm_read_usr_register, arm_read_cpsr, arm_read_spsr, arm_write_register,
  arm_write_usr_register, arm_write_cpsr, arm_write_spsr, arm_read_byte, arm_read_half,
  arm_read_word, arm_write_byte, arm_write_half, arm_write_word,
}
use prog.Trace.{Trace, trace_start_location, trace_end_location, trace_memory, trace_register}

abbrev write : ℕ
write = 0

abbrev read : ℕ
read = 1

abbrev other_access : ℕ
other_access = 0

abbrev opcode_fetch : ℕ
opcode_fetch = 1

abbrev cpsr : ℕ
cpsr = 16

abbrev spsr : ℕ
spsr = 17

-- `*value` after a read: a read that fails leaves what was there.
abbrev seen : (garbage : ℕ) → Option ℕ → ℕ
seen garbage none = garbage
seen garbage (some v) = v

-- A result and what END_LOCATION returns: none of a write to a register, which ends in a comma; and the
-- int 0 of an access that is made and -1 of one that fails, in a sum.
abbrev pub no_result : Core → ℕ → Core
no_result p returned = p

abbrev pub read_plus : (garbage : ℕ) → Option ℕ → ℕ → Option ℕ
read_plus garbage none returned = if returned == 1 then some garbage else none
read_plus garbage (some v) returned = if returned == 0 then some v else none

abbrev pub status_plus : Status → ℕ → Status
status_plus success returned = if returned == 0 then success else failure
status_plus failure returned = if returned == 1 then success else failure

abbrev pub write_plus : Status × Core → ℕ → Status × Core
write_plus (status, p) returned = (status_plus status returned, p)

abbrev pub fetch_plus : (garbage : ℕ) → Option ℕ × Core → ℕ → Option ℕ × Core
fetch_plus garbage (o, p) returned = (read_plus garbage o returned, p)

module _ {File : Type 0} where
  abbrev register_traced :
      {A : Type 0} → Core → (type reg mode value : ℕ) → A → Trace File → Run (A × Trace File)
  register_traced p type reg mode value result t =
      trace_register p.cycle_count type reg mode value t >>= (λ t'. ret (result, t'))

  unfoldable pub traced_read_register : Core → ℕ → Trace File → Run (ℕ × Trace File)
  traced_read_register p reg =
      let value = arm_read_register p reg in register_traced p read reg p.reg.mode value value

  unfoldable pub traced_read_usr_register : Core → ℕ → Trace File → Run (ℕ × Trace File)
  traced_read_usr_register p reg =
      let value = arm_read_usr_register p reg in register_traced p read reg usr value value

  unfoldable pub traced_read_cpsr : Core → Trace File → Run (ℕ × Trace File)
  traced_read_cpsr p = let value = arm_read_cpsr p in register_traced p read cpsr 0 value value

  unfoldable pub traced_read_spsr : Core → Trace File → Run (ℕ × Trace File)
  traced_read_spsr p =
      let value = arm_read_spsr p in register_traced p read spsr p.reg.mode value value

  unfoldable pub traced_write_register : Core → ℕ → ℕ → Trace File → Run (Core × Trace File)
  traced_write_register p reg value =
      let p' = arm_write_register p reg value in register_traced p' write reg p'.reg.mode value p'

  unfoldable pub traced_write_usr_register : Core → ℕ → ℕ → Trace File → Run (Core × Trace File)
  traced_write_usr_register p reg value =
      let p' = arm_write_usr_register p reg value in register_traced p' write reg usr value p'

  unfoldable pub traced_write_cpsr : Core → ℕ → Trace File → Run (Core × Trace File)
  traced_write_cpsr p value =
      let p' = arm_write_cpsr p value in register_traced p' write cpsr 0 value p'

  unfoldable pub traced_write_spsr : Core → ℕ → Trace File → Run (Core × Trace File)
  traced_write_spsr p value =
      let p' = arm_write_spsr p value in register_traced p' write spsr p'.reg.mode value p'

  abbrev memory_traced :
      {A : Type 0}
      → Core
      → (type size cause address value : ℕ) → A
      → Trace File
      → Run (A × Trace File)
  memory_traced p type size cause address value result t =
      trace_memory p.cycle_count type size cause address value t >>= (λ t'. ret (result, t'))

  abbrev pub read_traced :
      (garbage size : ℕ)
      → Core
      → (address : ℕ) → Run (Option ℕ)
      → Trace File
      → Run (Option ℕ × Trace File)
  read_traced garbage size p address result t =
      result >>= (λ o. memory_traced p read size other_access address (seen garbage o) o t)

  abbrev pub write_traced :
      (size address value : ℕ)
      → Run (Status × Core)
      → Trace File
      → Run ((Status × Core) × Trace File)
  write_traced size address value result t =
      result >>= (λ done. memory_traced done.1 write size other_access address value done t)

  unfoldable pub traced_read_byte :
      (garbage : ℕ) → Core → ℕ → Trace File → Run (Option ℕ × Trace File)
  traced_read_byte garbage p address = read_traced garbage 1 p address (arm_read_byte p address)

  unfoldable pub traced_write_byte : Core → ℕ → ℕ → Trace File → Run ((Status × Core) × Trace File)
  traced_write_byte p address value = write_traced 1 address value (arm_write_byte p address value)

  module _ (host : Host) where
    unfoldable pub traced_read_half :
        (garbage : ℕ) → Core → ℕ → Trace File → Run (Option ℕ × Trace File)
    traced_read_half garbage p address =
        read_traced garbage 2 p address (arm_read_half host p address)

    unfoldable pub traced_read_word :
        (garbage : ℕ) → Core → ℕ → Trace File → Run (Option ℕ × Trace File)
    traced_read_word garbage p address =
        read_traced garbage 4 p address (arm_read_word host p address)

    unfoldable pub traced_write_half :
        Core → ℕ → ℕ → Trace File → Run ((Status × Core) × Trace File)
    traced_write_half p address value =
        write_traced 2 address value (arm_write_half host p address value)

    unfoldable pub traced_write_word :
        Core → ℕ → ℕ → Trace File → Run ((Status × Core) × Trace File)
    traced_write_word p address value =
        write_traced 4 address value (arm_write_word host p address value)

    -- `garbage` is what the variable of the caller holds.
    unfoldable pub traced_fetch :
        (garbage : ℕ) → Core → Trace File → Run ((Option ℕ × Core) × Trace File)
    unfolding traced_read_register traced_write_register
    traced_fetch garbage p t = do
      let p' = record p { cycle_count = (p.cycle_count + 1) % 2 ^ 32 }
      (pc, t1) ← traced_read_register p' 15 t
      let address = sub32 pc 4
      value ← memory_read_word host p'.mem address
      t2 ← trace_memory p'.cycle_count read 4 opcode_fetch address (seen garbage value) t1
      (p'', t3) ← traced_write_register p' 15 (add32 address 4) t2
      ret ((value, p''), t3)

  -- The macros: LOCATION, then the access and END_LOCATION, which are the operands of a `+` where the
  -- access has a result. C leaves their order open, so it is an argument; `plus` adds what END_LOCATION
  -- returns to the result.
  unfoldable pub located_call :
      {A : Type 0}
      → (plus : A → ℕ → A) (end_first : Bool) (file : List ℕ) (line : ℕ)
      → (Trace File → Run (A × Trace File))
      → Trace File
      → Run (A × Trace File)
  located_call plus end_first file line access t = trace_start_location file line t >>= (λ t1.
      if end_first
      then (let ended = trace_end_location t1 in
          access ended.1 >>= (λ (result, t2). ret (plus result ended.0, t2)))
      else access t1 >>= (λ (result, t2).
        let ended = trace_end_location t2 in ret (plus result ended.0, ended.1)))
