-- ===== src/DataProcessing/Flags.antt =====
-- What the flag updates do to the CPSR, bit by bit.
use prog.Prelude.{
  ℕ, ap, ◌<◌, ◌≡◌, ◌≢◌, ◌∙◌, Bool, true, false, arith, ◌==◌, ltb, not, ◌&&◌, if◌then◌else◌,
}
use prog.Word.{bit}
use prog.Util.{get_bit}
use prog.Util.Macros.{
  get_bit-eq-bit, bit-set_bit_self, bit-set_bit_ne, bit-clr_bit_self, bit-clr_bit_ne,
}
use prog.Core.{Core, arm_read_cpsr, arm_write_cpsr, arm_write_register}
use prog.Core.Valid.{arm_read_cpsr-write_register}
use prog.DataProcessing.Operations.{raise, lower, update_zn, update_v, update_c}

-- The bit j of the CPSR.
pub flag : Core → ℕ → ℕ
flag p j = bit (arm_read_cpsr p) j

pub flag-lt : (p : Core) (j : ℕ) → flag p j < 2
unfolding flag
flag-lt p j = omega arith

pub get_bit-eq-flag : (p : Core) (j : ℕ) → get_bit (arm_read_cpsr p) j ≡ flag p j
unfolding flag
get_bit-eq-flag p j = get_bit-eq-bit (arm_read_cpsr p) j

-- A register write leaves the flags alone.
pub flag-write_register : (p : Core) (reg v j : ℕ) → flag (arm_write_register p reg v) j ≡ flag p j
unfolding flag
flag-write_register p reg v j = ap (λ c. bit c j) (arm_read_cpsr-write_register p reg v)

module _ (p : Core) (i : ℕ) (in_word : i < 32) where
  pub flag-raise_self : flag (raise p i) i ≡ 1
  unfolding flag raise arm_read_cpsr arm_write_cpsr
  flag-raise_self = bit-set_bit_self (arm_read_cpsr p) i in_word

  pub flag-lower_self : flag (lower p i) i ≡ 0
  unfolding flag lower arm_read_cpsr arm_write_cpsr
  flag-lower_self = bit-clr_bit_self (arm_read_cpsr p) i in_word

  pub flag-raise_ne : (j : ℕ) → j ≢ i → flag (raise p i) j ≡ flag p j
  unfolding flag raise arm_read_cpsr arm_write_cpsr
  flag-raise_ne = bit-set_bit_ne (arm_read_cpsr p) i in_word

  pub flag-lower_ne : (j : ℕ) → j < 32 → j ≢ i → flag (lower p i) j ≡ flag p j
  unfolding flag lower arm_read_cpsr arm_write_cpsr
  flag-lower_ne = bit-clr_bit_ne (arm_read_cpsr p) i in_word

  -- Raising or lowering by a test.
  pub flag-by_test_self :
      (b : Bool) → flag (if b then raise p i else lower p i) i ≡ (if b then 1 else 0)
  flag-by_test_self true = flag-raise_self
  flag-by_test_self false = flag-lower_self

  pub flag-by_test_ne :
      (b : Bool) (j : ℕ) → j < 32 → j ≢ i → flag (if b then raise p i else lower p i) j ≡ flag p j
  flag-by_test_ne true j h ne = flag-raise_ne j ne
  flag-by_test_ne false j h ne = flag-lower_ne j h ne

-- `updateZN` sets Z on a zero result, N to the result's bit 31, and no other bit.
pub update_zn_flags :
    (p : Core) (result : ℕ)
    → (flag (update_zn p result) 31 ≡ bit result 31)
      × (flag (update_zn p result) 30 ≡ (if result == 0 then 1 else 0))
      × ((j : ℕ) → j < 30 → flag (update_zn p result) j ≡ flag p j)
unfolding update_zn
update_zn_flags p result = (
  ground (
    arith,
    flag-by_test_self p1 31 (omega arith) (get_bit result 31 == 1),
    get_bit-eq-bit result 31,
  ),
  flag-by_test_ne p1 31 (omega arith) (get_bit result 31 == 1) 30 (omega arith) (omega arith)
      ∙ flag-by_test_self p 30 (omega arith) (result == 0),
  λ j h.
      flag-by_test_ne p1 31 (omega arith) (get_bit result 31 == 1) j (omega arith) (omega arith)
      ∙ flag-by_test_ne p 30 (omega arith) (result == 0) j (omega arith) (omega arith),
)
  where
    p1 : Core
    p1 = if result == 0 then raise p 30 else lower p 30

-- The V update sets V when the operands' signs agree and the result's differs, and no other bit.
pub update_v_flags :
    (p : Core) (a b r : ℕ)
    → (flag (update_v p a b r) 28
        ≡ (if (bit a 31 == bit b 31) && not (bit a 31 == bit r 31) then 1 else 0))
      × ((j : ℕ) → j < 32 → j ≢ 28 → flag (update_v p a b r) j ≡ flag p j)
unfolding update_v
update_v_flags p a b r = (
  rw (← get_bit-eq-bit a 31, ← get_bit-eq-bit b 31, ← get_bit-eq-bit r 31)
      (flag-by_test_self p 28 (omega arith) _),
  λ j h ne. flag-by_test_ne p 28 (omega arith) _ j h ne,
)

-- The C update, given the C flag, sets C when a < b and clears it else, and no other bit.
pub update_c_flags :
    (p : Core) (a b c : ℕ)
    → c ≡ flag p 29
    → (flag (update_c p a b c) 29 ≡ (if ltb a b then 1 else 0))
      × ((j : ℕ) → j < 32 → j ≢ 29 → flag (update_c p a b c) j ≡ flag p j)
unfolding update_c
update_c_flags p a b c e = (
  ground (arith, flag-raise_self p 29, flag-lower_self p 29, flag-lt p 29),
  λ j h ne.
      ground
        (arith, flag-raise_ne p 29 (omega arith) j ne, flag-lower_ne p 29 (omega arith) j h ne),
)
