-- ===== src/Util.antt =====
-- util.h and util.c: the bit macros, shifts, byte reversals, and the condition field.
pub mod Macros
pub mod Shifts
pub mod Rotations
pub mod Conditions
use prog.Prelude.{
  ℕ, ◌+◌, ◌-◌, Bool, true, false, not, ◌&&◌, ◌||◌, bit_and, bit_or, Option, none, some, ltb, ◌==◌,
  if◌then◌else◌, truth, Run, ret, undefined, ◌>>=◌,
}
use prog.Word.{shl32, shr, not32}
use prog.Constants.{n_bit, z_bit, c_bit, v_bit}

-- `get_bit(x, i)`, `set_bit(x, i)` and `clr_bit(x, i)` on a uint32_t, for i < 32
unfoldable pub get_bit : ℕ → ℕ → ℕ
get_bit x i = bit_and (shr x i) 1

unfoldable pub set_bit : ℕ → ℕ → ℕ
set_bit x i = bit_or x (shl32 1 i)

unfoldable pub clr_bit : ℕ → ℕ → ℕ
clr_bit x i = bit_and x (not32 (shl32 1 i))

-- `get_bits(x, h, l)` for l ≤ h and h - l < 31. `~0` is the int -1, which a right shift keeps.
unfoldable pub get_bits : ℕ → ℕ → ℕ → ℕ
get_bits x h l = bit_and (shr x l) (not32 (shl32 0xffff_ffff (h - l + 1)))

unfoldable pub reverse_2 : ℕ → ℕ
reverse_2 x = bit_or (shl32 (bit_and x 0xff) 8) (bit_and (shr x 8) 0xff)

unfoldable pub reverse_4 : ℕ → ℕ
reverse_4 x =
    bit_or
      (bit_or (bit_or (shl32 (bit_and x 0xff) 24) (shl32 (bit_and (shr x 8) 0xff) 16))
        (shl32 (bit_and (shr x 16) 0xff) 8))
      (bit_and (shr x 24) 0xff)

-- `a << k` and `a >> k` in C, undefined from k = 32 on
unfoldable pub shift_left : ℕ → ℕ → Run ℕ
shift_left a k = if ltb k 32 then ret (shl32 a k) else undefined

unfoldable pub shift_right : ℕ → ℕ → Run ℕ
shift_right a k = if ltb k 32 then ret (shr a k) else undefined

-- Above 32 the first shift is undefined already, so `32 - shift` does not go below 0.
unfoldable pub asr : ℕ → ℕ → Run ℕ
asr value shift = do
  low ← shift_right value shift
  high ← if truth (get_bit value 31) then shift_left 0xffff_ffff (32 - shift) else ret 0
  ret (bit_or low high)

unfoldable pub ror : ℕ → ℕ → Run ℕ
ror value rotation = do
  low ← shift_right value rotation
  high ← shift_left value (32 - rotation)
  ret (bit_or low high)

-- `cond`, with the source's enumerators. The field's value 15 has none.
pub data Condition : Type 0 where
  eq ne cs_hs cc_lo mi pl vs vc hi ls ge lt gt le al : Condition

unfoldable pub cond_of : ℕ → Option Condition
cond_of val =
    if val == 0
    then some eq
    else if val == 1
    then some ne
    else if val == 2
    then some cs_hs
    else if val == 3
    then some cc_lo
    else if val == 4
    then some mi
    else if val == 5
    then some pl
    else if val == 6
    then some vs
    else if val == 7
    then some vc
    else if val == 8
    then some hi
    else if val == 9
    then some ls
    else if val == 10
    then some ge
    else if val == 11
    then some lt
    else if val == 12
    then some gt
    else if val == 13
    then some le
    else if val == 14
    then some al
    else none

unfoldable pub arm_get_cond : ℕ → Option Condition
arm_get_cond ins = cond_of (shr (bit_and ins 0xf000_0000) 28)

-- The `switch` of `ConditionPassed`.
unfoldable pub condition_holds : Option Condition → ℕ → Bool
condition_holds (some eq) cpsr = truth (get_bit cpsr z_bit)
condition_holds (some ne) cpsr = not (truth (get_bit cpsr z_bit))
condition_holds (some cs_hs) cpsr = truth (get_bit cpsr c_bit)
condition_holds (some cc_lo) cpsr = not (truth (get_bit cpsr c_bit))
condition_holds (some mi) cpsr = truth (get_bit cpsr n_bit)
condition_holds (some pl) cpsr = not (truth (get_bit cpsr n_bit))
condition_holds (some vs) cpsr = truth (get_bit cpsr v_bit)
condition_holds (some vc) cpsr = not (truth (get_bit cpsr v_bit))
condition_holds (some hi) cpsr = truth (get_bit cpsr c_bit) && not (truth (get_bit cpsr z_bit))
condition_holds (some ls) cpsr = not (truth (get_bit cpsr c_bit)) || truth (get_bit cpsr z_bit)
condition_holds (some ge) cpsr = get_bit cpsr n_bit == get_bit cpsr v_bit
condition_holds (some lt) cpsr = not (get_bit cpsr n_bit == get_bit cpsr v_bit)
condition_holds (some gt) cpsr =
    not (truth (get_bit cpsr z_bit)) && (get_bit cpsr n_bit == get_bit cpsr v_bit)
condition_holds (some le) cpsr =
    truth (get_bit cpsr z_bit) || not (get_bit cpsr n_bit == get_bit cpsr v_bit)
condition_holds (some al) cpsr = true
condition_holds none cpsr = false

unfoldable pub condition_passed : ℕ → ℕ → Bool
condition_passed cpsr ins = condition_holds (arm_get_cond ins) cpsr
