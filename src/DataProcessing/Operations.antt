-- ===== src/DataProcessing/Operations.antt =====
-- The flag updates and the sixteen operations of arm_data_processing.c. A function that takes the
-- core returns the new one, behind its result where it has one.
use prog.Prelude.{ℕ, not, ◌&&◌, bit_and, bit_or, bit_xor, ltb, leb, ◌==◌, if◌then◌else◌, truth}
use prog.Word.{add32, sub32, not32}
use prog.Util.{get_bit, set_bit, clr_bit}
use prog.Core.{Core, arm_read_register, arm_read_cpsr, arm_write_register, arm_write_cpsr}

-- `arm_write_cpsr(p, arm_read_cpsr(p) | (1 << i))` and its counterpart
unfoldable pub raise : Core → ℕ → Core
raise p i = arm_write_cpsr p (set_bit (arm_read_cpsr p) i)

unfoldable pub lower : Core → ℕ → Core
lower p i = arm_write_cpsr p (clr_bit (arm_read_cpsr p) i)

-- `!c`
abbrev pub negation : ℕ → ℕ
negation c = if c == 0 then 1 else 0

unfoldable pub update_zn : Core → ℕ → Core
update_zn p result =
    let p1 = if result == 0 then raise p 30 else lower p 30 in
    if get_bit result 31 == 1 then raise p1 31 else lower p1 31

unfoldable pub arm_teq : Core → ℕ → ℕ → Core
arm_teq p val1 val2 = lower (update_zn p (bit_xor val1 val2)) 29

unfoldable pub arm_tst : Core → ℕ → ℕ → Core
arm_tst p val1 val2 = lower (update_zn p (bit_and val1 val2)) 29

-- The V flag as `arm_cmp` and `arm_cmn` set it.
unfoldable pub update_v : Core → ℕ → ℕ → ℕ → Core
update_v p val1 val2 result =
    if (get_bit val1 31 == get_bit val2 31) && not (get_bit val1 31 == get_bit result 31)
    then raise p 28
    else lower p 28

-- The C flag: with `a < b` it is set if it was clear, and else cleared if it was set.
unfoldable pub update_c : Core → ℕ → ℕ → ℕ → Core
update_c p a b c =
    let p1 = if ltb a b && not (truth c) then raise p 29 else p in
    if leb b a && truth c then lower p1 29 else p1

unfoldable pub arm_cmp : Core → ℕ → ℕ → ℕ → ℕ → Core
arm_cmp p val1 val2 c v =
    let result = sub32 val1 val2 in
    update_c (update_v (update_zn p result) val1 val2 result) (sub32 0xffff_ffff val1)
      (add32 (not32 val2) 1) c

unfoldable pub arm_cmn : Core → ℕ → ℕ → ℕ → Core
arm_cmn p val1 val2 c =
    let result = add32 val1 val2 in
    update_c (update_v (update_zn p result) val1 val2 result) (sub32 0xffff_ffff val1) val2 c

unfoldable pub arm_and : Core → ℕ → ℕ → ℕ → ℕ × Core
arm_and p val1 val2 s = (bit_and val1 val2, if truth s then arm_tst p val1 val2 else p)

unfoldable pub arm_eor : Core → ℕ → ℕ → ℕ → ℕ × Core
arm_eor p val1 val2 s = (bit_xor val1 val2, if truth s then arm_teq p val1 val2 else p)

unfoldable pub arm_sub : Core → ℕ → ℕ → ℕ → ℕ → ℕ → ℕ × Core
arm_sub p val1 val2 s c v = (sub32 val1 val2, if truth s then arm_cmp p val1 val2 c v else p)

unfoldable pub arm_orr : Core → ℕ → ℕ → ℕ → ℕ × Core
arm_orr p val1 val2 s =
    let result = bit_or val1 val2 in (result, if truth s then update_zn p result else p)

unfoldable pub arm_add : Core → ℕ → ℕ → ℕ → ℕ → ℕ → ℕ × Core
arm_add p val1 val2 s c v = (add32 val1 val2, if truth s then arm_cmp p val1 val2 c v else p)

unfoldable pub arm_bic : Core → ℕ → ℕ → ℕ → ℕ × Core
arm_bic p val1 val2 s =
    (bit_and val1 (not32 val2), if truth s then arm_tst p val1 (not32 val2) else p)

unfoldable pub arm_mov : Core → ℕ → ℕ → ℕ → Core
arm_mov p rd val_2 s =
    let p1 = arm_write_register p rd val_2 in
    let result = arm_read_register p1 rd in if truth s then update_zn p1 result else p1

unfoldable pub arm_mvn : Core → ℕ → ℕ → ℕ → Core
arm_mvn p rd val s =
    let p1 = arm_write_register p rd (not32 val) in
    let result = arm_read_register p1 rd in if truth s then update_zn p1 result else p1

unfoldable pub arm_sbc : Core → ℕ → ℕ → ℕ → ℕ → ℕ → ℕ × Core
arm_sbc p val1 val2 c s v = (
  sub32 (sub32 val1 val2) (negation c),
  if truth s then arm_cmp p val1 (sub32 val2 (not32 (get_bit (arm_read_cpsr p) 29))) c v else p,
)

unfoldable pub arm_adc : Core → ℕ → ℕ → ℕ → ℕ → ℕ × Core
arm_adc p val1 val2 c s = (
  add32 (add32 val1 val2) c,
  if truth s then arm_cmn p val1 (add32 val2 (get_bit (arm_read_cpsr p) 29)) c else p,
)

unfoldable pub arm_rsb : Core → ℕ → ℕ → ℕ → ℕ → ℕ → ℕ → Core
arm_rsb p rd val_1 val_2 s c v =
    let result = sub32 val_1 val_2 in
    let p1 = arm_write_register p rd result in
    if truth s
    then update_v
        (update_c (update_zn p1 result) (sub32 0xffff_ffff val_2) (add32 (not32 val_1) 1) c) val_2
        val_1 result
    else p1

-- The V flag as `arm_rsc` sets it.
unfoldable pub update_v_rsc : Core → ℕ → ℕ → Core
update_v_rsc p val_2 result =
    if (get_bit val_2 31 == get_bit val_2 31)
      && (get_bit val_2 31 == not32 (get_bit (arm_read_cpsr p) 29))
      && not (get_bit val_2 31 == get_bit result 31)
    then raise p 28
    else lower p 28

unfoldable pub arm_rsc : Core → ℕ → ℕ → ℕ → ℕ → ℕ → Core
arm_rsc p rd val_1 val_2 s c =
    let result = sub32 (sub32 val_2 val_1) (negation c) in
    let p1 = arm_write_register p rd result in
    if truth s
    then update_v_rsc
        (update_c (update_zn p1 result) (sub32 (sub32 0xffff_ffff val_2) c) (add32 (not32 val_1) 2)
          c)
        val_2 result
    else p1
