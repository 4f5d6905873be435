-- ===== src/LoadStore/Single/Described.antt =====
-- The addressing modes of LDR and STR, and what they read and write, apart from the code.
use prog.Prelude.{ℕ, ◌+◌, ◌-◌, ◌/◌, ◌%◌, ◌^◌, ◌*◌, ◌<◌, arith, ◌||◌, ltb, ◌==◌, if◌then◌else◌}
use prog.Word.{bit}
use prog.Memory.{Host, Memory, little, big}
use prog.Memory.Spec.{word_at, put_word, put_byte}
use prog.Memory.Access.{accepts}
use prog.Core.{Core, arm_read_register, arm_write_register}
use prog.LoadStore.Single.Index.{index_value}

-- The base register with the index added or subtracted, by the bit U.
unfoldable pub moved_base : Core → ℕ → ℕ
moved_base p ins =
    let rn_value = arm_read_register p (ins / 2 ^ 16 % 16) in
    if bit ins 23 == 1
    then (rn_value + index_value p ins) % 2 ^ 32
    else (rn_value + 2 ^ 32 - index_value p ins) % 2 ^ 32

-- The address: the moved base before a transfer with P set, and else the base as it is.
unfoldable pub mode_address : Core → ℕ → ℕ
mode_address p ins =
    if bit ins 24 == 1 then moved_base p ins else arm_read_register p (ins / 2 ^ 16 % 16)

-- The core with the base written back: after the transfer always, before it where W is set.
unfoldable pub mode_core : Core → ℕ → Core
mode_core p ins =
    if (bit ins 24 == 0) || (bit ins 21 == 1)
    then arm_write_register p (ins / 2 ^ 16 % 16) (moved_base p ins)
    else p

-- A byte at the lowest address of a word that is 0 else.
unfoldable pub first_byte : Host → ℕ → ℕ
first_byte little b = b
first_byte big b = b * 2 ^ 24

pub first_byte-lt : (host : Host) (b : ℕ) → b < 256 → first_byte host b < 2 ^ 32
unfolding first_byte
first_byte-lt little b h = omega arith
first_byte-lt big b h = omega arith

-- What a load reads at an address, and the memory after a store there.
unfoldable pub value_at : Host → Memory → (ins a : ℕ) → ℕ
value_at host mem ins a =
    if bit ins 22 == 1
    then if ltb a mem.size then first_byte host (mem.bytes a) else 0
    else if accepts mem 4 a
    then word_at mem a
    else 0

unfoldable pub stored_at : Memory → (ins a value : ℕ) → Memory
stored_at mem ins a value =
    if bit ins 22 == 1
    then if ltb a mem.size then put_byte mem a (value % 256) else mem
    else if accepts mem 4 a
    then put_word mem a value
    else mem
