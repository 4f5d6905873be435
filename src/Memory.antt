-- ===== src/Memory.antt =====
-- memory.c: a block of bytes with an endianness of its own, read and written by byte, half word and
-- word. `Host` is the machine that runs the simulator: the sources read words and halves through
-- pointers, so its byte order shows. A byte access outside the block is undefined.
pub mod Spec
pub mod Bytes
pub mod Access
pub mod Store
pub mod RoundTrip
use prog.Prelude.{
  ℕ, zero, suc, ◌+◌, ◌-◌, ◌*◌, ◌/◌, ◌%◌, ◌^◌, Bool, not, Option, none, some, ltb, leb, ◌==◌,
  if◌then◌else◌, Run, ret, undefined, ◌>>=◌,
}
use prog.Util.{reverse_2, reverse_4}

pub data Host : Type 0 where
  little big : Host

-- The byte at offset i of a value of so many bytes, as the host stores it.
abbrev pub host_byte : Host → ℕ → ℕ → ℕ → ℕ
host_byte little width value i = value / 2 ^ (8 * i) % 256
host_byte big width value i = value / 2 ^ (8 * (width - 1 - i)) % 256

-- The value that the host reads from the bytes of a uint16_t, and of a uint32_t.
abbrev pub host_half : Host → ℕ → ℕ → ℕ
host_half little b0 b1 = b0 + b1 * 2 ^ 8
host_half big b0 b1 = b0 * 2 ^ 8 + b1

abbrev pub host_word : Host → ℕ → ℕ → ℕ → ℕ → ℕ
host_word little b0 b1 b2 b3 = b0 + b1 * 2 ^ 8 + b2 * 2 ^ 16 + b3 * 2 ^ 24
host_word big b0 b1 b2 b3 = b0 * 2 ^ 24 + b1 * 2 ^ 16 + b2 * 2 ^ 8 + b3

-- util.c: whether the first byte of the word 1 is zero
unfoldable pub is_big_endian : Host → ℕ
is_big_endian host = if host_byte host 4 1 0 == 0 then 1 else 0

-- `bytes a` is `data[a]`, for a below `size`.
pub record Memory : Type 0 where
  pub size : ℕ
  pub is_big_endian : ℕ
  pub bytes : ℕ → ℕ

-- 0 and -1
pub data Status : Type 0 where
  success failure : Status

-- `heap` is what the block that `malloc` returns holds.
unfoldable pub memory_create : (heap : ℕ → ℕ) → ℕ → ℕ → Memory
memory_create heap size big_endian = record {
  size = size;
  is_big_endian = big_endian;
  bytes = heap;
}

abbrev pub memory_get_size : Memory → ℕ
memory_get_size mem = mem.size

abbrev pub update : (ℕ → ℕ) → ℕ → ℕ → ℕ → ℕ
update f a v x = if x == a then v else f x

unfoldable pub load_byte : Memory → ℕ → Run ℕ
load_byte mem a = if ltb a mem.size then ret (mem.bytes a) else undefined

unfoldable pub store_byte : Memory → ℕ → ℕ → Run Memory
store_byte mem a v =
    if ltb a mem.size then ret (record mem { bytes = update mem.bytes a v }) else undefined

-- A read gives `none` for -1, where the source leaves `*value` alone.
unfoldable pub memory_read_byte : Memory → ℕ → Run (Option ℕ)
unfolding load_byte
memory_read_byte mem address =
    if leb (memory_get_size mem) address
    then ret none
    else do b ← load_byte mem address; ret (some b)

module _ (host : Host) where
  unfoldable pub memory_read_half : Memory → ℕ → Run (Option ℕ)
  unfolding load_byte is_big_endian
  memory_read_half mem address =
      if leb (memory_get_size mem) address
      then ret none
      else if not (address % 2 == 0)
      then ret none
      else do
        b0 ← load_byte mem address
        b1 ← load_byte mem (address + 1)
        let value = host_half host b0 b1
        ret (
            some (if not (is_big_endian host == mem.is_big_endian) then reverse_2 value else value))

  unfoldable pub memory_read_word : Memory → ℕ → Run (Option ℕ)
  unfolding load_byte is_big_endian
  memory_read_word mem address =
      if leb (memory_get_size mem) address
      then ret none
      else if not (address % 4 == 0)
      then ret none
      else do
        b0 ← load_byte mem address
        b1 ← load_byte mem (address + 1)
        b2 ← load_byte mem (address + 2)
        b3 ← load_byte mem (address + 3)
        let value = host_word host b0 b1 b2 b3
        ret (
            some (if not (is_big_endian host == mem.is_big_endian) then reverse_4 value else value))

  -- The `for` loop of a write, with `left` rounds to go: the host's bytes of the value, in order.
  unfoldable pub store_bytes : (width value address left i : ℕ) → Memory → Run Memory
  unfolding store_byte
  store_bytes width value address zero i mem = ret mem
  store_bytes width value address (suc left) i mem = do
    mem' ← store_byte mem (address + i) (host_byte host width value i)
    store_bytes width value address left (i + 1) mem'

  unfoldable pub memory_write_half : Memory → ℕ → ℕ → Run (Status × Memory)
  unfolding store_bytes is_big_endian
  memory_write_half mem address value =
      if leb (memory_get_size mem) address
      then ret (failure, mem)
      else if not (address % 2 == 0)
      then ret (failure, mem)
      else do
        let stored =
            if not (is_big_endian host == mem.is_big_endian) then reverse_2 value else value
        mem' ← store_bytes 2 stored address 2 0 mem
        ret (success, mem')

  unfoldable pub memory_write_word : Memory → ℕ → ℕ → Run (Status × Memory)
  unfolding store_bytes is_big_endian
  memory_write_word mem address value =
      if leb (memory_get_size mem) address
      then ret (failure, mem)
      else if not (address % 4 == 0)
      then ret (failure, mem)
      else do
        let stored =
            if not (is_big_endian host == mem.is_big_endian) then reverse_4 value else value
        mem' ← store_bytes 4 stored address 4 0 mem
        ret (success, mem')

unfoldable pub memory_write_byte : Memory → ℕ → ℕ → Run (Status × Memory)
unfolding store_byte
memory_write_byte mem address value =
    if leb (memory_get_size mem) address
    then ret (failure, mem)
    else do mem' ← store_byte mem address value; ret (success, mem')
