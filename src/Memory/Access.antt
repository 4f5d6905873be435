-- ===== src/Memory/Access.antt =====
-- The accesses of memory.c against the specification, on every branch.
use prog.Prelude.{
  ℕ, ◌+◌, ◌%◌, ◌<◌, ◌^◌, ◌≡◌, Bool, ◌&&◌, none, some, arith, ret, ltb, ◌==◌, if◌then◌else◌,
}
use prog.Memory.Bytes.{
  reverse_2-little, reverse_2-big, reverse_4-little, reverse_4-big, reverse_2-digits,
  reverse_4-digits,
}
use prog.Memory.{
  Memory, Host, little, big, success, failure, memory_read_byte, memory_read_half, memory_read_word,
  memory_write_byte, memory_write_half, memory_write_word,
}
use prog.Memory.Spec.{IsValid, half_at, word_at, put_byte, put_half, put_word}

-- Where an access of so many bytes succeeds: its address is inside and aligned.
abbrev pub accepts : Memory → ℕ → ℕ → Bool
accepts mem width a = ltb a mem.size && (a % width == 0)

-- A byte access inside the block reads or writes that byte, and one outside reports failure.
pub memory_read_byte_lem :
    (mem : Memory) (a : ℕ)
    → memory_read_byte mem a ≡ ret (if ltb a mem.size then some (mem.bytes a) else none)
unfolding memory_read_byte
memory_read_byte_lem mem a = ground arith

pub memory_write_byte_lem :
    (mem : Memory) (a v : ℕ)
    → memory_write_byte mem a v
      ≡ ret (if ltb a mem.size then (success, put_byte mem a v) else (failure, mem))
unfolding memory_write_byte put_byte
memory_write_byte_lem mem a v = ground arith

module _ {mem : Memory} (valid : IsValid mem) where
  -- On a valid memory a read of a word is never undefined: inside and aligned it gives the word in
  -- the memory's byte order, whatever the host's, and else it fails.
  pub memory_read_word_lem :
      (host : Host) (a : ℕ)
      → memory_read_word host mem a ≡ ret (if accepts mem 4 a then some (word_at mem a) else none)
  unfolding memory_read_word word_at
  memory_read_word_lem little a = ground (
    arith,
    valid.whole_words,
    valid.flag,
    reverse_4-little (mem.bytes a) (mem.bytes (a + 1)) (mem.bytes (a + 2)) (mem.bytes (a + 3))
        (valid.byte _) (valid.byte _) (valid.byte _) (valid.byte _),
  )
  memory_read_word_lem big a = ground (
    arith,
    valid.whole_words,
    valid.flag,
    reverse_4-big (mem.bytes a) (mem.bytes (a + 1)) (mem.bytes (a + 2)) (mem.bytes (a + 3))
        (valid.byte _) (valid.byte _) (valid.byte _) (valid.byte _),
  )

  -- On a valid memory a read of a half word is never undefined: inside and aligned it gives the half
  -- word in the memory's byte order, whatever the host's, and else it fails.
  pub memory_read_half_lem :
      (host : Host) (a : ℕ)
      → memory_read_half host mem a ≡ ret (if accepts mem 2 a then some (half_at mem a) else none)
  unfolding memory_read_half half_at
  memory_read_half_lem little a = ground (
    arith,
    valid.whole_words,
    valid.flag,
    reverse_2-little (mem.bytes a) (mem.bytes (a + 1)) (valid.byte _) (valid.byte _),
  )
  memory_read_half_lem big a = ground (
    arith,
    valid.whole_words,
    valid.flag,
    reverse_2-big (mem.bytes a) (mem.bytes (a + 1)) (valid.byte _) (valid.byte _),
  )

  -- On a valid memory a write of a word is never undefined: inside and aligned it puts the word in
  -- the memory's byte order, whatever the host's, and else it fails and changes nothing.
  pub memory_write_word_lem :
      (host : Host) (a v : ℕ)
      → v < 2 ^ 32
      → memory_write_word host mem a v
        ≡ ret (if accepts mem 4 a then (success, put_word mem a v) else (failure, mem))
  unfolding memory_write_word put_word
  memory_write_word_lem little a v word =
      ground (arith, valid.whole_words, valid.flag, reverse_4-digits v word)
  memory_write_word_lem big a v word =
      ground (arith, valid.whole_words, valid.flag, reverse_4-digits v word)

  -- On a valid memory a write of a half word is never undefined: inside and aligned it puts the half
  -- word in the memory's byte order, whatever the host's, and else it fails and changes nothing.
  pub memory_write_half_lem :
      (host : Host) (a v : ℕ)
      → v < 2 ^ 16
      → memory_write_half host mem a v
        ≡ ret (if accepts mem 2 a then (success, put_half mem a v) else (failure, mem))
  unfolding memory_write_half put_half
  memory_write_half_lem little a v half =
      ground (arith, valid.whole_words, valid.flag, reverse_2-digits v half)
  memory_write_half_lem big a v half =
      ground (arith, valid.whole_words, valid.flag, reverse_2-digits v half)
