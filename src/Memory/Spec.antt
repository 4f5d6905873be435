-- ===== src/Memory/Spec.antt =====
-- What a memory of either endianness promises, with no mention of the host: the value at an address
-- and the memory with a value put there.
use prog.Prelude.{ℕ, ◌+◌, ◌*◌, ◌/◌, ◌%◌, ◌^◌, ◌≤◌, ◌<◌, ◌≡◌, Bool, ◌==◌, if◌then◌else◌}
use prog.Memory.{Memory, update}

-- Blocks are whole words, the flag is a truth value, and bytes are bytes.
pub record IsValid (mem : Memory) : Type 0 where
  pub whole_words : mem.size % 4 ≡ 0
  pub small : mem.size ≤ 2 ^ 32
  pub flag : mem.is_big_endian < 2
  pub byte : (a : ℕ) → mem.bytes a < 256

abbrev pub is_big : Memory → Bool
is_big mem = mem.is_big_endian == 1

unfoldable pub half_at : Memory → ℕ → ℕ
half_at mem a =
    if is_big mem
    then mem.bytes a * 2 ^ 8 + mem.bytes (a + 1)
    else mem.bytes a + mem.bytes (a + 1) * 2 ^ 8

unfoldable pub word_at : Memory → ℕ → ℕ
word_at mem a =
    if is_big mem
    then mem.bytes a * 2 ^ 24
      + mem.bytes (a + 1) * 2 ^ 16
      + mem.bytes (a + 2) * 2 ^ 8
      + mem.bytes (a + 3)
    else mem.bytes a
      + mem.bytes (a + 1) * 2 ^ 8
      + mem.bytes (a + 2) * 2 ^ 16
      + mem.bytes (a + 3) * 2 ^ 24

-- The byte of weight 256 ^ k of a value.
abbrev pub digit : ℕ → ℕ → ℕ
digit v k = v / 2 ^ (8 * k) % 256

unfoldable pub put_byte : Memory → ℕ → ℕ → Memory
put_byte mem a v = record mem { bytes = update mem.bytes a v }

unfoldable pub put_half : Memory → ℕ → ℕ → Memory
put_half mem a v =
    let big = is_big mem in
    record mem {
      bytes =
          update (update mem.bytes a (if big then digit v 1 else digit v 0)) (a + 1)
            (if big then digit v 0 else digit v 1);
    }

unfoldable pub put_word : Memory → ℕ → ℕ → Memory
put_word mem a v =
    let big = is_big mem in
    record mem {
      bytes =
          update
            (update
              (update (update mem.bytes a (if big then digit v 3 else digit v 0)) (a + 1)
                (if big then digit v 2 else digit v 1))
              (a + 2) (if big then digit v 1 else digit v 2))
            (a + 3) (if big then digit v 0 else digit v 3);
    }
