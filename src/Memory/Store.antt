-- ===== src/Memory/Store.antt =====
-- The specification's memories: what is put is found, the rest stays, and validity is kept.
use prog.Prelude.{ℕ, ◌+◌, ◌≤◌, ◌<◌, ◌^◌, ◌≡◌, ◌⊎◌, refl, if◌then◌else◌, arith}
use prog.Memory.{Memory}
use prog.Memory.Spec.{IsValid, is_big, digit, half_at, word_at, put_byte, put_half, put_word}

module _ (mem : Memory) (a : ℕ) where
  -- The bytes of a word that was put, by address: the highest digit first on a big-endian memory.
  pub bytes-put_word :
      (v : ℕ)
      → let m = put_word mem a v in
        let big = is_big mem in
        (m.bytes a ≡ (if big then digit v 3 else digit v 0))
        × (m.bytes (a + 1) ≡ (if big then digit v 2 else digit v 1))
        × (m.bytes (a + 2) ≡ (if big then digit v 1 else digit v 2))
        × (m.bytes (a + 3) ≡ (if big then digit v 0 else digit v 3))
  unfolding put_word
  bytes-put_word v = (ground arith, ground arith, ground arith, ground arith)

  is_big-put_word : (v : ℕ) → is_big (put_word mem a v) ≡ is_big mem
  unfolding put_word
  is_big-put_word v = refl

  pub word_at-put_word_self : (v : ℕ) → v < 2 ^ 32 → word_at (put_word mem a v) a ≡ v
  unfolding word_at
  word_at-put_word_self v h =
      let at = bytes-put_word v in ground (arith, at.0, at.1, at.2, at.3, is_big-put_word v)

  pub half_at-put_half_self : (v : ℕ) → v < 2 ^ 16 → half_at (put_half mem a v) a ≡ v
  unfolding half_at put_half
  half_at-put_half_self v h = ground arith

  pub word_at-put_word_ne :
      (v b : ℕ) → (a + 4 ≤ b) ⊎ (b + 4 ≤ a) → word_at (put_word mem a v) b ≡ word_at mem b
  unfolding word_at put_word
  word_at-put_word_ne v b h = ground arith

  pub bytes-put_word_ne :
      (v b : ℕ) → (a + 4 ≤ b) ⊎ (b < a) → (put_word mem a v).bytes b ≡ mem.bytes b
  unfolding put_word
  bytes-put_word_ne v b h = ground arith

module _ {mem : Memory} (valid : IsValid mem) where
  pub word_at-lt : (a : ℕ) → word_at mem a < 2 ^ 32
  unfolding word_at
  word_at-lt a =
      ground (arith, valid.byte a, valid.byte (a + 1), valid.byte (a + 2), valid.byte (a + 3))

  pub half_at-lt : (a : ℕ) → half_at mem a < 2 ^ 16
  unfolding half_at
  half_at-lt a = ground (arith, valid.byte a, valid.byte (a + 1))

  pub put_byte-IsValid : (a v : ℕ) → v < 256 → IsValid (put_byte mem a v)
  unfolding put_byte
  put_byte-IsValid a v h = record {
    whole_words = valid.whole_words;
    small = valid.small;
    flag = valid.flag;
    byte = λ x. ground (arith, valid.byte x);
  }

  pub put_half-IsValid : (a v : ℕ) → IsValid (put_half mem a v)
  unfolding put_half
  put_half-IsValid a v = record {
    whole_words = valid.whole_words;
    small = valid.small;
    flag = valid.flag;
    byte = λ x. ground (arith, valid.byte x);
  }

  pub put_word-IsValid : (a v : ℕ) → IsValid (put_word mem a v)
  unfolding put_word
  put_word-IsValid a v = record {
    whole_words = valid.whole_words;
    small = valid.small;
    flag = valid.flag;
    byte = λ x. ground (arith, valid.byte x);
  }
