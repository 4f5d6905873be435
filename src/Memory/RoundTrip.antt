-- ===== src/Memory/RoundTrip.antt =====
-- Reads after writes, through the accesses of memory.c themselves.
use prog.Prelude.{
  ℕ, ◌∙◌, ap, sym, refl, ◌⊎◌, ◌+◌, ◌%◌, ◌≤◌, ◌<◌, ◌^◌, ◌≡◌, ◌≢◌, true, ◌&&◌, none, some, arith, ret,
  ◌>>=◌, ◌==◌, if◌then◌else◌, inl, inr, Bool-cases,
}
use native.Mathlib.Decide.{ℕ_discrete}
use prog.Memory.{
  Memory, Host, memory_read_word, memory_write_word, memory_read_half, memory_write_half,
}
use prog.Memory.Spec.{IsValid, word_at, put_word, put_half}
use prog.Memory.Access.{
  accepts, memory_read_word_lem, memory_write_word_lem, memory_read_half_lem, memory_write_half_lem,
}
use prog.Memory.Store.{
  word_at-put_word_self, half_at-put_half_self, word_at-put_word_ne, put_word-IsValid,
  put_half-IsValid,
}

size-put_word : (mem : Memory) (a v : ℕ) → (put_word mem a v).size ≡ mem.size
unfolding put_word
size-put_word mem a v = refl

size-put_half : (mem : Memory) (a v : ℕ) → (put_half mem a v).size ≡ mem.size
unfolding put_half
size-put_half mem a v = refl

apart : (a b : ℕ) → a % 4 ≡ 0 → b % 4 ≡ 0 → a ≢ b → (a + 4 ≤ b) ⊎ (b + 4 ≤ a)
apart a b aligned aligned' distinct = omega (arith, distinct)

-- The word at an address after one was put at an accepted address.
put_word_read :
    (mem : Memory) (a b v : ℕ)
    → v < 2 ^ 32
    → accepts mem 4 a ≡ true
    → (if accepts (put_word mem a v) 4 b then some (word_at (put_word mem a v) b) else none)
      ≡ (if a == b then some v else if accepts mem 4 b then some (word_at mem b) else none)
put_word_read mem a b v word ok = elim (ℕ_discrete a b) [
  | yes same ↦
      rw (sym same) (ground (arith, ok, word_at-put_word_self mem a v word, size-put_word mem a v))
  | no distinct ↦
      ground (arith, ok, distinct, word_at-put_word_ne mem a v b, size-put_word mem a v, apart a b)
]

module _ {mem : Memory} (valid : IsValid mem) where
  -- On a valid memory, writing a word and then reading a word, on hosts of any byte orders: at the
  -- same accepted address the read gives the word written, at another it gives what it gave before
  -- the write, and after a refused write too.
  pub memory_read_word-memory_write_word :
      (host host' : Host) (a b v : ℕ)
      → v < 2 ^ 32
      → memory_write_word host mem a v >>= (λ done. memory_read_word host' done.1 b)
        ≡ (if accepts mem 4 a && (a == b) then ret (some v) else memory_read_word host' mem b)
  memory_read_word-memory_write_word host host' a b v word =
      rw (memory_write_word_lem valid host a v word, memory_read_word_lem valid host' b)
        (elim (Bool-cases (accepts mem 4 a)) [
          | inl ok ↦ rw ok (
              memory_read_word_lem (put_word-IsValid valid a v) host' b
              ∙ ap ret (put_word_read mem a b v word ok)
              ∙ ground arith)
          | inr refused ↦ rw refused (memory_read_word_lem valid host' b)
        ])

  -- On a valid memory, writing a half word at an accepted address and then reading one there gives
  -- the half word written, on hosts of any byte orders.
  pub memory_read_half-memory_write_half :
      (host host' : Host) (a v : ℕ)
      → v < 2 ^ 16
      → accepts mem 2 a ≡ true
      → memory_write_half host mem a v >>= (λ done. memory_read_half host' done.1 a) ≡ ret (some v)
  memory_read_half-memory_write_half host host' a v half accepted =
      rw (memory_write_half_lem valid host a v half, accepted)
        (memory_read_half_lem (put_half-IsValid valid a v) host' a
          ∙ ground (arith, accepted, half_at-put_half_self mem a v half, size-put_half mem a v))
