-- ===== src/Core/Access.antt =====
-- Memory accesses and the fetch of a valid core: they are never undefined, and keep it valid.
use prog.Prelude.{ℕ, ◌^◌, ◌<◌, Option, none, some, ltb, Returns, returns, choice}
use prog.Memory.{Host, Memory}
use prog.Memory.Spec as Spec
use prog.Memory.Spec.{half_at, word_at, put_byte, put_half, put_word}
use prog.Memory.Access.{
  accepts, memory_read_byte_lem, memory_read_half_lem, memory_read_word_lem, memory_write_byte_lem,
  memory_write_half_lem, memory_write_word_lem,
}
use prog.Memory.Store.{word_at-lt, half_at-lt, put_byte-IsValid, put_half-IsValid, put_word-IsValid}
use prog.Core.{
  Core, with_mem, arm_read_byte, arm_read_half, arm_read_word, arm_write_byte, arm_write_half,
  arm_write_word,
}
use prog.Core.Valid.{IsValid}

-- A value read, if any, lies below the bound.
abbrev pub Below : ℕ → Option ℕ → Type 0
Below n none = Unit {0}
Below n (some v) = v < n

pub mem-IsValid :
    {p : Core} {mem : Memory} → IsValid p → Spec.IsValid mem → IsValid (record p { mem = mem })
mem-IsValid valid h = record { word = valid.word; user = valid.user; memory = h }

module _ {p : Core} (valid : IsValid p) (a : ℕ) where
  pub arm_read_byte-Below : Returns (Below 256) (arm_read_byte p a)
  unfolding arm_read_byte
  arm_read_byte-Below =
      rw memory_read_byte_lem
        (returns (choice (Below 256) (ltb a p.mem.size) (valid.memory.byte a) (tt {0})))

  pub arm_write_byte-IsValid :
      (v : ℕ) → v < 256 → Returns (λ done. IsValid done.1) (arm_write_byte p a v)
  unfolding arm_write_byte
  arm_write_byte-IsValid v h = rw memory_write_byte_lem (
      returns (
        choice (λ done. IsValid (with_mem p done).1) (ltb a p.mem.size)
          (mem-IsValid valid (put_byte-IsValid valid.memory a v h)) valid))

  module _ (host : Host) where
    pub arm_read_half-Below : Returns (Below (2 ^ 16)) (arm_read_half host p a)
    unfolding arm_read_half
    arm_read_half-Below =
        rw (memory_read_half_lem valid.memory host a) (
          returns
            (choice (Below (2 ^ 16)) (accepts p.mem 2 a) (half_at-lt valid.memory a) (tt {0})))

    pub arm_read_word-Below : Returns (Below (2 ^ 32)) (arm_read_word host p a)
    unfolding arm_read_word
    arm_read_word-Below =
        rw (memory_read_word_lem valid.memory host a) (
          returns
            (choice (Below (2 ^ 32)) (accepts p.mem 4 a) (word_at-lt valid.memory a) (tt {0})))

    pub arm_write_half-IsValid :
        (v : ℕ) → v < 2 ^ 16 → Returns (λ done. IsValid done.1) (arm_write_half host p a v)
    unfolding arm_write_half
    arm_write_half-IsValid v h = rw (memory_write_half_lem valid.memory host a v h) (
        returns (
          choice (λ done. IsValid (with_mem p done).1) (accepts p.mem 2 a)
            (mem-IsValid valid (put_half-IsValid valid.memory a v)) valid))

    pub arm_write_word-IsValid :
        (v : ℕ) → v < 2 ^ 32 → Returns (λ done. IsValid done.1) (arm_write_word host p a v)
    unfolding arm_write_word
    arm_write_word-IsValid v h = rw (memory_write_word_lem valid.memory host a v h) (
        returns (
          choice (λ done. IsValid (with_mem p done).1) (accepts p.mem 4 a)
            (mem-IsValid valid (put_word-IsValid valid.memory a v)) valid))
