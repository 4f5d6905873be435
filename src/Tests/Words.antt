-- ===== src/Tests/Words.antt =====
-- The memory, at inputs.
use prog.Prelude.{◌≡◌, refl, ◌&&◌, none, some, arith, ◌==◌, if◌then◌else◌, ret, ◌>>=◌}
use prog.Memory.Spec as Spec
use prog.Memory.{
  Memory, big, failure, little, memory_create, memory_read_word, memory_write_word, success,
}
use prog.Memory.Access.{accepts, memory_read_word_lem, memory_write_word_lem}
use prog.Memory.RoundTrip.{memory_read_word-memory_write_word}
use prog.Memory.Spec.{put_word, word_at}

-- A big-endian block of 64 bytes.
abbrev block : Memory
block = memory_create (λ _. 0) 64 1

block-IsValid : Spec.IsValid block
unfolding memory_create
block-IsValid = record {
  whole_words = refl;
  small = omega arith;
  flag = omega arith;
  byte = λ _. omega arith;
}

memory_read_word-memory_write_word_example :
    memory_write_word little block 8 0x1122_3344 >>= (λ done. memory_read_word big done.1 12) ≡ (
      if accepts block 4 8 && (8 == 12)
      then ret (some 0x1122_3344)
      else memory_read_word big block 12)
memory_read_word-memory_write_word_example =
    memory_read_word-memory_write_word block-IsValid little big 8 12 0x1122_3344 (omega arith)

memory_read_word_lem_example :
    memory_read_word little block 4
    ≡ ret (if accepts block 4 4 then some (word_at block 4) else none)
memory_read_word_lem_example = memory_read_word_lem block-IsValid little 4

memory_write_word_lem_example :
    memory_write_word little block 60 0x1122_3344
    ≡ ret
        (if accepts block 4 60 then (success, put_word block 60 0x1122_3344) else (failure, block))
memory_write_word_lem_example =
    memory_write_word_lem block-IsValid little 60 0x1122_3344 (omega arith)
