-- ===== src/MemoryTest.antt =====
-- memory_test.c: the program that tests the simulated memory in both byte orders. What `print_test`
-- prints is left out: the tests' results are a list. `malloc` is taken to succeed.
pub mod Passes
use prog.Prelude.{
  ℕ, zero, suc, ◌+◌, ◌-◌, ◌*◌, Bool, true, false, ◌&&◌, Option, none, some, List, [], ◌∷◌, ◌==◌,
  if◌then◌else◌, Run, ret, ◌>>=◌,
}
use prog.Memory.{
  Host, Memory, host_byte, is_big_endian, memory_create, memory_read_byte, memory_read_half,
  memory_read_word, memory_write_byte, memory_write_half, memory_write_word,
}
use prog.Gdb.Text.{assigned}

-- The next j; after the first byte it is not used.
abbrev pub stepped : Bool → ℕ → ℕ
stepped reverse j = if reverse then j - 1 else j + 1

abbrev pub first : Bool → ℕ → ℕ
first reverse size = if reverse then size - 1 else 0

-- The loop of `compare`, on the bytes that its pointers point to.
unfoldable pub compare_loop : (left i j : ℕ) → Bool → (a b : ℕ → ℕ) → Bool
compare_loop zero i j reverse a b = true
compare_loop (suc left) i j reverse a b =
    (a i == b j) && compare_loop left (i + 1) (stepped reverse j) reverse a b

unfoldable pub compare : (a b : ℕ → ℕ) → (size : ℕ) → Bool → Bool
unfolding compare_loop
compare a b size reverse = compare_loop size 0 (first reverse size) reverse a b

-- The loop of `compare_with_sim`; `value` is what the variable holds before a read.
unfoldable pub sim_loop : (left i j value : ℕ) → Bool → (ℕ → ℕ) → Memory → Run Bool
sim_loop zero i j value reverse a m = ret true
sim_loop (suc left) i j value reverse a m = do
  read ← memory_read_byte m j
  let value' = assigned value read
  elim (a i == value') [
    | true ↦ sim_loop left (i + 1) (stepped reverse j) value' reverse a m
    | false ↦ ret false
  ]

unfoldable pub compare_with_sim : (garbage : ℕ) → (ℕ → ℕ) → Memory → (size : ℕ) → Bool → Run Bool
unfolding sim_loop
compare_with_sim garbage a m size reverse = sim_loop size 0 (first reverse size) garbage reverse a m

-- The first loop of `main`: the host's bytes of the word, in both memories.
unfoldable pub fill_both : Host → (word_value left i : ℕ) → Memory × Memory → Run (Memory × Memory)
fill_both host word_value zero i m = ret m
fill_both host word_value (suc left) i (m0, m1) = do
  (_, m0') ← memory_write_byte m0 i (host_byte host 4 word_value i)
  (_, m1') ← memory_write_byte m1 i (host_byte host 4 word_value i)
  fill_both host word_value left (i + 1) (m0', m1')

-- `m[i]`, and both after a change of it.
abbrev pub chosen : ℕ → Memory × Memory → Memory
chosen i m = if i == 0 then m.0 else m.1

abbrev pub changed : ℕ → Memory → Memory × Memory → Memory × Memory
changed i mem m = if i == 0 then (mem, m.1) else (m.0, mem)

module _ (host : Host) (garbage : ℕ) where
  abbrev word_bytes : ℕ → ℕ → ℕ
  word_bytes v i = host_byte host 4 v i

  abbrev half_bytes : ℕ → ℕ → ℕ
  half_bytes v i = host_byte host 2 v i

  -- A word and a half that are read from m[i], against the word's bytes.
  unfoldable pub reads_agree : (word_value i : ℕ) → Bool → Memory × Memory → Run (List Bool)
  unfolding compare
  reads_agree word_value i reverse m = do
    word_read ← memory_read_word host (chosen i m) 0
    half_read ← memory_read_half host (chosen i m) 0
    ret (
        compare (word_bytes word_value) (word_bytes (assigned garbage word_read)) 4 reverse
        ∷ compare (word_bytes word_value) (half_bytes (assigned garbage half_read)) 2 reverse
        ∷ [])

  -- A word and then a half that are written to m[i], against its bytes.
  unfoldable pub writes_agree :
      (word_value half_value i : ℕ) → Bool → Memory × Memory → Run (List Bool × (Memory × Memory))
  unfolding compare_with_sim
  writes_agree word_value half_value i reverse m = do
    (_, mem) ← memory_write_word host (chosen i m) 0 word_value
    word_agrees ← compare_with_sim garbage (word_bytes word_value) mem 4 reverse
    (_, mem') ← memory_write_half host mem 0 half_value
    half_agrees ← compare_with_sim garbage (half_bytes half_value) mem' 2 reverse
    ret (word_agrees ∷ half_agrees ∷ [], changed i mem' m)

  -- The results of the tests in pairs; `heap` and `heap'` are what the memories' blocks hold.
  unfoldable pub main : (heap heap' : ℕ → ℕ) → Run (List (List Bool))
  unfolding fill_both reads_agree writes_agree
  main heap heap' = do
    let word_value : ℕ = 0x1122_3344
    let half_value : ℕ = 0x5566
    let me = is_big_endian host
    m ← fill_both host word_value 4 0 (memory_create heap 4 0, memory_create heap' 4 1)
    reads ← reads_agree word_value me false m
    other_reads ← reads_agree word_value (1 - me) true m
    (writes, m') ← writes_agree word_value half_value me false m
    (other_writes, _) ← writes_agree word_value half_value (1 - me) true m'
    ret (reads ∷ other_reads ∷ writes ∷ other_writes ∷ [])
