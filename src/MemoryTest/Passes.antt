-- ===== src/MemoryTest/Passes.antt =====
-- `compare`, and the results of the test program.
use prog.Prelude.{ℕ, ◌+◌, ◌-◌, ◌≡◌, refl, Bool, true, [], ◌∷◌, if◌then◌else◌, ret}
use prog.Memory.{
  Host, little, big, is_big_endian, memory_create, memory_read_byte, memory_read_half,
  memory_read_word, memory_write_byte, memory_write_half, memory_write_word, store_bytes,
  store_byte, load_byte,
}
use prog.Util.{reverse_2, reverse_4}
use prog.MemoryTest.{
  compare_loop, compare, sim_loop, compare_with_sim, fill_both, reads_agree, writes_agree, main,
}

-- On a host of either order, whatever the memories hold at first, all eight tests succeed.
pub main_passes :
    (host : Host) (garbage : ℕ) (heap heap' : ℕ → ℕ)
    → main host garbage heap heap'
      ≡ ret ((true ∷ true ∷ []) ∷ (true ∷ true ∷ []) ∷ (true ∷ true ∷ []) ∷ (true ∷ true ∷ []) ∷ [])
unfolding main fill_both reads_agree writes_agree compare compare_loop compare_with_sim sim_loop
    memory_create is_big_endian memory_read_byte memory_read_half memory_read_word memory_write_byte
    memory_write_half memory_write_word store_bytes store_byte load_byte reverse_2 reverse_4
main_passes little garbage heap heap' = refl
main_passes big garbage heap heap' = refl

-- The byte that the round k compares with.
abbrev partner : Bool → ℕ → ℕ → ℕ
partner reverse j k = if reverse then j - k else j + k
