-- ===== src/LoadStore/Multiple/Valid.antt =====
-- `arm_load_store_multiple` is never undefined on a valid core, keeps it valid, and its result.
use prog.Prelude.{
  ℕ, zero, suc, ◌+◌, ◌*◌, ◌%◌, ◌^◌, ◌≤◌, ◌<◌, ◌≡◌, refl, ap, arith, inl, inr, Bool-cases, ◌&&◌,
  ◌==◌, if◌then◌else◌, truth, Returns, returns, Returns-bind, Returns-mono, choice,
}
use prog.Word.{u8, add32, sub32}
use prog.Util.{get_bit, get_bits, condition_passed}
use prog.Util.Macros.{get_bit-lt}
use prog.Util.Shifts.{IsWord}
use prog.Memory.{Host}
use prog.Core.{Core, arm_read_register, arm_read_cpsr}
use prog.Core.Valid.{
  IsValid, arm_read_register-lt, arm_write_register-IsValid, arm_read_cpsr-write_register,
}
use prog.Core.Access.{arm_read_word-Below, arm_write_word-IsValid}
use prog.LoadStore.Single.{word_set}
use prog.LoadStore.Single.Valid.{set_thumb-IsValid, word_set-lt}
use prog.LoadStore.Multiple.{
  count_registers, nb_reg, start_address, end_address, block_write_back, load_round, load_loop,
  store_round, store_loop, load_pc, block_transfer, arm_load_store_multiple,
}

-- How many of the `left` registers from i on are listed.
unfoldable pub listed : ℕ → (left i : ℕ) → ℕ
listed ins zero i = 0
listed ins (suc left) i = get_bit ins i + listed ins left (i + 1)

listed-le : (ins left i : ℕ) → listed ins left i ≤ left
unfolding listed
listed-le ins zero i = omega arith
listed-le ins (suc left) i = omega (arith, get_bit-lt ins i, listed-le ins left (i + 1))

count_registers-eq-listed :
    (ins left i n : ℕ) → n + left < 256 → count_registers ins left i n ≡ n + listed ins left i
unfolding count_registers listed
count_registers-eq-listed ins zero i n h = omega arith
count_registers-eq-listed ins (suc left) i n h = omega (
  arith,
  get_bit-lt ins i,
  count_registers-eq-listed ins left (i + 1) (u8 (n + get_bit ins i))
      (omega (arith, get_bit-lt ins i)),
)

-- `nb_reg` counts the listed registers among r0 to r14.
pub nb_reg_lem : (ins : ℕ) → (nb_reg ins ≡ listed ins 15 0) × (nb_reg ins ≤ 15)
nb_reg_lem ins =
    omega (arith, count_registers-eq-listed ins 15 0 0 (omega arith), listed-le ins 15 0)

-- The address after so many more words.
abbrev after_words : ℕ → ℕ → ℕ
after_words address n = (address + 4 * n) % 2 ^ 32

module _ (host : Host) (ins : ℕ) where
  abbrev Stored : ℕ → ℕ × Core → Type 0
  Stored end (a, q) = (a ≡ end) × IsValid q

  store_round-valid :
      (ri address : ℕ) {p : Core}
      → IsValid p
      → address < 2 ^ 32
      → Returns (Stored (after_words address (get_bit ins ri))) (store_round host ins ri address p)
  unfolding store_round
  store_round-valid ri address {p} valid h = elim (Bool-cases (get_bit ins ri == 1)) [
    | inl on ↦ rw on (
        Returns-bind
          (arm_write_word-IsValid valid address host (arm_read_register p ri)
            (arm_read_register-lt valid ri))
          λ done k. returns (ground (arith, on), k))
    | inr off ↦ rw off (returns (ground (arith, off, get_bit-lt ins ri), valid))
  ]

  store_loop-valid :
      (left ri address : ℕ) {p : Core}
      → IsValid p
      → address < 2 ^ 32
      → Returns
          (Stored (after_words address (listed ins left ri)))
          (store_loop host ins left ri address p)
  unfolding store_loop listed
  store_loop-valid zero ri address valid h = returns (omega arith, valid)
  store_loop-valid (suc left) ri address valid h =
      Returns-bind (store_round-valid ri address valid h) λ (a, q) (e, k).
        Returns-mono (store_loop-valid left (ri + 1) a k (omega (arith, e)))
          λ r (e', k'). (omega (arith, e, e'), k')

  abbrev Loaded : ℕ → ℕ × ℕ × Core → Type 0
  Loaded end (a, v, q) = (a ≡ end) × (v < 2 ^ 32) × IsValid q

  load_round-valid :
      (ri address v : ℕ) {p : Core}
      → IsValid p
      → address < 2 ^ 32
      → v < 2 ^ 32
      → Returns (Loaded (after_words address (get_bit ins ri))) (load_round host ins ri address v p)
  unfolding load_round
  load_round-valid ri address v {p} valid h w = elim (Bool-cases (get_bit ins ri == 1)) [
    | inl on ↦ rw on (
        Returns-bind (arm_read_word-Below valid address host) λ o k.
          let word = word_set-lt o v k w in
          returns (ground (arith, on), word, arm_write_register-IsValid valid ri _ word))
    | inr off ↦ rw off (returns (ground (arith, off, get_bit-lt ins ri), w, valid))
  ]

  load_loop-valid :
      (left ri address v : ℕ) {p : Core}
      → IsValid p
      → address < 2 ^ 32
      → v < 2 ^ 32
      → Returns
          (Loaded (after_words address (listed ins left ri)))
          (load_loop host ins left ri address v p)
  unfolding load_loop listed
  load_loop-valid zero ri address v valid h w = returns (omega arith, w, valid)
  load_loop-valid (suc left) ri address v valid h w =
      Returns-bind (load_round-valid ri address v valid h w) λ (a, u, q) (e, w', k).
        Returns-mono (load_loop-valid left (ri + 1) a u k (omega (arith, e)) w')
          λ r (e', w'', k'). (omega (arith, e, e'), w'', k')

  load_pc-IsValid :
      (address v : ℕ) {p : Core}
      → IsValid p
      → v < 2 ^ 32
      → Returns IsValid (load_pc host ins address v p)
  unfolding load_pc
  load_pc-IsValid address v {p} valid w =
      choice (Returns IsValid) (get_bit ins 15 == 1)
        (Returns-bind (arm_read_word-Below valid address host) λ o k.
          let truth_lt : (if truth (word_set o v) then 1 else 0) < 2 ^ 32 =
            choice IsWord (truth (word_set o v)) (omega arith) (omega arith) in
          returns
            (set_thumb-IsValid (arm_write_register-IsValid valid 15 _ truth_lt) (word_set o v)))
        (returns valid)

  -- The final address: past the block for a store, a word further for a load, 0 if not taken.
  final_address : Core → ℕ → ℕ
  final_address p start =
      if condition_passed (arm_read_cpsr p) ins
      then if get_bit ins 20 == 1
        then add32 (after_words start (listed ins 15 0)) 4
        else after_words start (listed ins 15 0)
      else 0

  block_transfer-valid :
      {p : Core} (start : ℕ)
      → IsValid p
      → start < 2 ^ 32
      → Returns (Stored (final_address p start)) (block_transfer host p ins start)
  unfolding block_transfer final_address
  block_transfer-valid {p} start valid h =
      elim (Bool-cases (condition_passed (arm_read_cpsr p) ins)) [
        | inl taken ↦ elim (Bool-cases (get_bit ins 20 == 1)) [
          | inl load ↦
              rw (taken, load)
                (Returns-bind (load_loop-valid 15 0 start 0 valid h (omega arith))
                  λ (a, v, q) (e, w, k).
                    Returns-bind (load_pc-IsValid a v k w)
                      λ q' k'. returns (ap (λ x. add32 x 4) e, k'))
          | inr store ↦ rw (taken, store) (store_loop-valid 15 0 start valid h)
        ]
        | inr skipped ↦ rw skipped (returns (refl, valid))
      ]

module _ {p : Core} (valid : IsValid p) (ins : ℕ) where
  pub start_address-lt : start_address p ins < 2 ^ 32
  unfolding start_address
  start_address-lt = ground (arith, arm_read_register-lt valid (get_bits ins 19 16))

  pub block_write_back-IsValid : IsValid (block_write_back p ins)
  unfolding block_write_back
  block_write_back-IsValid =
      let rn_value = arm_read_register p (get_bits ins 19 16) in
      let span = nb_reg ins * 4 in
      let word : (if get_bit ins 23 == 1 then add32 rn_value span else sub32 rn_value span)
          < 2 ^ 32 =
        choice IsWord (get_bit ins 23 == 1) (omega arith) (omega arith) in
      choice IsValid (condition_passed (arm_read_cpsr p) ins && (get_bit ins 21 == 1))
        (arm_write_register-IsValid valid _ _ word) valid

  -- In each addressing mode the last address is a word below the end of the block.
  end_address-eq : end_address p ins ≡ sub32 (after_words (start_address p ins) (listed ins 15 0)) 4
  unfolding end_address start_address
  end_address-eq = ground (arith, nb_reg_lem ins, arm_read_register-lt valid (get_bits ins 19 16))

  pub cpsr_write_back : arm_read_cpsr (block_write_back p ins) ≡ arm_read_cpsr p
  unfolding block_write_back
  cpsr_write_back =
      choice (λ q. arm_read_cpsr q ≡ arm_read_cpsr p)
        (condition_passed (arm_read_cpsr p) ins && (get_bit ins 21 == 1))
        (arm_read_cpsr-write_register p (get_bits ins 19 16) _) refl

  -- From a valid core, LDM and STM are defined and leave the core valid. A store that is taken
  -- returns 0 in each of the four addressing modes, and a load that is taken returns 1; where the
  -- condition fails the result is 0 exactly when the block's last address is 0xfffffffc.
  pub arm_load_store_multiple-IsValid :
      (host : Host)
      → Returns
          (λ (result, q).
            (result ≡ (
              if condition_passed (arm_read_cpsr p) ins
              then if get_bit ins 20 == 1 then 1 else 0
              else if end_address p ins == 0xffff_fffc
              then 0
              else 1))
            × IsValid q)
          (arm_load_store_multiple host p ins)
  unfolding arm_load_store_multiple final_address
  arm_load_store_multiple-IsValid host =
      Returns-bind
        (block_transfer-valid host ins (start_address p ins) block_write_back-IsValid
          start_address-lt)
        λ (a, q) (e, k).
          returns
            (ground (arith, e, ap (λ c. condition_passed c ins) cpsr_write_back, end_address-eq), k)
