-- ===== src/LoadStore/Multiple/Block.antt =====
-- The loops of LDM and STM on blocks of words.
use mathlib.Core.List.{map}
use prog.Prelude.{
  ℕ, zero, suc, ◌+◌, ◌^◌, ◌<◌, ◌≡◌, choice, refl, arith, inl, inr, Bool-cases, List, [], ◌∷◌, ◌==◌,
  ==→eq, true, false, if◌then◌else◌, ret,
}
use prog.Word.{add32}
use prog.Util.{get_bit}
use prog.Memory.{Host, Memory}
use prog.Memory.Spec as Spec
use prog.Memory.Spec.{word_at, put_word}
use prog.Memory.Access.{accepts, memory_read_word_lem, memory_write_word_lem}
use prog.Memory.Store.{put_word-IsValid, word_at-lt}
use prog.Core.{Core, arm_read_register, arm_write_register, arm_read_word, arm_write_word}
use prog.Core.Valid.{IsValid, arm_read_register-lt, arm_write_register-IsValid}
use prog.Core.Access.{mem-IsValid}
use prog.LoadStore.Multiple.{load_round, load_loop, store_round, store_loop}

-- The registers that an instruction lists, of the `left` ones from ri on.
unfoldable pub registers : (ins left ri : ℕ) → List ℕ
registers ins zero ri = []
registers ins (suc left) ri =
    let rest = registers ins left (ri + 1) in if get_bit ins ri == 1 then ri ∷ rest else rest

-- Words one after the other, from an address on; those that the memory refuses are left out.
unfoldable pub put_words : Memory → ℕ → List ℕ → Memory
put_words mem a [] = mem
put_words mem a (v ∷ vs) =
    put_words (if accepts mem 4 a then put_word mem a v else mem) (add32 a 4) vs

-- The address after a block.
unfoldable pub block_end : ℕ → List ℕ → ℕ
block_end a [] = a
block_end a (_ ∷ rs) = block_end (add32 a 4) rs

-- Registers loaded one after the other; a refused read leaves the value as it was.
unfoldable pub load_words : (value : ℕ) → Core → ℕ → List ℕ → ℕ × Core
load_words value p a [] = (value, p)
load_words value p a (r ∷ rs) =
    let w = if accepts p.mem 4 a then word_at p.mem a else value in
    load_words w (arm_write_register p r w) (add32 a 4) rs

pub put_one-IsValid :
    {mem : Memory} (a v : ℕ)
    → Spec.IsValid mem
    → Spec.IsValid (if accepts mem 4 a then put_word mem a v else mem)
put_one-IsValid {mem} a v valid =
    choice Spec.IsValid (accepts mem 4 a) (put_word-IsValid valid a v) valid

-- The registers do not depend on the memory.
pub read-record :
    (p : Core) (m : Memory) → arm_read_register (record p { mem = m }) ≡ arm_read_register p
unfolding arm_read_register
read-record p m = refl

module _ (host : Host) (ins : ℕ) where
  store_one :
      {p : Core} (ri a : ℕ)
      → IsValid p
      → get_bit ins ri ≡ 1
      → store_round host ins ri a p
        ≡ ret (
          add32 a 4,
          record p {
            mem = if accepts p.mem 4 a then put_word p.mem a (arm_read_register p ri) else p.mem;
          },
        )
  unfolding store_round arm_write_word
  store_one {p} ri a valid on =
      rw
        (
          on,
          memory_write_word_lem valid.memory host a (arm_read_register p ri)
              (arm_read_register-lt valid ri),
        )
        (ground arith)

  store_none :
      (ri a : ℕ) (p : Core)
      → (get_bit ins ri == 1) ≡ false
      → store_round host ins ri a p ≡ ret (a, p)
  unfolding store_round
  store_none ri a p off = rw off refl

  pub store_loop_lem :
      (left : ℕ) {p : Core} (ri a : ℕ)
      → IsValid p
      → store_loop host ins left ri a p
        ≡ ret (
          block_end a (registers ins left ri),
          record p { mem = put_words p.mem a (map (arm_read_register p) (registers ins left ri)) },
        )
  unfolding store_loop registers block_end put_words
  store_loop_lem zero ri a valid = refl
  store_loop_lem (suc left) {p} ri a valid = elim (Bool-cases (get_bit ins ri == 1)) [
    | inl on ↦
        let m = if accepts p.mem 4 a then put_word p.mem a (arm_read_register p ri) else p.mem in
        let kept : IsValid (record p { mem = m }) =
          mem-IsValid valid (put_one-IsValid a (arm_read_register p ri) valid.memory) in
        rw (store_one ri a valid (==→eq _ _ on), on, store_loop_lem left (ri + 1) (add32 a 4) kept)
          (rw (read-record p m) refl)
    | inr off ↦ rw (store_none ri a p off, off) (store_loop_lem left (ri + 1) a valid)
  ]

  load_one :
      {p : Core} (ri a v : ℕ)
      → IsValid p
      → (get_bit ins ri == 1) ≡ true
      → load_round host ins ri a v p ≡ (
          let w = if accepts p.mem 4 a then word_at p.mem a else v in
          ret (add32 a 4, w, arm_write_register p ri w))
  unfolding load_round arm_read_word
  load_one {p} ri a v valid on = rw (on, memory_read_word_lem valid.memory host a) (ground arith)

  load_none :
      (ri a v : ℕ) (p : Core)
      → (get_bit ins ri == 1) ≡ false
      → load_round host ins ri a v p ≡ ret (a, v, p)
  unfolding load_round
  load_none ri a v p off = rw off refl

  pub load_loop_lem :
      (left : ℕ) {p : Core} (ri a v : ℕ)
      → IsValid p
      → v < 2 ^ 32
      → load_loop host ins left ri a v p ≡ (
          let done = load_words v p a (registers ins left ri) in
          ret (block_end a (registers ins left ri), done.0, done.1))
  unfolding load_loop registers block_end load_words
  load_loop_lem zero ri a v valid word = refl
  load_loop_lem (suc left) {p} ri a v valid word = elim (Bool-cases (get_bit ins ri == 1)) [
    | inl on ↦
        let w = if accepts p.mem 4 a then word_at p.mem a else v in
        let word' : w < 2 ^ 32 =
          choice (λ x. x < 2 ^ 32) (accepts p.mem 4 a) (word_at-lt valid.memory a) word in
        rw (load_one ri a v valid on, on)
          (load_loop_lem left (ri + 1) (add32 a 4) w (arm_write_register-IsValid valid ri w word')
            word')
    | inr off ↦ rw (load_none ri a v p off, off) (load_loop_lem left (ri + 1) a v valid word)
  ]
