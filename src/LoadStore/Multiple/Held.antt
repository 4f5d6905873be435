-- ===== src/LoadStore/Multiple/Held.antt =====
-- A block of registers in a memory, and the registers that are loaded from it.
use mathlib.Core.Path.{subst}
use mathlib.Core.List.{map}
use prog.Prelude.{
  ℕ, zero, suc, sym, choice, ◌+◌, ◌*◌, ◌%◌, ◌^◌, ◌≤◌, ◌<◌, ◌≡◌, refl, ap, ◌∙◌, arith, true, false,
  inl, inr, Bool-cases, List, [], ◌∷◌, ◌&&◌, ltb, leb, ◌==◌, ==→eq, if◌then◌else◌, length,
}
use prog.Word.{add32}
use prog.Util.{get_bit}
use prog.Memory.{Memory}
use prog.Memory.Spec.{word_at, put_word}
use prog.Memory.Access.{accepts}
use prog.Memory.Store.{word_at-put_word_self, word_at-put_word_ne}
use prog.Core.{Core, arm_read_register, arm_write_register}
use prog.Core.Valid.{arm_read_register-write_ne, arm_read_register-write_self}
use prog.LoadStore.Multiple.Block.{registers, put_words, load_words}

-- The word of each register is in the memory, one after the other from an address on.
unfoldable pub Holds : Memory → (ℕ → ℕ) → ℕ → List ℕ → Type 0
Holds mem f a [] = Unit {0}
Holds mem f a (r ∷ rs) =
    (accepts mem 4 a ≡ true) × (word_at mem a ≡ f r) × Holds mem f (add32 a 4) rs

pub length-map : (f : ℕ → ℕ) (rs : List ℕ) → length (map f rs) ≡ length rs
length-map f [] = refl
length-map f (r ∷ rs) = ap suc (length-map f rs)

-- The address after one word, where the first address may be the end of the address space.
next_lem : (e : ℕ) → add32 (e % 2 ^ 32) 4 ≡ (e + 4) % 2 ^ 32
next_lem e = omega arith

size-put_word : (mem : Memory) (a v : ℕ) → (put_word mem a v).size ≡ mem.size
unfolding put_word
size-put_word mem a v = refl

size-put_words : (vs : List ℕ) (mem : Memory) (a : ℕ) → (put_words mem a vs).size ≡ mem.size
unfolding put_words put_word
size-put_words [] mem a = refl
size-put_words (v ∷ vs) mem a =
    size-put_words vs _ (add32 a 4)
    ∙ choice {A = Memory} (λ m. m.size ≡ mem.size) (accepts mem 4 a) (size-put_word mem a v) refl

put_words-cons :
    (mem : Memory) (a v : ℕ) (vs : List ℕ)
    → accepts mem 4 a ≡ true
    → put_words mem a (v ∷ vs) ≡ put_words (put_word mem a v) (add32 a 4) vs
unfolding put_words
put_words-cons mem a v vs here =
    ap (λ b. put_words (if b then put_word mem a v else mem) (add32 a 4) vs) here

-- A block leaves the words below it as they are.
word_at-put_words :
    (vs : List ℕ) (mem : Memory) (e b : ℕ)
    → b + 4 ≤ e
    → e + 4 * length vs ≤ 2 ^ 32
    → word_at (put_words mem (e % 2 ^ 32) vs) b ≡ word_at mem b
unfolding put_words
word_at-put_words [] mem e b below fits = refl
word_at-put_words (v ∷ vs) mem e b below fits =
    let at : e % 2 ^ 32 ≡ e = omega arith in
    let kept : word_at (if accepts mem 4 (e % 2 ^ 32) then put_word mem (e % 2 ^ 32) v else mem) b
        ≡ word_at mem b =
      ground (arith, at, word_at-put_word_ne mem (e % 2 ^ 32) v b (inr (omega arith))) in
    rw (next_lem e) (word_at-put_words vs _ (e + 4) b (omega arith) (omega arith) ∙ kept)

-- A block put where it fits holds each register's word.
module _ (f : ℕ → ℕ) (word : (i : ℕ) → f i < 2 ^ 32) where
  pub put_words-Holds :
      (rs : List ℕ) (mem : Memory) (e : ℕ)
      → mem.size ≤ 2 ^ 32
      → e + 4 * length rs ≤ mem.size
      → e % 4 ≡ 0
      → Holds (put_words mem (e % 2 ^ 32) (map f rs)) f (e % 2 ^ 32) rs
  unfolding Holds put_words
  put_words-Holds [] mem e small fits aligned = tt {0}
  put_words-Holds (r ∷ rs) mem e small fits aligned =
      let at : e % 2 ^ 32 ≡ e = omega arith in
      let here : accepts mem 4 (e % 2 ^ 32) ≡ true = ground arith in
      let m = put_word mem (e % 2 ^ 32) (f r) in
      let same : m.size ≡ mem.size = size-put_word mem (e % 2 ^ 32) (f r) in
      let total = size-put_words (map f rs) m ((e + 4) % 2 ^ 32) in
      let path =
        put_words-cons mem (e % 2 ^ 32) (f r) (map f rs) here
        ∙ ap (λ b. put_words m b (map f rs)) (next_lem e) in
      subst (λ x. Holds x f (e % 2 ^ 32) (r ∷ rs)) (sym path)
        (
          ground (arith, total, same),
          word_at-put_words (map f rs) m (e + 4) (e % 2 ^ 32) (omega arith)
                (omega (arith, length-map f rs))
              ∙ word_at-put_word_self mem (e % 2 ^ 32) (f r) (word r),
          subst (λ b. Holds (put_words m ((e + 4) % 2 ^ 32) (map f rs)) f b rs) (sym (next_lem e))
              (put_words-Holds rs m (e + 4) (omega (arith, same)) (omega (arith, same))
                (omega arith)),
        )

load_words-cons :
    (v : ℕ) (q : Core) (a r w : ℕ) (rs : List ℕ)
    → accepts q.mem 4 a ≡ true
    → word_at q.mem a ≡ w
    → load_words v q a (r ∷ rs) ≡ load_words w (arm_write_register q r w) (add32 a 4) rs
unfolding load_words
load_words-cons v q a r w rs here word =
    ap (λ x. load_words x (arm_write_register q r x) (add32 a 4) rs)
      (ap (λ b. if b then word_at q.mem a else v) here ∙ word)

pub mem-write_register : (q : Core) (r v : ℕ) → (arm_write_register q r v).mem ≡ q.mem
unfolding arm_write_register
mem-write_register q r v = refl

pub mem-load_words : (rs : List ℕ) (v : ℕ) (q : Core) (a : ℕ) → (load_words v q a rs).1.mem ≡ q.mem
unfolding load_words arm_write_register
mem-load_words [] v q a = refl
mem-load_words (r ∷ rs) v q a = mem-load_words rs _ _ (add32 a 4)

registers-on :
    (ins left ri : ℕ)
    → (get_bit ins ri == 1) ≡ true
    → registers ins (suc left) ri ≡ ri ∷ registers ins left (ri + 1)
unfolding registers
registers-on ins left ri on = rw on refl

registers-off :
    (ins left ri : ℕ)
    → (get_bit ins ri == 1) ≡ false
    → registers ins (suc left) ri ≡ registers ins left (ri + 1)
unfolding registers
registers-off ins left ri off = rw off refl

-- The block loaded back: the listed registers get their words, and the others stay.
module _ (f : ℕ → ℕ) (ins : ℕ) where
  pub read-load_words :
      (left : ℕ) (q : Core) (ri a v : ℕ)
      → ri + left ≤ 15
      → Holds q.mem f a (registers ins left ri)
      → (i : ℕ) → i < 15
      → arm_read_register (load_words v q a (registers ins left ri)).1 i ≡ (
          if leb ri i && ltb i (ri + left) && (get_bit ins i == 1)
          then f i
          else arm_read_register q i)
  unfolding load_words registers Holds
  read-load_words zero q ri a v low held i h = ground arith
  read-load_words (suc left) q ri a v low held i h = elim (Bool-cases (get_bit ins ri == 1)) [
    | inl on ↦
        let list = registers-on ins left ri on in
        let (here, word, rest) = subst (Holds q.mem f a) list held in
        let q' = arm_write_register q ri (f ri) in
        let rest' =
          subst (λ m. Holds m f (add32 a 4) (registers ins left (ri + 1)))
            (sym (mem-write_register q ri (f ri))) rest in
        let self = arm_read_register-write_self q ri (f ri) (omega arith) in
        ap (λ l. arm_read_register (load_words v q a l).1 i) list
        ∙ ap (λ d. arm_read_register d.1 i)
            (load_words-cons v q a ri (f ri) (registers ins left (ri + 1)) here word)
        ∙ read-load_words left q' (ri + 1) (add32 a 4) (f ri) (omega arith) rest' i h
        ∙ (elim (Bool-cases (i == ri)) [
          | inl same ↦ rw (==→eq i ri same) (ground (arith, self, on))
          | inr other ↦
              ground
                (arith, other, arm_read_register-write_ne q ri (f ri) i (ground (arith, other)))
        ])
    | inr off ↦
        let list = registers-off ins left ri off in
        ap (λ l. arm_read_register (load_words v q a l).1 i) list
        ∙ read-load_words left q (ri + 1) a v (omega arith) (subst (Holds q.mem f a) list held) i h
        ∙ (elim (Bool-cases (i == ri)) [
          | inl same ↦ rw (==→eq i ri same) (ground (arith, off))
          | inr other ↦ ground (arith, other)
        ])
  ]
