-- ===== src/LoadStore/Multiple/Stack.antt =====
-- The stack pairs of LDM and STM: full or empty, descending or ascending.
use mathlib.Core.Path.{subst}
use mathlib.Core.List.{map}
use prog.Prelude.{
  ℕ, zero, suc, ◌+◌, ◌*◌, ◌-◌, ◌/◌, ◌%◌, ◌^◌, ◌≤◌, ◌<◌, ◌≡◌, ◌≢◌, refl, sym, ap, ap₂, ◌∙◌, arith,
  true, inl, inr, Bool-cases, ◌∷◌, ◌||◌, ◌==◌, ==→eq, if◌then◌else◌, length, Run, ret, Returns,
  returns,
}
use prog.Word.{bit}
use prog.Word.Shift.{bit-mod}
use prog.Util.{get_bit, condition_passed}
use prog.Util.Macros.{get_bit-eq-bit}
use prog.Memory.{Host}
use prog.Core.{Core, arm_read_register, arm_read_cpsr}
use prog.Core.Valid.{
  IsValid, arm_read_register-lt, arm_read_register-write_ne, arm_read_register-write_self,
}
use prog.LoadStore.Multiple.{arm_load_store_multiple}
use prog.LoadStore.Multiple.Valid.{block_write_back-IsValid, start_address-lt}
use prog.LoadStore.Multiple.Block.{registers, read-record, put_words, load_words}
use prog.LoadStore.Multiple.Held.{
  Holds, put_words-Holds, mem-load_words, mem-write_register, read-load_words,
}
use prog.LoadStore.Multiple.Transfer.{
  block_registers, base, lowest, moved, count_lem, moved_lem, start_lem,
  arm_load_store_multiple_store, arm_load_store_multiple_load,
}

-- An LDM that undoes an STM: both move the same base, in opposite directions, and list the same
-- registers, without the pc. This is the pairing of LDMFD with STMFD, ED with ED, FA with FA, EA with EA.
pub record Undoes (store load : ℕ) : Type 0 where
  pub is_store : bit store 20 ≡ 0
  pub is_load : bit load 20 ≡ 1
  pub store_moves : bit store 21 ≡ 1
  pub load_moves : bit load 21 ≡ 1
  pub direction : bit load 23 ≡ 1 - bit store 23
  pub before : bit load 24 ≡ 1 - bit store 24
  pub same_base : load / 2 ^ 16 % 16 ≡ store / 2 ^ 16 % 16
  pub same_list : load % 2 ^ 16 ≡ store % 2 ^ 16
  pub no_pc : bit store 15 ≡ 0

registers_ext :
    (x y left ri : ℕ)
    → ((i : ℕ) → i < ri + left → get_bit x i ≡ get_bit y i)
    → registers x left ri ≡ registers y left ri
unfolding registers
registers_ext x y zero ri h = refl
registers_ext x y (suc left) ri h =
    ap₂ (λ b rest. if b == 1 then ri ∷ rest else rest) (h ri (omega arith))
      (registers_ext x y left (ri + 1) λ i k. h i (omega arith))

-- What a move of the base by W changes.
module _ (p : Core) (ins m : ℕ) (moves : bit ins 21 ≡ 1) where
  mem-moved : (moved p ins m).mem ≡ p.mem
  unfolding moved
  mem-moved = rw moves (mem-write_register p (ins / 2 ^ 16 % 16) _)

  read-moved_ne :
      (i : ℕ) → i ≢ ins / 2 ^ 16 % 16 → arm_read_register (moved p ins m) i ≡ arm_read_register p i
  unfolding moved
  read-moved_ne i h = rw moves (arm_read_register-write_ne p (ins / 2 ^ 16 % 16) _ i h)

  base-moved :
      ins / 2 ^ 16 % 16 < 15
      → base (moved p ins m) ins ≡ (
          if bit ins 23 == 1
          then (base p ins + m * 4) % 2 ^ 32
          else (base p ins + 2 ^ 32 - m * 4) % 2 ^ 32)
  unfolding moved
  base-moved low = rw moves (arm_read_register-write_self p (ins / 2 ^ 16 % 16) _ low)

ran : {c d : ℕ × Core} {r : Run (ℕ × Core)} → r ≡ ret c → r ≡ ret d → d.1 ≡ c.1
ran {c} {d} e e' = go (subst (Returns (λ x. x.1 ≡ c.1)) (sym e ∙ e') (returns refl))
  where
    go : Returns (λ x. x.1 ≡ c.1) (ret d) → d.1 ≡ c.1
    go (returns h) = h

module _ {store load : ℕ} (undoes : Undoes store load) where
  same_bit : (i : ℕ) → i < 16 → bit load i ≡ bit store i
  same_bit i h =
      sym (bit-mod 16 load i h) ∙ ap (λ x. bit x i) undoes.same_list ∙ bit-mod 16 store i h

  same_registers : block_registers load ≡ block_registers store
  same_registers =
      registers_ext load store 15 0
        λ i h. get_bit-eq-bit load i ∙ same_bit i (omega arith) ∙ sym (get_bit-eq-bit store i)

  abbrev rn : ℕ
  rn = store / 2 ^ 16 % 16

  abbrev n : ℕ
  n = length (block_registers store)

  module _ {p : Core} (valid : IsValid p) (q : Core) (low : rn < 15) (small : n ≤ 15)
      (returned : base q load ≡ base (moved p store n) store) where
    stored_base : base q load ≡ (
        if bit store 23 == 1
        then (base p store + n * 4) % 2 ^ 32
        else (base p store + 2 ^ 32 - n * 4) % 2 ^ 32)
    stored_base = returned ∙ base-moved p store n undoes.store_moves low

    lowest_load : lowest q load n ≡ lowest p store n
    unfolding lowest
    lowest_load =
        ground (arith, stored_base, undoes.direction, undoes.before, arm_read_register-lt valid rn)

    base_restored : base (moved q load n) load ≡ base p store
    base_restored =
        base-moved q load n undoes.load_moves (omega (arith, undoes.same_base))
        ∙ ground (arith, stored_base, undoes.direction, arm_read_register-lt valid rn)

  -- The registers that an STM stored are loaded by the LDM that undoes it.
  module _ {p : Core} (valid : IsValid p) (q : Core)
      (passed : condition_passed (arm_read_cpsr p) store ≡ true) (low : rn < 15)
      (apart : bit store rn ≡ 0) (aligned : lowest p store n % 4 ≡ 0)
      (fits : lowest p store n + 4 * n ≤ p.mem.size)
      (kept : q.mem
        ≡ put_words p.mem
            (lowest p store n)
            (map (arm_read_register (moved p store n)) (block_registers store)))
      (returned : base q load ≡ base (moved p store n) store) where
    abbrev at : ℕ
    at = lowest p store n

    abbrev f : ℕ → ℕ
    f = arm_read_register (moved p store n)

    f-lt : (i : ℕ) → f i < 2 ^ 32
    f-lt i =
        arm_read_register-lt
          (subst IsValid (moved_lem valid store passed) (block_write_back-IsValid valid store)) i

    block_held : Holds (moved q load n).mem f at (block_registers store)
    block_held =
        let in_word : at % 2 ^ 32 ≡ at =
          omega (arith, start_lem valid store passed, start_address-lt valid store) in
        subst (λ m. Holds m f at (block_registers store))
          (sym (mem-moved q load n undoes.load_moves ∙ kept))
          (subst
            (λ e.
              Holds (put_words p.mem e (map f (block_registers store))) f e (block_registers store))
            in_word
            (put_words-Holds f f-lt (block_registers store) p.mem at valid.memory.small fits
              aligned))

    -- The core after the load.
    abbrev q' : Core
    q' = (load_words 0 (moved q load n) at (block_registers store)).1

    mem_back : q'.mem ≡ q.mem
    mem_back =
        mem-load_words (block_registers store) 0 (moved q load n) at
        ∙ mem-moved q load n undoes.load_moves

    register_back :
        (i : ℕ)
        → i < 15
        → arm_read_register q' i ≡ (
            if (bit store i == 1) || (i == rn)
            then arm_read_register p i
            else arm_read_register q i)
    register_back i h =
        read-load_words f store 15 (moved q load n) 0 at 0 (omega arith) block_held i h
        ∙ (elim (Bool-cases (i == rn)) [
          | inl same ↦
              let e = ==→eq i rn same in
              let back : arm_read_register (moved q load n) i ≡ arm_read_register p i =
                ap (arm_read_register (moved q load n)) (e ∙ sym undoes.same_base)
                ∙ base_restored valid q low (count_lem valid store passed).1 returned
                ∙ ap (arm_read_register p) (sym e) in
              let unlisted : bit store i ≡ 0 = ap (bit store) e ∙ apart in
              ground (arith, h, same, back, unlisted, get_bit-eq-bit store i)
          | inr other ↦ ground (
            arith,
            h,
            other,
            get_bit-eq-bit store i,
            read-moved_ne p store n undoes.store_moves i (ground (arith, other)),
            read-moved_ne q load n undoes.load_moves i (ground (arith, other, undoes.same_base)),
          )
        ])

  module _ {p q : Core} (valid : IsValid p) (valid_q : IsValid q) (host : Host) {x : ℕ} {p1 : Core}
      (passed : condition_passed (arm_read_cpsr p) store ≡ true)
      (passed_q : condition_passed (arm_read_cpsr q) load ≡ true) where
    -- An STM with write-back, of any addressing mode, whose base is not the pc and not listed and whose
    -- block is aligned and fits the memory, and later the LDM that undoes it, from any valid core that has
    -- the memory and the base as the STM left them, both conditions passing: the load is defined, its
    -- result is 1, every listed register and the base are again as before the STM, the others are as before
    -- the load, and the memory stays.
    pub arm_load_store_multiple-Undoes :
        rn < 15
        → bit store rn ≡ 0
        → lowest p store n % 4 ≡ 0
        → lowest p store n + 4 * n ≤ p.mem.size
        → arm_load_store_multiple host p store ≡ ret (x, p1)
        → q.mem ≡ p1.mem
        → base q load ≡ base p1 store
        → (i : ℕ) → i < 15
        → Returns
            (λ (result, q').
              (result ≡ 1)
              × (q'.mem ≡ p1.mem)
              × (arm_read_register q' i ≡ (
                  if (bit store i == 1) || (i == rn)
                  then arm_read_register p i
                  else arm_read_register q i)))
            (arm_load_store_multiple host q load)
    arm_load_store_multiple-Undoes low apart aligned fits run same_mem same_sp i h =
        let stored = arm_load_store_multiple_store valid store passed host undoes.is_store in
        let final = ran stored run in
        let kept =
          same_mem
          ∙ ap (λ c. c.mem) final
          ∙ ap
              (λ m.
                put_words m (lowest p store n)
                  (map (arm_read_register (moved p store n)) (block_registers store)))
              (mem-moved p store n undoes.store_moves) in
        let returned =
          same_sp
          ∙ ap (λ c. base c store) final
          ∙ ap (λ r. r rn) (read-record (moved p store n) _) in
        let small = (count_lem valid store passed).1 in
        let loaded =
          arm_load_store_multiple_load valid_q load passed_q host undoes.is_load
            (same_bit 15 (omega arith) ∙ undoes.no_pc) in
        let path =
          loaded
          ∙ ap
              (λ rs.
                ret (1, (load_words 0 (moved q load (length rs)) (lowest q load (length rs)) rs).1))
              same_registers
          ∙ ap (λ a. ret (1, (load_words 0 (moved q load n) a (block_registers store)).1))
              (lowest_load valid q low small returned) in
        subst (Returns _) (sym path) (
          returns (
            refl,
            mem_back valid q passed low apart aligned fits kept returned ∙ same_mem,
            register_back valid q passed low apart aligned fits kept returned i h,
          ))
