-- ===== src/LoadStore/Single/Valid.antt =====
-- `arm_load_store` is never undefined on a valid core, and keeps it valid.
use prog.Prelude.{
  ℕ, ◌^◌, ◌<◌, ◌≡◌, refl, Bool, true, false, Option, none, some, arith, inl, inr, Bool-cases, ◌&&◌,
  ◌||◌, ltb, ◌==◌, if◌then◌else◌, truth, Returns, returns, Returns-bind, choice,
}
use prog.Word.{add32, sub32, u8}
use prog.Word.Bits.{bit_and-lt}
use prog.Util.{get_bit, get_bits, shift_left, shift_right, asr, ror, condition_passed}
use prog.Util.Macros.{get_bits-eq-field, set_bit-lt, clr_bit-lt}
use prog.Util.Shifts.{IsWord, asr_lem, ror_lem}
use prog.Memory.{Host, little, big}
use prog.Core.{Core, arm_read_register, arm_read_cpsr}
use prog.Core.Valid.{
  IsValid, arm_read_register-lt, arm_read_cpsr-lt, arm_write_register-IsValid,
  arm_write_usr_register-IsValid, arm_write_cpsr-IsValid,
}
use prog.Core.Access.{
  Below, arm_read_byte-Below, arm_read_word-Below, arm_write_byte-IsValid, arm_write_word-IsValid,
}
use prog.LoadStore.Single.{
  ror_case, asr_case, lsr_case, scaled_index, load_store_index, indexed, load_store_address,
  post_index, pre_index, set_thumb, load_into, low_byte_set, word_set, load_value, store_value,
  transfer, arm_load_store,
}

asr-Returns : (v s : ℕ) → v < 2 ^ 32 → 0 < s → s < 32 → Returns IsWord (asr v s)
asr-Returns v s h pos small = let r = asr_lem v s h pos small in rw r.1 (returns r.2)

ror-Returns : (v s : ℕ) → v < 2 ^ 32 → 0 < s → s < 32 → Returns IsWord (ror v s)
ror-Returns v s h pos small = let r = ror_lem v s h pos small in rw r.1 (returns r.2)

module _ (cpsr v s : ℕ) (word : v < 2 ^ 32) (small : s < 32) where
  ror_case-Returns : Returns IsWord (ror_case cpsr v s)
  unfolding ror_case
  ror_case-Returns = elim (Bool-cases (s == 0)) [
    | inl zero_count ↦ rw zero_count (returns (ground arith))
    | inr positive ↦ rw positive (ror-Returns v s word (ground arith) small)
  ]

  asr_case-Returns : Returns IsWord (asr_case cpsr v s)
  unfolding asr_case
  asr_case-Returns = elim (Bool-cases (s == 0)) [
    | inl zero_count ↦ rw zero_count ror_case-Returns
    | inr positive ↦
        rw positive
          (Returns-bind (asr-Returns v s word (ground arith) small) λ _ _. ror_case-Returns)
  ]

  shift_right-Returns : Returns IsWord (shift_right v s)
  unfolding shift_right
  shift_right-Returns =
      let in_range : ltb s 32 ≡ true = ground arith in rw in_range (returns (omega arith))

  shift_left-Returns : Returns IsWord (shift_left v s)
  unfolding shift_left
  shift_left-Returns =
      let in_range : ltb s 32 ≡ true = ground arith in rw in_range (returns (omega arith))

  lsr_case-Returns : Returns IsWord (lsr_case cpsr v s)
  unfolding lsr_case
  lsr_case-Returns = elim (Bool-cases (s == 0)) [
    | inl zero_count ↦ rw zero_count asr_case-Returns
    | inr positive ↦ rw positive (Returns-bind shift_right-Returns λ _ _. asr_case-Returns)
  ]

  scaled_index-Returns : (kind : ℕ) → Returns IsWord (scaled_index cpsr v kind s)
  unfolding scaled_index
  scaled_index-Returns kind = choice (Returns IsWord) (kind == 0) shift_left-Returns (
      choice (Returns IsWord) (kind == 1) lsr_case-Returns (
        choice (Returns IsWord) (kind == 2) asr_case-Returns
          (choice (Returns IsWord) (kind == 3) ror_case-Returns (returns (omega arith)))))

indexed-lt : (p : Core) (ins index : ℕ) → indexed p ins index < 2 ^ 32
indexed-lt p ins index =
    choice IsWord {x = add32 _ index} {y = sub32 _ index} (get_bit ins 23 == 1) (omega arith)
      (omega arith)

offset-lt : (ins : ℕ) (b : Bool) → IsWord (if b then get_bits ins 11 0 else 0)
offset-lt ins true = omega (arith, get_bits-eq-field ins 11 0)
offset-lt ins false = omega arith

module _ {p : Core} (valid : IsValid p) (ins : ℕ) where
  load_store_index-Returns : Returns IsWord (load_store_index p ins)
  unfolding load_store_index
  load_store_index-Returns =
      let zero_word : IsWord 0 = omega arith in
      let count_lt : get_bits ins 11 7 < 32 = omega (arith, get_bits-eq-field ins 11 7) in
      choice (Returns IsWord) (get_bit ins 25 == 0) (returns (offset-lt ins _)) (
        choice (Returns IsWord)
          ((get_bit ins 24 == 1)
            || ((get_bit ins 24 == 0) && condition_passed (arm_read_cpsr p) ins))
          (scaled_index-Returns (arm_read_cpsr p) (arm_read_register p (get_bits ins 3 0))
            (get_bits ins 11 7) (arm_read_register-lt valid _) count_lt (get_bits ins 6 5))
          (returns zero_word))

  load_store_address-lt : (index : ℕ) → load_store_address p ins index < 2 ^ 32
  unfolding load_store_address
  load_store_address-lt index =
      choice IsWord (get_bit ins 24 == 1) (indexed-lt p ins index) (arm_read_register-lt valid _)

  post_index-IsValid : (index : ℕ) → IsValid (post_index p ins index)
  unfolding post_index
  post_index-IsValid index =
      let word = indexed-lt p ins index in
      choice IsValid ((get_bit ins 24 == 0) && condition_passed (arm_read_cpsr p) ins)
        (choice IsValid (get_bit ins 21 == 1) (arm_write_usr_register-IsValid valid _ _ word)
          (arm_write_register-IsValid valid _ _ word))
        valid

  pre_index-IsValid : (address : ℕ) → address < 2 ^ 32 → IsValid (pre_index p ins address)
  unfolding pre_index
  pre_index-IsValid address h =
      choice IsValid
        ((get_bit ins 24 == 1) && condition_passed (arm_read_cpsr p) ins && (get_bit ins 21 == 1))
        (arm_write_usr_register-IsValid valid _ address h) valid

module _ {p : Core} (valid : IsValid p) where
  pub set_thumb-IsValid : (v : ℕ) → IsValid (set_thumb p v)
  unfolding set_thumb
  set_thumb-IsValid v = arm_write_cpsr-IsValid valid _ (
      choice IsWord (truth (get_bit v 0))
        (set_bit-lt (arm_read_cpsr p) 5 (omega arith) (arm_read_cpsr-lt valid))
        (clr_bit-lt (arm_read_cpsr p) 5 (omega arith) (arm_read_cpsr-lt valid)))

load_into-IsValid : {p : Core} (rd v : ℕ) → IsValid p → v < 2 ^ 32 → IsValid (load_into p rd v)
unfolding load_into
load_into-IsValid rd v valid h =
    choice IsValid (rd == 15)
      (set_thumb-IsValid
        (arm_write_register-IsValid valid 15 _ (bit_and-lt v 0xffff_fffe 32 h (omega arith))) v)
      (arm_write_register-IsValid valid rd v h)

low_byte_set-lt : (host : Host) (o : Option ℕ) → Below 256 o → IsWord (low_byte_set host o)
low_byte_set-lt host none h = omega arith
low_byte_set-lt little (some b) h = omega arith
low_byte_set-lt big (some b) h = omega arith

pub word_set-lt : (o : Option ℕ) (v : ℕ) → Below (2 ^ 32) o → v < 2 ^ 32 → IsWord (word_set o v)
word_set-lt none v h k = k
word_set-lt (some w) v h k = h

module _ (host : Host) (ins : ℕ) where
  transfer-IsValid :
      {p : Core} (address : ℕ) → IsValid p → Returns IsValid (transfer host p ins address)
  unfolding transfer load_value store_value
  transfer-IsValid {p} address valid =
      let rd = get_bits ins 15 12 in
      let rd_value = arm_read_register p rd in
      let byte_lt : u8 (get_bits rd_value 7 0) < 256 = omega arith in
      let zero_word : IsWord 0 = omega arith in
      choice (Returns IsValid) (condition_passed (arm_read_cpsr p) ins)
        (choice (Returns IsValid) (get_bit ins 20 == 1)
          (Returns-bind {P = IsWord}
            (choice (Returns IsWord) (get_bit ins 22 == 1)
              (Returns-bind (arm_read_byte-Below valid address)
                λ o h. returns (low_byte_set-lt host o h))
              (Returns-bind (arm_read_word-Below valid address host)
                λ o h. returns (word_set-lt o 0 h zero_word)))
            λ v h. returns (load_into-IsValid rd v valid h))
          (Returns-bind {P = λ done. IsValid done.1}
            (choice (Returns (λ done. IsValid done.1)) (get_bit ins 22 == 1)
              (arm_write_byte-IsValid valid address _ byte_lt)
              (arm_write_word-IsValid valid address host rd_value (arm_read_register-lt valid rd)))
            λ done h. returns h))
        (returns valid)

  -- From a valid core, LDR, LDRB, STR and STRB in every addressing mode, taken or not, are defined,
  -- return 0 and leave the core valid.
  pub arm_load_store-IsValid :
      {p : Core}
      → IsValid p
      → Returns (λ (result, q). (result ≡ 0) × IsValid q) (arm_load_store host p ins)
  unfolding arm_load_store
  arm_load_store-IsValid {p} valid = Returns-bind (load_store_index-Returns valid ins) λ index h.
      let address = load_store_address p ins index in
      Returns-bind
        (transfer-IsValid address (
          pre_index-IsValid (post_index-IsValid valid ins index) ins address
            (load_store_address-lt valid ins index)))
        λ q k. returns (refl, k)
