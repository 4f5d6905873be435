-- ===== src/Gdb/Words/RoundTrip.antt =====
-- `read_uint32` on what `write_uint32` writes.
use prog.Prelude.{
  ℕ, suc, ◌+◌, ◌%◌, ◌^◌, ◌<◌, ◌≡◌, refl, ◌∙◌, ap, arith, Bool-cases, inl, inr, List, ◌++◌, ◌==◌,
  ret, ◌>>=◌,
}
use prog.Memory.{Host, little, big, host_byte, host_word, is_big_endian, update}
use prog.Gdb.Text.{sprintf_02x}
use prog.Gdb.Text.Digits.{sscanf_2x-sprintf_02x}
use prog.Gdb.Words.{byte_index, write_bytes, write_uint32, read_bytes, read_uint32}

host_byte-lt : (host : Host) (w v i : ℕ) → host_byte host w v i < 256
host_byte-lt little w v i = omega arith
host_byte-lt big w v i = omega arith

host_word-host_byte :
    (host : Host) (v : ℕ)
    → v < 2 ^ 32
    → host_word host
        (host_byte host 4 v 0)
        (host_byte host 4 v 1)
        (host_byte host 4 v 2)
        (host_byte host 4 v 3)
      ≡ v
host_word-host_byte little v h = omega arith
host_word-host_byte big v h = omega arith

module _ (host : Host) (target : ℕ) where
  -- One round on the two digits of a byte.
  read_round :
      (left k value b : ℕ) (bytes : ℕ → ℕ) (s : List ℕ)
      → b < 256
      → read_bytes host target (suc left) k value bytes (sprintf_02x b ++ s)
        ≡ read_bytes host target left (k + 1) b (update bytes (byte_index host target k) b) s
  unfolding read_bytes sprintf_02x
  read_round left k value b bytes s h =
      let whole : b % 256 ≡ b = omega arith in rw (sscanf_2x-sprintf_02x b s h, whole) refl

  -- The four rounds on four bytes.
  read_rounds :
      (value b0 b1 b2 b3 : ℕ) (bytes : ℕ → ℕ) (s : List ℕ)
      → b0 < 256
      → b1 < 256
      → b2 < 256
      → b3 < 256
      → let at = byte_index host target in
        read_bytes host target 4 0 value bytes
          (sprintf_02x b0 ++ (sprintf_02x b1 ++ (sprintf_02x b2 ++ (sprintf_02x b3 ++ s))))
        ≡ ret (update (update (update (update bytes (at 0) b0) (at 1) b1) (at 2) b2) (at 3) b3)
  unfolding read_bytes
  read_rounds value b0 b1 b2 b3 bytes s h0 h1 h2 h3 =
      read_round 3 0 value b0 bytes _ h0
      ∙ read_round 2 1 b0 b1 _ _ h1
      ∙ read_round 1 2 b1 b2 _ _ h2
      ∙ read_round 0 3 b2 b3 _ s h3

  -- Each byte lands at its index, whichever way the loops run.
  gathered :
      (f : ℕ → ℕ)
      → let at = byte_index host target in
        let bytes =
          update
            (update
              (update (update (λ _. 0) (at 0) (f (at 0))) (at 1) (f (at 1)))
              (at 2)
              (f (at 2)))
            (at 3)
            (f (at 3)) in
        host_word host (bytes 0) (bytes 1) (bytes 2) (bytes 3)
        ≡ host_word host (f 0) (f 1) (f 2) (f 3)
  unfolding byte_index
  gathered f = elim (Bool-cases (is_big_endian host == target)) [
    | inl same ↦ rw same refl
    | inr different ↦ rw different refl
  ]

  -- Eight digits are read and give the word that was written, on a host of either byte order.
  pub read_uint32-write_uint32 :
      (garbage v : ℕ) (s : List ℕ)
      → v < 2 ^ 32
      → read_uint32 host target garbage (write_uint32 host target v ++ s) ≡ ret v
  unfolding read_uint32 write_uint32 write_bytes sprintf_02x
  read_uint32-write_uint32 garbage v s h =
      let b : ℕ → ℕ = λ k. host_byte host 4 v (byte_index host target k) in
      let small : (k : ℕ) → b k < 256 = λ k. host_byte-lt host 4 v _ in
      ap
        (λ m.
          m >>= (λ (bytes : ℕ → ℕ). ret (host_word host (bytes 0) (bytes 1) (bytes 2) (bytes 3))))
        (read_rounds garbage (b 0) (b 1) (b 2) (b 3) (λ _. 0) s (small 0) (small 1) (small 2)
          (small 3))
      ∙ ap ret (gathered (host_byte host 4 v) ∙ host_word-host_byte host v h)
