-- ===== src/Memory/Bytes.antt =====
-- Byte reversal exchanges the host's two byte orders.
use prog.Prelude.{ℕ, ◌/◌, ◌%◌, ◌^◌, ◌<◌, ◌≡◌, arith}
use prog.Util.{reverse_2, reverse_4}
use prog.Util.Macros.{reverse_2-eq-sum, reverse_4-eq-sum}
use prog.Memory.{host_half, host_word, little, big}

module _ (b0 b1 b2 b3 : ℕ) (h0 : b0 < 256) (h1 : b1 < 256) (h2 : b2 < 256) (h3 : b3 < 256) where
  pub reverse_4-little : reverse_4 (host_word little b0 b1 b2 b3) ≡ host_word big b0 b1 b2 b3
  reverse_4-little = omega (arith, reverse_4-eq-sum (host_word little b0 b1 b2 b3) (omega arith))

  pub reverse_4-big : reverse_4 (host_word big b0 b1 b2 b3) ≡ host_word little b0 b1 b2 b3
  reverse_4-big = omega (arith, reverse_4-eq-sum (host_word big b0 b1 b2 b3) (omega arith))

module _ (b0 b1 : ℕ) (h0 : b0 < 256) (h1 : b1 < 256) where
  pub reverse_2-little : reverse_2 (host_half little b0 b1) ≡ host_half big b0 b1
  reverse_2-little = omega (arith, reverse_2-eq-sum (host_half little b0 b1) (omega arith))

  pub reverse_2-big : reverse_2 (host_half big b0 b1) ≡ host_half little b0 b1
  reverse_2-big = omega (arith, reverse_2-eq-sum (host_half big b0 b1) (omega arith))

-- The bytes of a reversed value, from the lowest.
module _ (v : ℕ) (word : v < 2 ^ 32) where
  pub reverse_4-digits :
      (reverse_4 v / 2 ^ 0 % 256 ≡ v / 2 ^ 24 % 256)
      × (reverse_4 v / 2 ^ 8 % 256 ≡ v / 2 ^ 16 % 256)
      × (reverse_4 v / 2 ^ 16 % 256 ≡ v / 2 ^ 8 % 256)
      × (reverse_4 v / 2 ^ 24 % 256 ≡ v / 2 ^ 0 % 256)
  reverse_4-digits = omega (arith, reverse_4-eq-sum v word)

module _ (v : ℕ) (half : v < 2 ^ 16) where
  pub reverse_2-digits :
      (reverse_2 v / 2 ^ 0 % 256 ≡ v / 2 ^ 8 % 256) × (reverse_2 v / 2 ^ 8 % 256 ≡ v / 2 ^ 0 % 256)
  reverse_2-digits = omega (arith, reverse_2-eq-sum v half)
