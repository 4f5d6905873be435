-- ===== src/Gdb/Packets/Framing.antt =====
-- The frame of a packet and its check sum.
use prog.Prelude.{
  ℕ, suc, ◌+◌, ◌*◌, ◌-◌, ◌%◌, ◌/◌, max, ◌<◌, ◌≡◌, refl, ◌∙◌, arith, List, [], ◌∷◌, ◌++◌, some, ◌==◌,
  if◌then◌else◌, ret, length, length-append, append_assoc, take-append, drop-append_suc,
}
use prog.Memory.{Host}
use prog.Gdb.{Gdb, gdb_send_ack, gdb_require_retransmission, check_sum, framed}
use prog.Gdb.Text.{hex_digit, sprintf_02x, hex_digits, scan_x, hex_number, in_range, text_at}
use prog.Gdb.Text.Digits.{
  text_at-hex_digit, skip_space-hex_digit, signed_hex-hex_digit, unsigned_hex-two,
}
use prog.Gdb.Packets.{Locals, command, gdb_packet_analysis}

-- The two digits of a check sum, up to the terminator.
scan_x-two :
    (a b : ℕ)
    → a < 16
    → b < 16
    → scan_x (hex_digit a ∷ hex_digit b ∷ 0 ∷ []) ≡ ret (some (a * 16 + b, []))
unfolding scan_x hex_digits text_at hex_number in_range
scan_x-two a b ha hb =
    rw
      (
        text_at-hex_digit a ha (hex_digit b ∷ 0 ∷ []),
        text_at-hex_digit b hb (0 ∷ []),
        skip_space-hex_digit a ha (hex_digit b ∷ []),
        signed_hex-hex_digit a ha (hex_digit b ∷ []) 2,
        unsigned_hex-two 0 a b [] ha hb,
      )
      (ground arith)

pub check_sum-lt : (check : ℕ) (s : List ℕ) → check < 256 → check_sum check s < 256
unfolding check_sum
check_sum-lt check [] h = h
check_sum-lt check (c ∷ s) h = check_sum-lt ((check + c) % 256) s (omega arith)

module _ (host : Host) (target rounds : ℕ) (l : Locals) (g : Gdb) (body : List ℕ) where
  abbrev tail : ℕ → ℕ → List ℕ
  tail a b = b'#' ∷ hex_digit a ∷ hex_digit b ∷ []

  -- A packet with two lower-case digits. Where they are the sum of its bytes it is acknowledged and its
  -- command carried out, on its bytes with a terminator for the `#`; else it is asked for again, and
  -- nothing else is done.
  pub gdb_packet_analysis_lem :
      (a b : ℕ)
      → a < 16
      → b < 16
      → gdb_packet_analysis host target rounds l g
          ((b'$' ∷ body) ++ (b'#' ∷ hex_digit a ∷ hex_digit b ∷ []))
        ≡ (if check_sum 0 body == (a * 16 + b)
            then command host target rounds l
                (gdb_send_ack g)
                (body ++ (0 ∷ hex_digit a ∷ hex_digit b ∷ 0 ∷ []))
            else ret (some (gdb_require_retransmission g)))
  unfolding gdb_packet_analysis
  gdb_packet_analysis_lem a b ha hb =
      let n = length body in
      let position : max 1 (suc (length (body ++ tail a b)) - 3) ≡ suc n =
        omega (arith, length-append body (tail a b)) in
      let before : suc n - 1 ≡ n = omega arith in
      let after : suc n + 1 ≡ suc (suc n) = omega arith in
      rw
        (
          position,
          before,
          after,
          take-append body (tail a b),
          drop-append_suc body b'#' (hex_digit a ∷ hex_digit b ∷ []),
          scan_x-two a b ha hb,
          append_assoc body (0 ∷ hex_digit a ∷ hex_digit b ∷ []) (0 ∷ []),
        )
        refl

  -- A packet as `gdb_send_buffer` frames it is accepted.
  pub gdb_packet_analysis-framed :
      gdb_packet_analysis host target rounds l g (framed body)
      ≡ command host target rounds l
          (gdb_send_ack g)
          (body ++ (0 ∷ (sprintf_02x (check_sum 0 body) ++ (0 ∷ []))))
  unfolding sprintf_02x
  gdb_packet_analysis-framed =
      gdb_packet_analysis_lem (check_sum 0 body / 16) (check_sum 0 body % 16)
        (omega (arith, check_sum-lt 0 body)) (omega arith)
      ∙ ground arith
