-- ===== src/Scanner/Valid.antt =====
-- The scanner's buffer and the processor's invariant.
use prog.Prelude.{
  ℕ, ◌<◌, ◌≡◌, refl, arith, true, [], ◌∷◌, Option, none, some, ltb, ltb→le, truth, choice_knowing,
  length, length-append, Returns, returns, Returns-bind, Returns-Ensures, Ensures, value,
  Ensures-bind,
}
use prog.Memory.{Host}
use prog.Core.Valid.{IsValid}
use prog.Gdb.{Gdb, gdb_require_retransmission, gdb_transmit_packet}
use prog.Gdb.Packets.{Locals}
use prog.Gdb.Kept.{KeptIf}
use prog.Gdb.Packets.Valid.{gdb_packet_analysis-KeptIf}
use prog.Scanner.{
  Token, ack, retransmission, packet, other, line_end, ParserData, handle_error,
  add_character_to_error, stored, act, with_gdb,
}

-- A valid core, and room for the terminator in the buffer.
pub record IsSound (d : ParserData) : Type 0 where
  pub core : IsValid d.gdb.arm
  pub room : length d.buffer < 1024

abbrev pub SoundIf : Option ParserData → Type 0
SoundIf none = Unit {0}
SoundIf (some d) = IsSound d

handle_error-IsSound :
    (d : ParserData)
    → IsSound d
    → Returns (λ after. IsValid after.gdb.arm × (length after.buffer ≡ 0)) (handle_error d)
unfolding handle_error gdb_require_retransmission
handle_error-IsSound d sound =
    let fits : ltb (length d.buffer) 1024 ≡ true = ground (arith, sound.room) in
    choice_knowing (Returns _) (truth (length d.buffer)) (λ _. rw fits (returns (sound.core, refl)))
      (λ empty. returns (sound.core, ground (arith, empty)))

stored-IsSound :
    (c : ℕ) (d : ParserData)
    → IsValid d.gdb.arm
    → length d.buffer < 1023
    → Returns IsSound (stored c d)
stored-IsSound c d valid short =
    let fits : ltb (length d.buffer) 1024 ≡ true = ground (arith, short) in
    let one = length-append d.buffer (c ∷ []) in
    rw fits (returns record { core = valid; room = omega (arith, one, short) })

-- A byte that belongs to no packet never makes the scanner write past its buffer.
pub add_character_to_error-IsSound :
    (d : ParserData) (c : ℕ) → IsSound d → Returns IsSound (add_character_to_error d c)
unfolding add_character_to_error
add_character_to_error-IsSound d c sound =
    choice_knowing (Returns IsSound) (ltb 1022 (length d.buffer))
      (λ _.
        Returns-bind (handle_error-IsSound d sound)
          λ after (v, e). stored-IsSound c after v (omega (arith, e)))
      (λ short. stored-IsSound c d sound.core (omega (arith, ltb→le _ _ short)))

module _ (host : Host) (target rounds : ℕ) (l : ℕ → Locals) where
  pub act-SoundIf :
      (k : ℕ) (t : Token) (d : ParserData)
      → IsSound d
      → Ensures SoundIf (act host target rounds l k t d)
  unfolding act gdb_transmit_packet
  act-SoundIf k ack d sound =
      Ensures-bind (Returns-Ensures (handle_error-IsSound d sound))
        λ after (v, e). value record { core = v; room = omega (arith, e) }
  act-SoundIf k retransmission d sound =
      Ensures-bind (Returns-Ensures (handle_error-IsSound d sound))
        λ after (v, e). value record { core = v; room = omega (arith, e) }
  act-SoundIf k (packet text) d sound =
      Ensures-bind (Returns-Ensures (handle_error-IsSound d sound)) λ after (v, e).
        Ensures-bind (gdb_packet_analysis-KeptIf host target rounds (l k) after.gdb text v)
          λ o kept. value (carried o kept)
    where
      carried : (o : Option Gdb) → KeptIf o → SoundIf (with_gdb o)
      carried none kept = tt
      carried (some g) kept = record { core = kept; room = omega arith }
  act-SoundIf k (other c) d sound =
      Ensures-bind (Returns-Ensures (add_character_to_error-IsSound d c sound)) λ after s. value s
  act-SoundIf k line_end d sound = value sound
