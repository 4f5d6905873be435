-- ===== src/Scanner.antt =====
-- scanner.l, whose code scanner.c has again among what flex generates from its rules: the tokens of what
-- GDB sends, and the actions of the rules. The connection's bytes are a list that ends at EOF. `debug`
-- is left out.
pub mod Tokens
pub mod Noise
pub mod Requests
pub mod Answer
pub mod Restore
pub mod WriteRead
pub mod Valid
use prog.Prelude.{
  ℕ, zero, suc, ◌+◌, Bool, true, false, ◌&&◌, Option, none, some, List, [], ◌∷◌, ◌++◌, ltb, leb,
  ◌==◌, truth, if◌then◌else◌, Run, ret, undefined, ◌>>=◌, length,
}
use prog.Memory.{Host}
use prog.Core.{Core}
use prog.Gdb.{Gdb, gdb_init_data, gdb_require_retransmission, gdb_transmit_packet}
use prog.Gdb.Text.{digit_of}
use prog.Gdb.Packets.{Locals, gdb_packet_analysis}

-- What the rules match. A line end matches none, and flex copies it to the standard output.
pub data Token : Type 0 where
  ack retransmission : Token
  packet : List ℕ → Token
  other : ℕ → Token
  line_end : Token

abbrev is_hex : ℕ → Bool
is_hex c = elim (digit_of c) [ none ↦ false | some _ ↦ true ]

-- `[^$#]*"#"{HEX}{HEX}`: the text it matches and what follows.
unfoldable pub packet_end : List ℕ → Option (List ℕ × List ℕ)
packet_end (a ∷ b ∷ s) = if is_hex a && is_hex b then some (b'#' ∷ a ∷ b ∷ [], s) else none
packet_end (a ∷ []) = none
packet_end [] = none

abbrev pub with_front : ℕ → Option (List ℕ × List ℕ) → Option (List ℕ × List ℕ)
with_front c none = none
with_front c (some (text, s)) = some (c ∷ text, s)

unfoldable pub packet_rest : List ℕ → Option (List ℕ × List ℕ)
unfolding packet_end
packet_rest [] = none
packet_rest (c ∷ s) = elim (c == b'$') [
  | true ↦ none
  | false ↦ elim (c == b'#') [ true ↦ packet_end s | false ↦ with_front c (packet_rest s) ]
]

-- A token is one byte at least, so that as many rounds as bytes are enough.
unfoldable pub tokens : (fuel : ℕ) → List ℕ → List Token
unfolding packet_rest
tokens zero s = []
tokens (suc fuel) [] = []
tokens (suc fuel) (c ∷ s) =
    let rest = tokens fuel s in
    if c == b'+'
    then ack ∷ rest
    else if c == b'-'
    then retransmission ∷ rest
    else if c == 10
    then line_end ∷ rest
    else if c == b'$'
    then elim (packet_rest s) [
      | none ↦ other c ∷ rest
      | some (text, s') ↦ packet (c ∷ text) ∷ tokens fuel s'
    ]
    else other c ∷ rest

-- `buffer` is the array's bytes below `len`.
pub record ParserData : Type 0 where
  pub gdb : Gdb
  pub buffer : List ℕ

abbrev pub max_error_size : ℕ
max_error_size = 1024

unfoldable pub handle_error : ParserData → Run ParserData
handle_error d =
    if truth (length d.buffer)
    then if ltb (length d.buffer) max_error_size
      then ret record { gdb = gdb_require_retransmission d.gdb; buffer = [] }
      else undefined
    else ret d

abbrev pub stored : ℕ → ParserData → Run ParserData
stored c d =
    if ltb (length d.buffer) max_error_size
    then ret (record d { buffer = d.buffer ++ (c ∷ []) })
    else undefined

unfoldable pub add_character_to_error : ParserData → ℕ → Run ParserData
unfolding handle_error
add_character_to_error d c =
    if ltb 1022 (length d.buffer) then handle_error d >>= stored c else stored c d

abbrev pub with_gdb : Option Gdb → Option ParserData
with_gdb none = none
with_gdb (some g) = some record { gdb = g; buffer = [] }

module _ (host : Host) (target rounds : ℕ) (l : ℕ → Locals) where
  -- The action of a rule; `l k` are the handlers' variables at the k-th token. After `handle_error`
  -- the buffer is empty.
  unfoldable pub act : ℕ → Token → ParserData → Run (Option ParserData)
  act k ack d = handle_error d >>= (λ after. ret (some after))
  act k retransmission d =
      handle_error d
      >>= (λ after. ret (some (record after { gdb = gdb_transmit_packet after.gdb })))
  act k (packet text) d = handle_error d >>= (λ after.
      gdb_packet_analysis host target rounds (l k) after.gdb text >>= (λ o. ret (with_gdb o)))
  act k (other c) d = add_character_to_error d c >>= (λ after. ret (some after))
  act k line_end d = ret (some d)

  -- `yylex`: `none` where a `cont` still runs.
  unfoldable pub scan : ℕ → List Token → ParserData → Run (Option ParserData)
  unfolding act
  scan k [] d = handle_error d >>= (λ after. ret (some after))
  scan k (t ∷ ts) d =
      act k t d >>= (λ o. elim o [ none ↦ ret none | some after ↦ scan (suc k) ts after ])

  -- `sent` is what comes on the connection.
  unfoldable pub gdb_scanner : Core → (sent : List ℕ) → Run (Option ParserData)
  unfolding tokens scan
  gdb_scanner arm sent =
      scan 0 (tokens (length sent) sent) record { gdb = gdb_init_data arm; buffer = [] }
