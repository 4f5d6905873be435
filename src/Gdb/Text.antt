-- ===== src/Gdb/Text.antt =====
-- The C library's functions on text that gdb_protocol.c calls: `sprintf` and `sscanf` in hexadecimal,
-- `atoi`, `strcmp`, `strncmp` and `index`. A pointer into a text is the list of the bytes from there
-- on, with the terminating 0 among them; reading past the list's end is undefined.
pub mod Digits
use mathlib.Core.Option
use prog.Prelude.{
  ℕ, zero, suc, ◌+◌, ◌-◌, ◌*◌, ◌/◌, ◌%◌, ◌^◌, Bool, true, false, ◌&&◌, ◌||◌, Option, none, some,
  List, [], ◌∷◌, ltb, leb, ◌==◌, if◌then◌else◌, Run, ret, undefined, ◌>>=◌, length, drop,
}

-- `%02x` of an unsigned char
unfoldable pub hex_digit : ℕ → ℕ
hex_digit d = if ltb d 10 then d + b'0' else d - 10 + b'a'

unfoldable pub sprintf_02x : ℕ → List ℕ
unfolding hex_digit
sprintf_02x v = hex_digit (v / 16) ∷ hex_digit (v % 16) ∷ []

-- The value of a hexadecimal digit, if it is one.
unfoldable pub digit_of : ℕ → Option ℕ
digit_of c =
    if leb b'0' c && leb c b'9'
    then some (c - b'0')
    else if leb b'a' c && leb c b'f'
    then some (c - b'a' + 10)
    else if leb b'A' c && leb c b'F'
    then some (c - b'A' + 10)
    else none

-- What `isspace` accepts.
unfoldable pub is_space : ℕ → Bool
is_space c = (c == 32) || (leb 9 c && leb c 13)

unfoldable pub skip_space : List ℕ → List ℕ
skip_space [] = []
skip_space (c ∷ s) = if is_space c then skip_space s else c ∷ s

-- The text that a pointer points to: the bytes before the terminator.
unfoldable pub text_at : List ℕ → List ℕ
text_at [] = []
text_at (c ∷ s) = if c == 0 then [] else c ∷ text_at s

-- Hexadecimal digits, at most `width` of them, after a value read so far; with what follows them.
unfoldable pub hex_digits : (width : ℕ) (value : ℕ) → List ℕ → ℕ × List ℕ
hex_digits zero value s = (value, s)
hex_digits (suc width) value [] = (value, [])
hex_digits (suc width) value (c ∷ s) = elim (digit_of c) [
  | none ↦ (value, c ∷ s)
  | some d ↦ hex_digits width (value * 16 + d) s
]

-- The same, where one digit at least is wanted.
unfoldable pub some_digits : ℕ → List ℕ → Option (ℕ × List ℕ)
some_digits zero s = none
some_digits (suc width) [] = none
some_digits (suc width) (c ∷ s) = Option.map (λ d. hex_digits width d s) (digit_of c)

-- Whether the text starts with `0x` or `0X`, within the width.
unfoldable pub has_prefix : ℕ → List ℕ → Bool
has_prefix width [] = false
has_prefix width (c ∷ []) = false
has_prefix width (c ∷ d ∷ s) = leb 2 width && (c == b'0') && ((d == b'x') || (d == b'X'))

unfoldable pub unsigned_hex : ℕ → List ℕ → Option (ℕ × List ℕ)
unsigned_hex width s =
    if has_prefix width s then some_digits (width - 2) (drop 2 s) else some_digits width s

abbrev negated : ℕ × List ℕ → ℕ × List ℕ
negated (v, s) = ((2 ^ 32 - v % 2 ^ 32) % 2 ^ 32, s)

-- An optional sign first.
unfoldable pub signed_hex : ℕ → List ℕ → Option (ℕ × List ℕ)
signed_hex width [] = none
signed_hex width (c ∷ s) =
    if c == b'-'
    then Option.map negated (unsigned_hex (width - 1) s)
    else if c == b'+'
    then unsigned_hex (width - 1) s
    else unsigned_hex width (c ∷ s)

-- `sscanf(data, "%2x", ...)`: `none` where nothing is assigned.
unfoldable pub sscanf_2x : List ℕ → Run (Option ℕ)
unfolding signed_hex unsigned_hex some_digits has_prefix
sscanf_2x [] = undefined
sscanf_2x (c ∷ s) = ret (Option.map (λ r. r.0) (signed_hex 2 (skip_space (text_at (c ∷ s)))))

-- `%x` with no width, with the text after it. A value of more than 32 bits is undefined.
unfoldable pub in_range : Option (ℕ × List ℕ) → Run (Option (ℕ × List ℕ))
in_range none = ret none
in_range (some (v, rest)) = if ltb v (2 ^ 32) then ret (some (v, rest)) else undefined

unfoldable pub hex_number : List ℕ → Option (ℕ × List ℕ)
hex_number s = signed_hex (length s) s

unfoldable pub scan_x : List ℕ → Run (Option (ℕ × List ℕ))
unfolding in_range hex_number
scan_x [] = undefined
scan_x (c ∷ s) = in_range (hex_number (skip_space (text_at (c ∷ s))))

-- A variable that a scan may have assigned.
abbrev pub assigned : ℕ → Option ℕ → ℕ
assigned old none = old
assigned old (some v) = v

-- `sscanf(data, "%x,%x", &address, &size)`, where `address` and `size` hold what they are given
-- before the call.
unfoldable pub after_comma : ℕ → List ℕ → Run ℕ
after_comma size [] = ret size
after_comma size (c ∷ []) = ret size
after_comma size (c ∷ d ∷ s) =
    if c == b','
    then scan_x (d ∷ s) >>= (λ o. ret (assigned size (Option.map (λ r. r.0) o)))
    else ret size

unfoldable pub sscanf_pair : (address size : ℕ) → List ℕ → Run (ℕ × ℕ)
sscanf_pair address size s = do
  first ← scan_x s
  elim first [
    | none ↦ ret (address, size)
    | some (v, rest) ↦ after_comma size rest >>= (λ n. ret (v, n))
  ]

unfoldable pub dec_digits : ℕ → List ℕ → ℕ
dec_digits value [] = value
dec_digits value (c ∷ s) =
    let rest = dec_digits (value * 10 + (c - b'0')) s in
    if leb b'0' c && leb c b'9' then rest else value

-- `atoi`: an int as its 32 bits, undefined where it does not fit.
unfoldable pub signed_dec : List ℕ → Run ℕ
signed_dec [] = ret 0
signed_dec (c ∷ s) =
    if c == b'-'
    then if leb (dec_digits 0 s) (2 ^ 31)
      then ret ((2 ^ 32 - dec_digits 0 s) % 2 ^ 32)
      else undefined
    else let v = if c == b'+' then dec_digits 0 s else dec_digits 0 (c ∷ s) in
      if ltb v (2 ^ 31) then ret v else undefined

unfoldable pub atoi : List ℕ → Run ℕ
unfolding signed_dec
atoi [] = undefined
atoi (c ∷ s) = signed_dec (skip_space (text_at (c ∷ s)))

-- `strcmp(s, t) == 0` and `strncmp(s, t, n) == 0` for a t of n bytes, on texts without terminators
unfoldable pub text_eq : List ℕ → List ℕ → Bool
text_eq [] [] = true
text_eq [] (_ ∷ _) = false
text_eq (_ ∷ _) [] = false
text_eq (c ∷ s) (d ∷ t) = (c == d) && text_eq s t

unfoldable pub starts_with : List ℕ → List ℕ → Bool
starts_with s [] = true
starts_with [] (_ ∷ _) = false
starts_with (c ∷ s) (d ∷ t) = (c == d) && starts_with s t

-- `index(data, c) + 1`: where c does not occur the pointer is null, and using it undefined.
unfoldable pub after_index : ℕ → List ℕ → Run (List ℕ)
after_index c [] = undefined
after_index c (d ∷ s) = elim (d == c) [
  | true ↦ ret s
  | false ↦ elim (d == 0) [ true ↦ undefined | false ↦ after_index c s ]
]
