-- ===== src/Gdb/Block/RoundTrip.antt =====
-- What the handler of `m` shows of the bytes that the handler of `X` wrote.
use prog.Prelude.{ℕ, ◌+◌, ◌<◌, ◌≡◌, refl, ap₂, ◌∙◌, arith, List, [], ◌∷◌, ◌++◌, length}
use prog.Memory.{Memory}
use prog.Memory.Spec.{put_byte}
use prog.Gdb.Text.{sprintf_02x}
use prog.Gdb.Block.Dump.{bytes_text}
use prog.Gdb.Block.Fill.{put_bytes}

-- Bytes as two digits each.
unfoldable pub hex_text : List ℕ → List ℕ
hex_text [] = []
hex_text (v ∷ vs) = sprintf_02x v ++ hex_text vs

bytes-put_bytes_below :
    (vs : List ℕ) (mem : Memory) (a b : ℕ) → b < a → (put_bytes mem a vs).bytes b ≡ mem.bytes b
unfolding put_bytes put_byte
bytes-put_bytes_below [] mem a b h = refl
bytes-put_bytes_below (v ∷ vs) mem a b h =
    bytes-put_bytes_below vs (put_byte mem a v) (a + 1) b (omega arith) ∙ ground (arith, h)

pub size-put_bytes : (vs : List ℕ) (mem : Memory) (a : ℕ) → (put_bytes mem a vs).size ≡ mem.size
unfolding put_bytes put_byte
size-put_bytes [] mem a = refl
size-put_bytes (v ∷ vs) mem a = size-put_bytes vs (put_byte mem a v) (a + 1)

put_here : (mem : Memory) (a v : ℕ) → (put_byte mem a v).bytes a ≡ v
unfolding put_byte
put_here mem a v = ground arith

pub bytes_text-put_bytes :
    (vs : List ℕ) (mem : Memory) (a : ℕ)
    → bytes_text (put_bytes mem a vs) (length vs) a ≡ hex_text vs
unfolding put_bytes bytes_text hex_text
bytes_text-put_bytes [] mem a = refl
bytes_text-put_bytes (v ∷ vs) mem a =
    ap₂ (λ x rest. sprintf_02x x ++ rest)
      (bytes-put_bytes_below vs (put_byte mem a v) (a + 1) a (omega arith) ∙ put_here mem a v)
      (bytes_text-put_bytes vs (put_byte mem a v) (a + 1))
