-- ===== src/Gdb/Words.antt =====
-- `read_uint32` and `write_uint32`: words as eight hexadecimal digits, in the byte order of the target.
pub mod RoundTrip
use prog.Prelude.{
  ℕ, zero, suc, ◌+◌, ◌-◌, ◌*◌, ◌/◌, ◌%◌, ◌^◌, Option, none, some, List, [], ◌∷◌, ◌++◌, ◌==◌,
  if◌then◌else◌, Run, ret, ◌>>=◌, drop,
}
use prog.Memory.{Host, little, big, host_byte, host_word, is_big_endian, update}
use prog.Gdb.Text.{sprintf_02x, sscanf_2x, assigned}

-- `host` runs the simulator and `target` is the order that BIG_ENDIAN_SIMULATOR chooses, 1 for big.
module _ (host : Host) (target : ℕ) where
  -- The index i of the round k of the loops.
  unfoldable pub byte_index : ℕ → ℕ
  unfolding is_big_endian
  byte_index k = if is_big_endian host == target then k else 3 - k

  -- The loop of `write_uint32`, with `left` rounds to go.
  unfoldable pub write_bytes : (value left k : ℕ) → List ℕ
  unfolding byte_index
  write_bytes value zero k = []
  write_bytes value (suc left) k =
      sprintf_02x (host_byte host 4 value (byte_index k)) ++ write_bytes value left (k + 1)

  unfoldable pub write_uint32 : ℕ → List ℕ
  unfolding write_bytes
  write_uint32 value = write_bytes value 4 0

  -- The loop of `read_uint32`: `value` is the last one scanned.
  unfoldable pub read_bytes : (left k value : ℕ) → (ℕ → ℕ) → List ℕ → Run (ℕ → ℕ)
  unfolding byte_index
  read_bytes zero k value bytes s = ret bytes
  read_bytes (suc left) k value bytes s = do
    scanned ← sscanf_2x s
    let value' = assigned value scanned
    read_bytes left (k + 1) value' (update bytes (byte_index k) (value' % 256)) (drop 2 s)

  -- `garbage` is what `value` holds before the first scan. The four rounds set all four bytes.
  unfoldable pub read_uint32 : (garbage : ℕ) → List ℕ → Run ℕ
  unfolding read_bytes
  read_uint32 garbage s = do
    bytes ← read_bytes 4 0 garbage (λ _. 0) s
    ret (host_word host (bytes 0) (bytes 1) (bytes 2) (bytes 3))
