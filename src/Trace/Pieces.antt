-- ===== src/Trace/Pieces.antt =====
-- What `fprintf` is given: texts, and numbers with their conversions.
use prog.Prelude.{ℕ, List}

-- `%s`, `%3s`, `%d` and `%08X`; an unsigned number is the argument as it is.
pub data Piece : Type 0 where
  text padded : List ℕ → Piece
  decimal hexadecimal : ℕ → Piece
