-- ===== src/Trace.antt =====
-- trace.c, as it is built without ARM_TRACE_FORMAT. `File` stands for `FILE *`. What `fprintf` is given
-- is recorded as pieces: texts, and numbers with their conversions.
pub mod Pieces
pub mod State
pub mod Locations
pub mod Output
pub mod Printed
pub mod Accesses
use prog.Prelude.{
  ℕ, zero, suc, ◌+◌, ◌-◌, ◌%◌, ◌^◌, Bool, true, false, not, ◌&&◌, Option, none, some, List, [], ◌∷◌,
  ◌++◌, bit_and, bit_or, ltb, leb, ◌==◌, truth, if◌then◌else◌, Run, ret, undefined, ◌>>=◌, length,
  codes,
}
use prog.Word.{add32}
use prog.Trace.Pieces.{Piece, text, decimal, hexadecimal}
use prog.Names.{nth, arm_get_mode_name, arm_get_register_name}

abbrev pub memory_flag : ℕ
memory_flag = 1

abbrev pub registers_flag : ℕ
registers_flag = 2

abbrev pub state_flag : ℕ
state_flag = 4

abbrev pub position_flag : ℕ
position_flag = 8

abbrev pub Location : Type 0
Location = List ℕ × ℕ

-- The static variables. `locations` are the entries of the two stacks up to `location_stack_top`, the
-- top first; `below` is how far the top is under the empty stack's -1. `printed` is what has been
-- printed, to which file.
pub record Trace (File : Type 0) : Type 0 where
  pub output : File
  pub last_address : ℕ
  pub enabled : Bool
  pub locations : List Location
  pub below : ℕ
  pub flags : ℕ
  pub printed : List (File × List Piece)

abbrev pub seqs : List (List ℕ)
seqs = [] ∷ [] ∷ []

abbrev pub causes : List (List ℕ)
causes = [] ∷ codes ", fetch" ∷ []

abbrev pub types : List (List ℕ)
types = codes "write" ∷ codes "read" ∷ []

-- `mode_name`, an array of five bytes: the underscore and the mode's name, with a terminator.
abbrev pub mode_name : Option (List ℕ) → Run (List ℕ)
mode_name none = ret []
mode_name (some name) = if ltb (length name + 1) 5 then ret (b'_' ∷ name) else undefined

module _ {File : Type 0} where
  unfoldable pub set_trace_file : File → Trace File → Trace File
  set_trace_file f t = record t { output = f }

  -- The entry is written at the new top, which must be in the arrays.
  unfoldable pub trace_start_location : List ℕ → ℕ → Trace File → Run (Trace File)
  trace_start_location file line t =
      if t.enabled
      then if (t.below == 0) && ltb (length t.locations) 128
        then ret (record t { locations = (file, line) ∷ t.locations })
        else undefined
      else ret t

  popped : Trace File → List Location → Trace File
  popped t [] = record t { below = t.below + 1 }
  popped t (_ ∷ locations) = record t { locations = locations }

  -- The uint8_t that it returns, and the state.
  unfoldable pub trace_end_location : Trace File → ℕ × Trace File
  unfolding popped
  trace_end_location t = (0, if t.enabled then popped t t.locations else t)

  abbrev pub prints : List Piece → Trace File → Trace File
  prints pieces t = record t { printed = t.printed ++ ((t.output, pieces) ∷ []) }

  abbrev pub traces : ℕ → Trace File → Bool
  traces flag t = t.enabled && truth (bit_and t.flags flag)

  located : Trace File → List Location → Trace File
  located t [] = t
  located t ((file, line) ∷ _) =
      prints (text file ∷ text (codes ", ") ∷ decimal line ∷ text (codes ": ") ∷ []) t

  unfoldable pub trace_print_location : Trace File → Trace File
  unfolding located
  trace_print_location t = if traces position_flag t then located t t.locations else t

  unfoldable pub trace_memory :
      (cycle type size cause address value : ℕ) → Trace File → Run (Trace File)
  trace_memory cycle type size cause address value t =
      if not (traces memory_flag t) then ret t else do
        let seq = if address == add32 t.last_address 4 then 1 else 0
        let t' = trace_print_location (record t { last_address = address })
        seq_text ← nth seqs seq
        type_text ← nth types type
        cause_text ← nth causes cause
        ret (
            prints
              (text (codes "Cycle ")
                ∷ decimal cycle
                ∷ text (codes ", Mem ")
                ∷ text seq_text
                ∷ text type_text
                ∷ text (codes " (")
                ∷ decimal size
                ∷ text (codes " bytes")
                ∷ text cause_text
                ∷ text (codes ") addr: ")
                ∷ hexadecimal address
                ∷ text (codes ", val: ")
                ∷ hexadecimal value
                ∷ text (codes "\n")
                ∷ [])
              t')

  unfoldable pub trace_register : (cycle type reg mode value : ℕ) → Trace File → Run (Trace File)
  trace_register cycle type reg mode value t = if not (traces registers_flag t) then ret t else do
    arm_mode ← arm_get_mode_name mode
    name ← mode_name arm_mode
    let t' = trace_print_location t
    type_text ← nth types type
    register ← arm_get_register_name reg
    ret (
        prints
          (text (codes "Cycle ")
            ∷ decimal cycle
            ∷ text (codes ", Register ")
            ∷ text type_text
            ∷ text (codes ", ")
            ∷ text register
            ∷ text name
            ∷ text (codes ", val: ")
            ∷ hexadecimal value
            ∷ text (codes "\n")
            ∷ [])
          t')

  unfoldable pub trace_disable : Trace File → Trace File
  trace_disable t = record t { enabled = false }

  unfoldable pub trace_enable : Trace File → Trace File
  trace_enable t = record t { enabled = true }

  unfoldable pub trace_add : ℕ → Trace File → Trace File
  trace_add flags t = record t { flags = bit_or t.flags flags }
