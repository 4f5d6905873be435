-- ===== src/LoadStore.antt =====
-- arm_load_store.c: single, multiple and half-word transfers. Each returns the int of the source and
-- the new core. `&value`, cast to a narrower pointer, is where the host's byte order shows.
pub mod Single
pub mod Multiple
pub mod Half
use prog.Prelude.{ℕ}
use prog.Constants.{undefined_instruction}
use prog.Core.{Core}

unfoldable pub arm_coprocessor_load_store : Core → ℕ → ℕ
arm_coprocessor_load_store p ins = undefined_instruction
