-- ===== src/Constants.antt =====
-- arm_constants.h: processor modes, exceptions, and the bits of the CPSR.
use prog.Prelude.{ℕ}

abbrev pub usr : ℕ
usr = 0x10

abbrev pub irq : ℕ
irq = 0x12

abbrev pub sys : ℕ
sys = 0x1f

abbrev pub reset : ℕ
reset = 1

abbrev pub undefined_instruction : ℕ
undefined_instruction = 2

abbrev pub prefetch_abort : ℕ
prefetch_abort = 4

abbrev pub data_abort : ℕ
data_abort = 5

abbrev pub software_interrupt : ℕ
software_interrupt = 3

-- N, Z, C, V and T
abbrev pub n_bit : ℕ
n_bit = 31

abbrev pub z_bit : ℕ
z_bit = 30

abbrev pub c_bit : ℕ
c_bit = 29

abbrev pub v_bit : ℕ
v_bit = 28

abbrev pub t_bit : ℕ
t_bit = 5

abbrev pub unalloc_mask : ℕ
unalloc_mask = 0x0fff_ff00

abbrev pub user_mask : ℕ
user_mask = 0xf000_0000

abbrev pub priv_mask : ℕ
priv_mask = 0x0000_000f

abbrev pub state_mask : ℕ
state_mask = 0x0000_0020
