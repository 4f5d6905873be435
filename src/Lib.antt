-- ===== src/Lib.antt =====
-- A simulator of the ARMv5 processor that GDB drives, and what its code does.
--
-- The parts, from below, each with the file that models it:
--   Word            32-bit arithmetic with its wrap-around
--   Constants       arm_constants.h
--   Names           arm_constants.c: the names of modes, registers and exceptions; Irq send_irq.c
--   Util            util.h and util.c: bit macros, shifts, byte reversals, the condition field
--   Memory          memory.c: a block of bytes with a byte order of its own
--   Registers       registers.c: sixteen registers, the CPSR, the SPSR and the mode
--   Core            arm_core.c: registers, memory and cycle count, their accessors, the fetch
--   DataProcessing  arm_data_processing.c: Operations the sixteen operations and the flags, Operand
--                   the shifter operand, Msr the MSR instruction
--   LoadStore       arm_load_store.c: Single for words and bytes, with Index, Described and Modes for its
--                   addressing modes, Half, Multiple for LDM and STM, with Block for its loops and Stack for pairs
--                   of an STM and an LDM
--   Branch          arm_branch_other.c: B, BL and SWI
--   Exception       arm_exception.c, and `arm_create` of arm_core.c
--   Instruction     arm_instruction.c: fetch, decode, execute, exception
--   Debug           debug.c: the table of files whose debug messages are shown; Search the search in it
--   Gdb             gdb_protocol.c: Text the C library's functions on text, Words words in hexadecimal,
--                   Registers, Block and Stepping the handlers, Packets their table and the frame
--   Scanner         scanner.l and the copy of its code in scanner.c: what the bytes of GDB are;
--                   Requests a connection with several packets
--   Trace           trace.c: the flags, the stack of locations and what is printed; State
--                   `arm_print_state` of arm_core.c; Accesses the accesses of arm_core.c with their calls
--                   of the trace, and the macros of trace_location.h
--   Sockets         the calls of the system that the next one and send_irq.c make, an interface;
--                   Delivery what TCP promises about them
--   Simulator       arm_simulator.c: the options and the start, Threads its servers and its two
--                   threads, Session and Interleaving their steps in any order
--   MemoryTest      memory_test.c
-- Prelude holds what they share, Tests runs the model on small inputs.
--
-- `arm_step` fetches a word through Core from Memory, hands it to one of the decoders, and raises an
-- exception on a result other than 0. A function of the source that changes a core is a function
-- from the core to the core it leaves, behind the C result where it has one. Functions keep their
-- names, in lower case: `ConditionPassed` is `condition_passed`, `updateZN` is `update_zn`. A read
-- with an out parameter gives an `Option`, where `none` is the return of -1 and the parameter stays
-- as it was.
--
-- `Run` is what running C code gives: a value, `undefined` where C defines no behaviour (a shift
-- count of 32 or more, or negative; an access outside an array), or `exited n` for `exit(n)`. Left
-- shifts of ints into and out of the sign bit are the two's complement ones that gcc documents, and
-- so are right shifts of negative ints. `Host` is the byte order of the machine the simulator runs
-- on, which memory.c and the casts of arm_load_store.c depend on. What uninitialised memory holds is
-- an argument: `heap`, `garbage` and `Locals`. Allocation is taken to succeed.
--
-- GDB's bytes go through Scanner to the packets of Gdb, whose handlers read and change the core; the
-- bytes of send_irq.c raise exceptions in it. The two threads take a lock around each of these, so a
-- run is a sequence of such steps in any order: of the scanner's tokens and the rounds of `irq_listener`
-- in Simulator.Interleaving, of any packets and interrupts in Simulator.Session. The functions of
-- csapp.c end the process where a call of the system fails; they are the fields of Sockets, over a
-- type `World` for what the system keeps, and what a client and its server rely on is the record
-- Delivery. `gdb->mem` and the core's memory are the same object, and so one field. What goes out to
-- GDB is recorded as events in their order.
--
-- Text is a list of bytes, and a pointer into it the list from there on, with the terminator among
-- them where the code looks for it. What the source calls of the C library is written out on such
-- lists: a number that does not fit, a read past the bytes that are known and a write past an array
-- are `undefined`; a failed `assert` is `exited 134`.
--
-- The loops of the source count a known number of rounds, and are recursions on the rounds left or on
-- the list they walk. Five have no such number: `cont` runs until a breakpoint, and so for the rounds
-- that an argument gives, with `none` for a run that is not over; `irq_listener` has no end, and so runs
-- for the rounds that an argument gives, each with one call that waits; the search of debug.c gets a round
-- more than there are names, the one of send_irq.c eight for seven names, and the scanner as many as
-- there are bytes, of which each token takes one at least.
--
-- Not modelled: freeing; `__debug_raw_binary`, which only prints; the trace in the parts
-- that call the accesses of arm_core.c, which are modelled without it (Trace.Accesses compares the
-- two); the usage texts of arm_simulator.c and send_irq.c; the
-- automaton that flex generates in scanner.c; csapp.c, the library of another project.
mod Prelude
pub mod Word
pub mod Constants
pub mod Util
pub mod Memory
pub mod Registers
pub mod Core
pub mod DataProcessing
pub mod LoadStore
pub mod Branch
pub mod Exception
pub mod Instruction
pub mod Debug
pub mod Gdb
pub mod Scanner
pub mod Names
pub mod Trace
pub mod Sockets
pub mod Simulator
pub mod MemoryTest
mod Tests
