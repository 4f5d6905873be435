-- ===== src/Sockets.antt =====
-- The sockets that arm_simulator.c and send_irq.c use, an interface: the functions of csapp.c, which end
-- the process where the system call fails, `getsockname`, `shutdown`, `close` and messages on stderr.
-- Ports are in the host's byte order, since the sources pair `htons` with `ntohs`.
pub mod Delivery
use prog.Prelude.{ℕ, Option, List, Run}
use prog.Trace.Pieces.{Piece}

-- `World` is what the system keeps. `read` is `Read(fd, &c, 1)`, with `none` at the end of what comes;
-- `getsockname` gives `none` where it fails and leaves the address as it was; `gethostbyname` gives the
-- bytes of `h_addr`; `set_reuse` sets SO_REUSEADDR.
pub record Sockets (World : Type 0) : Type 0 where
  pub socket : World → Run (ℕ × World)
  pub set_reuse : (fd : ℕ) → World → Run World
  pub bind : (fd port : ℕ) → World → Run World
  pub getsockname : (fd : ℕ) → World → Option ℕ
  pub listen : (fd : ℕ) → World → Run World
  pub accept : (fd : ℕ) → World → Run (ℕ × World)
  pub gethostbyname : List ℕ → World → Run (List ℕ × World)
  pub connect : (fd : ℕ) → List ℕ → (port : ℕ) → World → Run World
  pub read : (fd : ℕ) → World → Run (Option ℕ × World)
  pub write : (fd : ℕ) → List ℕ → World → Run World
  pub shutdown : (fd : ℕ) → World → World
  pub close : (fd : ℕ) → World → World
  pub print : List Piece → World → World
