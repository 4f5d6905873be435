-- ===== src/Simulator/Interleaving.antt =====
-- The scanner's thread and that of the interrupts, in the order in which they take their turns.
use mathlib.Core.Path.{subst}
use prog.Prelude.{
  ℕ, suc, ◌<◌, ◌≡◌, ◌≢◌, refl, sym, ap, ◌∙◌, arith, length, Option, none, some, List, [], ◌∷◌, ret,
  Ensures, Ensures-bind, value, after,
}
use prog.Constants.{reset}
use prog.Memory.{Host, memory_create}
use prog.Core.{Core}
use prog.Core.Valid.{IsValid}
use prog.Exception.{arm_exception}
use prog.Gdb.{gdb_init_data}
use prog.Gdb.Packets.{Locals}
use prog.Scanner.{ParserData, Token, tokens, act, scan, gdb_scanner}
use prog.Scanner.Valid.{IsSound, SoundIf, act-SoundIf}
use prog.Sockets.{Sockets}
use prog.Exception.Reset.{arm_create_lem}
use prog.Simulator.{Settings, start, irq_received}
use prog.Simulator.Threads.{ServerData, Place, accepting, reading, irq_read, irq_round}
use prog.Simulator.Listeners.{irq_round-IsValid}

-- Both threads: where that of the interrupts is, and what that of the scanner has before it, with the
-- number of the next token. The processor that they share is `parser.gdb.arm`.
pub record Process (World : Type 0) : Type 0 where
  pub world : World
  pub place : Place
  pub count : ℕ
  pub left : List Token
  pub parser : ParserData

abbrev with_arm : Core → ParserData → ParserData
with_arm arm d = record d { gdb = record d.gdb { arm = arm } }

of_value : {A : Type 0} {P : A → Type 0} {a : A} → Ensures P (ret a) → P a
of_value (value h) = h

unmoved : (irq : ℕ) (arm : Core) → irq ≢ reset → irq_received irq arm ≡ arm
unfolding irq_received arm_exception
unmoved irq arm other = ground (arith, other)

module _ {World : Type 0} (sockets : Sockets World) (server : ServerData) (host : Host)
    (target rounds : ℕ) (l : ℕ → Locals) where
  -- The threads as they start: all that GDB sends is before the scanner.
  unfoldable pub starting : Core → (sent : List ℕ) → World → Process World
  starting arm sent w = record {
    world = w;
    place = accepting;
    count = 0;
    left = tokens (length sent) sent;
    parser = record { gdb = gdb_init_data arm; buffer = [] };
  }

  -- Turns in any order: a token of GDB, or a round of the other thread.
  pub data Interleaving (first : Process World) : Process World → Type 0 where
    none_yet : Interleaving first first
    gdb_turn :
        {w : World} {place : Place} {k : ℕ} {t : Token} {ts : List Token} {d d' : ParserData}
        → Interleaving first
            record { world = w; place = place; count = k; left = t ∷ ts; parser = d }
        → act host target rounds l k t d ≡ ret (some d')
        → Interleaving first
            record { world = w; place = place; count = suc k; left = ts; parser = d' }
    irq_turn :
        {w w' : World} {place place' : Place} {k : ℕ} {ts : List Token} {d : ParserData}
        {arm' : Core}
        → Interleaving first record { world = w; place = place; count = k; left = ts; parser = d }
        → irq_round sockets server place w d.gdb.arm ≡ ret (place', w', arm')
        → Interleaving first
            record { world = w'; place = place'; count = k; left = ts; parser = with_arm arm' d }

  Interleaving-IsSound_from :
      {first now : Process World}
      → IsSound first.parser
      → Interleaving first now
      → IsSound now.parser
  Interleaving-IsSound_from sound none_yet = sound
  Interleaving-IsSound_from sound (gdb_turn {k = k} {t} {d = d} before given) = of_value (
      subst (Ensures SoundIf) given
        (act-SoundIf host target rounds l k t d (Interleaving-IsSound_from sound before)))
  Interleaving-IsSound_from sound (irq_turn {w} {place = place} {d = d} before given) =
      let s = Interleaving-IsSound_from sound before in
      let v = of_value (
        subst (Ensures (λ (p, w', arm'). IsValid arm')) given
          (irq_round-IsValid sockets server place w d.gdb.arm s.core)) in
      record { core = v; room = s.room }

  -- Where no byte that is read is RESET, a round of the interrupts' thread leaves the processor.
  module _
      (calm : (fd : ℕ) (w : World) → Ensures (λ (o, w'). o ≢ some reset) (sockets.read fd w)) where
    round_calm :
        (place : Place) (w : World) (arm : Core)
        → Ensures (λ (place', w', arm'). arm' ≡ arm) (irq_round sockets server place w arm)
    unfolding irq_round
    round_calm accepting w arm = after (sockets.accept server.socket w) λ accepted. value refl
    round_calm (reading fd) w arm =
        Ensures-bind (calm fd w) λ (o, w') other. value (same o w' other)
      where
        same : (o : Option ℕ) (w' : World) → o ≢ some reset → (irq_read sockets fd o w' arm).2 ≡ arm
        same none w' other = refl
        same (some irq) w' other = unmoved irq arm λ e. other (ap some e)

    goes_on :
        (k : ℕ) (t : Token) (ts : List Token) (d : ParserData) {d' : ParserData}
        → act host target rounds l k t d ≡ ret (some d')
        → scan host target rounds l k (t ∷ ts) d ≡ scan host target rounds l (suc k) ts d'
    unfolding scan
    goes_on k t ts d given = rw given refl

    unseen :
        {first now : Process World}
        → Interleaving first now
        → scan host target rounds l first.count first.left first.parser
          ≡ scan host target rounds l now.count now.left now.parser
    unseen none_yet = refl
    unseen (gdb_turn {k = k} {t} {ts} {d} {d'} before given) =
        unseen before ∙ goes_on k t ts d given
    unseen (irq_turn {w} {place = place} {k = k} {ts} {d} before given) =
        let same = of_value (
          subst (Ensures (λ (p, w', arm'). arm' ≡ d.gdb.arm)) given
            (round_calm place w d.gdb.arm)) in
        unseen before ∙ ap (λ arm. scan host target rounds l k ts (with_arm arm d)) (sym same)

    -- Where no byte that the interrupts' thread reads is RESET: whatever turns the two threads have taken,
    -- what the scanner still does from there gives what the scanner gives on its own.
    pub Interleaving-gdb_scanner :
        (arm : Core) (sent : List ℕ) (w : World) {now : Process World}
        → Interleaving (starting arm sent w) now
        → gdb_scanner host target rounds l arm sent
          ≡ scan host target rounds l now.count now.left now.parser
    unfolding gdb_scanner starting
    Interleaving-gdb_scanner arm sent w turns = unseen turns

  -- Whatever the bytes of GDB and of the interrupts and the turns of the two threads, from the processor that
  -- the simulator starts over a block of bytes: it stays valid, and the scanner's buffer has room for a
  -- terminator.
  pub Interleaving-IsSound :
      {File : Type 0} (garbage : ℕ) (heap : ℕ → ℕ) (s : Settings File) (sent : List ℕ) (w : World)
      {now : Process World}
      → target < 2
      → ((a : ℕ) → heap a < 256)
      → Interleaving (starting ((start target heap garbage s).1) sent w) now
      → IsSound now.parser
  unfolding starting gdb_init_data start memory_create
  Interleaving-IsSound garbage heap s sent w flag bytes turns =
      let created =
        arm_create_lem garbage (memory_create heap 0x2_0000 target)
          record { whole_words = refl; small = omega arith; flag = flag; byte = bytes } in
      Interleaving-IsSound_from record { core = created.0; room = omega arith } turns
