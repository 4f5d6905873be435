-- ===== src/Sockets/Delivery.antt =====
-- What a client and a server rely on: the bytes that are written on a connection arrive at its other
-- end, in their order, and then its end.
use prog.Prelude.{ℕ, none, some, ◌≡◌, List, [], ◌∷◌, ◌++◌, Returns}
use prog.Sockets.{Sockets}

-- A server's socket listens for a host and a port, whose address is `Resolved`; a client's is `Linked` to
-- it with the bytes written so far, and then `Sent`; an accepted connection has `Incoming` bytes.
pub record Delivery {World : Type 0} (sockets : Sockets World) (server : ℕ) (host : List ℕ)
    (port : ℕ) : Type 1 where
  pub Listening : World → Type 0
  pub Resolved : (address : List ℕ) → World → Type 0
  pub Linked : (fd : ℕ) → List ℕ → World → Type 0
  pub Sent : List ℕ → World → Type 0
  pub Incoming : (fd : ℕ) → List ℕ → World → Type 0
  pub socket-Listening :
      {w : World} → Listening w → Returns (λ (fd, w'). Listening w') (sockets.socket w)
  pub set_reuse-Listening :
      {w : World} (fd : ℕ) → Listening w → Returns Listening (sockets.set_reuse fd w)
  pub gethostbyname-Resolved :
      {w : World}
      → Listening w
      → Returns (λ (address, w'). Resolved address w') (sockets.gethostbyname host w)
  pub connect-Linked :
      {w : World} {address : List ℕ} (fd : ℕ)
      → Resolved address w
      → Returns (Linked fd []) (sockets.connect fd address port w)
  pub write-Linked :
      {w : World} {fd : ℕ} {before : List ℕ} (bytes : List ℕ)
      → Linked fd before w
      → Returns (Linked fd (before ++ bytes)) (sockets.write fd bytes w)
  pub shutdown-Sent :
      {w : World} {fd : ℕ} {bytes : List ℕ} → Linked fd bytes w → Sent bytes (sockets.shutdown fd w)
  pub close-Sent :
      {w : World} {bytes : List ℕ} (fd : ℕ) → Sent bytes w → Sent bytes (sockets.close fd w)
  pub accept-Incoming :
      {w : World} {bytes : List ℕ}
      → Sent bytes w
      → Returns (λ (fd, w'). Incoming fd bytes w') (sockets.accept server w)
  pub read-Incoming :
      {w : World} {fd b : ℕ} {bytes : List ℕ}
      → Incoming fd (b ∷ bytes) w
      → Returns (λ (o, w'). (o ≡ some b) × Incoming fd bytes w') (sockets.read fd w)
  pub read-end :
      {w : World} {fd : ℕ} → Incoming fd [] w → Returns (λ (o, w'). o ≡ none) (sockets.read fd w)
