-- ===== src/Prelude/Outcome.antt =====
-- What running a piece of the program gives: a value, a behaviour that C leaves undefined (a shift
-- count out of range, an access outside an array), or the end of the process with its exit status.
use Prim.Native.Nat.{ℕ}

pub data Run {ℓ} (A : Type ℓ) : Type ℓ where
  ret : A → Run A
  undefined : Run A
  exited : ℕ → Run A

infixl 5 ◌>>=◌
abbrev pub ◌>>=◌ {ℓ κ} : {A : Type ℓ} {B : Type κ} → Run A → (A → Run B) → Run B
ret a >>= f = f a
undefined >>= f = undefined
exited n >>= f = exited n

-- A run that gives a value, and one that satisfies P.
pub data Returns {ℓ κ} {A : Type ℓ} (P : A → Type κ) : Run A → Type (ℓ ⊔ κ) where
  returns : {a : A} → P a → Returns P (ret a)

pub Returns-bind {ℓ κ ι μ} :
    {A : Type ℓ} {B : Type κ} {P : A → Type ι} {Q : B → Type μ} {m : Run A} {f : A → Run B}
    → Returns P m
    → ((a : A) → P a → Returns Q (f a))
    → Returns Q (m >>= f)
Returns-bind (returns p) next = next _ p

-- A run whose value, if it gives one, satisfies P.
pub data Ensures {ℓ κ} {A : Type ℓ} (P : A → Type κ) : Run A → Type (ℓ ⊔ κ) where
  value : {a : A} → P a → Ensures P (ret a)
  no_value : Ensures P undefined
  ended : {n : ℕ} → Ensures P (exited n)

pub Ensures-bind {ℓ κ ι μ} :
    {A : Type ℓ} {B : Type κ} {P : A → Type ι} {Q : B → Type μ} {m : Run A} {f : A → Run B}
    → Ensures P m
    → ((a : A) → P a → Ensures Q (f a))
    → Ensures Q (m >>= f)
Ensures-bind (value p) next = next _ p
Ensures-bind no_value next = no_value
Ensures-bind ended next = ended

pub Returns-Ensures {ℓ κ} : {A : Type ℓ} {P : A → Type κ} {m : Run A} → Returns P m → Ensures P m
Returns-Ensures (returns p) = value p

pub Returns-mono {ℓ κ ι} :
    {A : Type ℓ} {P : A → Type κ} {Q : A → Type ι} {m : Run A}
    → Returns P m
    → ((a : A) → P a → Q a)
    → Returns Q m
Returns-mono (returns p) weaken = returns (weaken _ p)

pub Ensures-mono {ℓ κ ι} :
    {A : Type ℓ} {P : A → Type κ} {Q : A → Type ι} {m : Run A}
    → Ensures P m
    → ((a : A) → P a → Q a)
    → Ensures Q m
Ensures-mono (value p) weaken = value (weaken _ p)
Ensures-mono no_value weaken = no_value
Ensures-mono ended weaken = ended

-- A run of which nothing is claimed, and what follows it.
abbrev pub Anything {ℓ} : {A : Type ℓ} → A → Type 0
Anything _ = Unit {0}

pub whatever {ℓ} : {A : Type ℓ} (m : Run A) → Ensures Anything m
whatever (ret a) = value tt
whatever undefined = no_value
whatever (exited n) = ended

pub after {ℓ κ ι} :
    {A : Type ℓ} {B : Type κ} {P : B → Type ι} {f : A → Run B} (m : Run A)
    → ((a : A) → Ensures P (f a))
    → Ensures P (m >>= f)
after m next = Ensures-bind (whatever m) (λ a _. next a)
