-- ===== src/Prelude/Options.antt =====
-- Chains of steps that may fail. `none` is a failed assertion, which aborts the program.
use mathlib.Core.Bool.{Bool, true, false}
use mathlib.Core.Option.{Option, none, some}

infixl 5 ◌>>=◌ ◌>>◌
abbrev pub ◌>>=◌ {ℓ κ} : {A : Type ℓ} {B : Type κ} → Option A → (A → Option B) → Option B
none >>= f = none
some a >>= f = f a

abbrev pub ◌>>◌ {ℓ} : {B : Type ℓ} → Option (Unit {0}) → Option B → Option B
m >> k = m >>= λ _. k

-- `assert(b)`.
abbrev pub assert : Bool → Option (Unit {0})
assert true = some tt
assert false = none

-- A property of the result, if there is one.
abbrev pub Every {ℓ} : {A : Type ℓ} → (A → Type 0) → Option A → Type 0
Every P none = Unit
Every P (some a) = P a

pub Every-bind {ℓ κ} :
    {A : Type ℓ} {B : Type κ} (P : A → Type 0) (Q : B → Type 0) (o : Option A) (f : A → Option B)
    → ((a : A) → P a → Every Q (f a))
    → Every P o
    → Every Q (o >>= f)
Every-bind P Q none f step h = h
Every-bind P Q (some a) f step h = step a h

-- To go on from a result with its parts as variables.
pub given {ℓ κ ι μ} :
    {A : Type ℓ} {B : A → Type κ} {C : A → Type ι} {D : Type μ}
    → ((a : A) × B a × C a)
    → ((a : A) → B a → C a → D)
    → D
given s f = f s.0 s.1 s.2
