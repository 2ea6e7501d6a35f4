-- ===== src/Common/Outcomes.antt =====
-- How a call of C code ends: it returns, the process exits, the code runs into undefined behaviour
-- (a null pointer, an index outside its buffer, a byte that was never written), or a loop goes on
-- for ever (the fuel of its model runs out).
use mathlib.Core.Option.{Option, none, some}
use Prim.Native.Nat.{ℕ}
use mathlib.Core.Path.{◌≡◌, refl}

pub data Outcome {ℓ} (A : Type ℓ) : Type ℓ where
  ok : A → Outcome A
  exited : ℕ → Outcome A
  fault : Outcome A
  diverged : Outcome A

infixl 5 ◌>>=◌ ◌>>◌
abbrev pub ◌>>=◌ {ℓ κ} : {A : Type ℓ} {B : Type κ} → Outcome A → (A → Outcome B) → Outcome B
ok a >>= f = f a
exited n >>= f = exited n
fault >>= f = fault
diverged >>= f = diverged

abbrev pub ◌>>◌ {ℓ κ} : {A : Type ℓ} {B : Type κ} → Outcome A → Outcome B → Outcome B
m >> k = m >>= λ _. k

-- A pointer that is used without a test: null is a fault.
abbrev pub deref {ℓ} : {A : Type ℓ} → Option A → Outcome A
deref none = fault
deref (some a) = ok a

-- An outcome that is a value with a property, or the end of the process with status 1. Undefined
-- behaviour is met only where `F` holds, and an endless loop never.
abbrev pub Ends {ℓ} : {A : Type ℓ} → Type 0 → (A → Type 0) → Outcome A → Type 0
Ends F Q (ok a) = Q a
Ends F Q (exited n) = n ≡ 1
Ends F Q fault = F
Ends F Q diverged = ⊥

pub Ends-bind {ℓ κ} :
    {A : Type ℓ} {B : Type κ} (F : Type 0) (Q : A → Type 0) (R : B → Type 0) (m : Outcome A)
    (f : A → Outcome B)
    → Ends F Q m
    → ((a : A) → Q a → Ends F R (f a))
    → Ends F R (m >>= f)
Ends-bind F Q R (ok a) f h k = k a h
Ends-bind F Q R (exited n) f h k = h
Ends-bind F Q R fault f h k = h
Ends-bind F Q R diverged f h k = absurd h

pub Ends-weaken {ℓ} :
    {A : Type ℓ} (F : Type 0) (Q R : A → Type 0) (m : Outcome A)
    → Ends F Q m
    → ((a : A) → Q a → R a)
    → Ends F R m
Ends-weaken F Q R (ok a) h k = k a h
Ends-weaken F Q R (exited n) h k = h
Ends-weaken F Q R fault h k = h
Ends-weaken F Q R diverged h k = absurd h

pub Ends-fault {ℓ} :
    {A : Type ℓ} (F G : Type 0) (Q : A → Type 0) (m : Outcome A) → (F → G) → Ends F Q m → Ends G Q m
Ends-fault F G Q (ok a) f h = h
Ends-fault F G Q (exited n) f h = h
Ends-fault F G Q fault f h = f h
Ends-fault F G Q diverged f h = absurd h

-- A step that cannot fault.
pub Ends-then {ℓ κ} :
    {A : Type ℓ} {B : Type κ} (F : Type 0) (Q : A → Type 0) (R : B → Type 0) (m : Outcome A)
    (f : A → Outcome B)
    → Ends ⊥ Q m
    → ((a : A) → Q a → Ends F R (f a))
    → Ends F R (m >>= f)
Ends-then F Q R m f h = Ends-bind F Q R m f (Ends-fault ⊥ F Q m (λ x. absurd x) h)

-- An outcome that is a value with a property.
abbrev pub Returns {ℓ} : {A : Type ℓ} → (A → Type 0) → Outcome A → Type 0
Returns Q (ok a) = Q a
Returns Q (exited n) = ⊥
Returns Q fault = ⊥
Returns Q diverged = ⊥

pub Returns-bind {ℓ κ} :
    {A : Type ℓ} {B : Type κ} (Q : A → Type 0) (R : B → Type 0) (m : Outcome A) (f : A → Outcome B)
    → Returns Q m
    → ((a : A) → Q a → Returns R (f a))
    → Returns R (m >>= f)
Returns-bind Q R (ok a) f h k = k a h
Returns-bind Q R (exited n) f h k = absurd h
Returns-bind Q R fault f h k = absurd h
Returns-bind Q R diverged f h k = absurd h

pub Returns-value {ℓ} :
    {A : Type ℓ} (Q : A → Type 0) (m : Outcome A) → Returns Q m → (a : A) × (m ≡ ok a) × Q a
Returns-value Q (ok a) h = (a, refl, h)
Returns-value Q (exited n) h = absurd h
Returns-value Q fault h = absurd h
Returns-value Q diverged h = absurd h
