-- ===== src/Prelude/Branch.antt =====
-- Case analysis as functions, with the rules by which proofs go under them, and statements about
-- the results of loops that may run out of fuel.
use mathlib.Core.Option.{Option, none, some}

-- `n if o is None else f(o)`
abbrev pub match_option {ℓ κ} : {A : Type ℓ} {B : Type κ} → Option A → B → (A → B) → B
match_option none n f = n
match_option (some a) n f = f a

-- If the loop returned (`none` is fuel that ran out), its result satisfies `Q`.
abbrev pub Ends {ℓ κ} : {A : Type ℓ} → (A → Type κ) → Option A → Type κ
Ends Q none = Unit
Ends Q (some a) = Q a

-- The loop returned, and its result satisfies `Q`.
abbrev pub Returns {ℓ} : {A : Type ℓ} → (A → Type 0) → Option A → Type 0
Returns Q none = ⊥
Returns Q (some a) = Q a

-- A loop that returned has what holds of it if it returns.
pub Ends-Returns {ℓ} :
    {A : Type ℓ} (R : A → Type 0) (o : Option A) → Returns (λ _. Unit) o → Ends R o → Returns R o
Ends-Returns R none r e = r
Ends-Returns R (some a) r e = e

pub Returns-bind {ℓ κ} :
    {A : Type ℓ} {B : Type κ} (Q : A → Type 0) (R : B → Type 0) (o : Option A) (f : A → Option B)
    → Returns Q o
    → ((a : A) → Q a → Returns R (f a))
    → Returns R (match_option o none f)
Returns-bind Q R none f q k = q
Returns-bind Q R (some a) f q k = k a q
