-- ===== src/Base/Results.antt =====
-- What holds of a result wherever there is one.
use mathlib.Core.Path.{◌≡◌, refl, subst}
use mathlib.Core.Bool.{Bool, true, false}
use mathlib.Core.Option.{Option, none, some}
use udpspeeder.Base.Tests.{◌>>=◌, if◌then◌else◌}

abbrev pub Returns {ℓ κ} : {A : Type ℓ} → (A → Type κ) → Option A → Type κ
Returns P none = Unit
Returns P (some a) = P a

pub Returns-some {ℓ κ} :
    {A : Type ℓ} (P : A → Type κ) (o : Option A) (a : A) → Returns P o → o ≡ some a → P a
Returns-some P o a r e = subst (Returns P) e r

pub Returns-bind {ℓ ℓ' κ κ'} :
    {A : Type ℓ} {B : Type ℓ'} (P : A → Type κ) (Q : B → Type κ') (o : Option A) (f : A → Option B)
    → Returns P o
    → ((a : A) → P a → Returns Q (f a))
    → Returns Q (o >>= f)
Returns-bind P Q none f r k = tt
Returns-bind P Q (some a) f r k = k a r

-- Where nothing has to be known of what was bound.
pub Returns-after {ℓ ℓ' κ} :
    {A : Type ℓ} {B : Type ℓ'} (Q : B → Type κ) (o : Option A) (f : A → Option B)
    → ((a : A) → Returns Q (f a))
    → Returns Q (o >>= f)
Returns-after Q none f k = tt
Returns-after Q (some a) f k = k a

pub Returns-if {ℓ κ} :
    {A : Type ℓ} (P : A → Type κ) (b : Bool) (x y : Option A)
    → Returns P x
    → Returns P y
    → Returns P (if b then x else y)
Returns-if P true x y r s = r
Returns-if P false x y r s = s

-- A result is what was computed.
pub Returns-self {ℓ} : {A : Type ℓ} (o : Option A) → Returns (λ a. o ≡ some a) o
Returns-self none = tt
Returns-self (some a) = refl
