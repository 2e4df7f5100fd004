-- ===== src/Common/Results.antt =====
-- A call that returns or raises.
use mathlib.Core.Path.{◌≡◌, refl, subst}
use mathlib.Core.Bool.{Bool, true, false}
use ai_pmo_copilot.Common.Tests.{if◌then◌else◌}
use mathlib.Core.Option.{Option, none, some}

pub data Result {ℓ κ} (E : Type ℓ) (A : Type κ) : Type (ℓ ⊔ κ) where
  ok : A → Result E A
  err : E → Result E A

infixl 5 ◌>>=◌ ◌>>◌
abbrev pub ◌>>=◌ {ℓ κ μ} :
    {E : Type ℓ} {A : Type κ} {B : Type μ} → Result E A → (A → Result E B) → Result E B
ok a >>= f = f a
err e >>= f = err e

abbrev pub ◌>>◌ {ℓ κ μ} :
    {E : Type ℓ} {A : Type κ} {B : Type μ} → Result E A → Result E B → Result E B
m >> k = m >>= λ _. k

abbrev pub or_raise {ℓ κ} : {E : Type ℓ} {A : Type κ} → E → Option A → Result E A
or_raise e none = err e
or_raise e (some a) = ok a

-- The call returns, and its result satisfies `P`.
abbrev pub Returns {ℓ κ} : {E : Type ℓ} {A : Type κ} → (A → Type 0) → Result E A → Type 0
Returns P (ok a) = P a
Returns P (err e) = ⊥

-- What holds of the result if the call returns.
abbrev pub Ensures {ℓ κ} : {E : Type ℓ} {A : Type κ} → (A → Type 0) → Result E A → Type 0
Ensures P (ok a) = P a
Ensures P (err e) = Unit

module _ {ℓ κ μ} {E : Type ℓ} {A : Type κ} {B : Type μ} (P : A → Type 0) (Q : B → Type 0) where
  pub Returns-bind :
      (m : Result E A) (f : A → Result E B)
      → Returns P m
      → ((a : A) → P a → Returns Q (f a))
      → Returns Q (m >>= f)
  Returns-bind (ok a) f p k = k a p
  Returns-bind (err e) f p k = elim p [ ]

module _ {ℓ κ} {E : Type ℓ} {A : Type κ} (P : A → Type 0) where
  pub Returns-ok : (m : Result E A) → Returns P m → (a : A) × (m ≡ ok a) × P a
  Returns-ok (ok a) p = (a, refl, p)
  Returns-ok (err e) p = elim p [ ]

module _ {ℓ κ μ} {E : Type ℓ} {A : Type κ} {B : Type μ} (Q : B → Type 0) where
  -- A step that may raise, with what the rest of the call may use of it.
  pub Ensures-or_raise :
      (e : E) (o : Option A) (f : A → Result E B)
      → ((a : A) → o ≡ some a → Ensures Q (f a))
      → Ensures Q (or_raise e o >>= f)
  Ensures-or_raise e none f h = tt
  Ensures-or_raise e (some a) f h = h a refl

module _ {ℓ μ} {E : Type ℓ} {B : Type μ} (Q : B → Type 0) where
  -- A guard that raises.
  pub Ensures-unless :
      (e : E) (b : Bool) (m : Result E B)
      → (b ≡ false → Ensures Q m)
      → Ensures Q (if b then err e else m)
  Ensures-unless e true m h = tt
  Ensures-unless e false m h = h refl

module _ {ℓ κ μ} {E : Type ℓ} {A : Type κ} {B : Type μ} (Q : B → Type 0) where
  pub Ensures-bind :
      (m : Result E A) (f : A → Result E B)
      → ((a : A) → m ≡ ok a → Ensures Q (f a))
      → Ensures Q (m >>= f)
  Ensures-bind (ok a) f h = h a refl
  Ensures-bind (err e) f h = tt

module _ {ℓ κ} {E : Type ℓ} {A : Type κ} (P : A → Type 0) where
  -- What is known of a call, at the result that it gave.
  pub Ensures-at : (m : Result E A) (a : A) → Ensures P m → m ≡ ok a → P a
  Ensures-at m a h e = subst (Ensures P) e h
