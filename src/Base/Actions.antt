-- ===== src/Base/Actions.antt =====
-- Methods that change an object, return a value or an error, and may panic.
use mathlib.Core.Bool.{Bool, true, false}
use mathlib.Core.Path.{◌≡◌, ap}
use mathlib.Core.Option.{Option, none, some}

pub data Outcome {ℓ κ} (E : Type ℓ) (A : Type κ) : Type (ℓ ⊔ κ) where
  value : A → Outcome E A
  error : E → Outcome E A
  panic : Outcome E A

-- The object's state after an error is what the method had made of it.
abbrev pub Action : Type 0 → Type 0 → Type 0 → Type 0
Action S E A = S → Outcome E A × S

module _ {S E : Type 0} where
  abbrev pub pure : {A : Type 0} → A → Action S E A
  pure a s = (value a, s)

  abbrev pub fail : {A : Type 0} → E → Action S E A
  fail e s = (error e, s)

  abbrev pub crash : {A : Type 0} → Action S E A
  crash s = (panic, s)

  -- `after` runs the rest on what a call left.
  abbrev pub after : {A B : Type 0} → (A → Action S E B) → Outcome E A → S → Outcome E B × S
  after f (value a) s = f a s
  after f (error e) s = (error e, s)
  after f panic s = (panic, s)

  infixl 5 ◌>>=◌ ◌>>◌
  abbrev pub ◌>>=◌ : {A B : Type 0} → Action S E A → (A → Action S E B) → Action S E B
  ◌>>=◌ m f s = after f (m s).0 (m s).1

  abbrev pub ◌>>◌ : {A B : Type 0} → Action S E A → Action S E B → Action S E B
  m >> k = m >>= λ _. k

  -- `if !test { return e }`
  abbrev pub check : Bool → E → Action S E (Unit {0})
  check true e s = (value tt, s)
  check false e s = (error e, s)

  abbrev pub or_fail : {A : Type 0} → E → Option A → Action S E A
  or_fail e none s = (error e, s)
  or_fail e (some a) s = (value a, s)

  -- An index or a slice expression: out of range it panics.
  abbrev pub or_panic : {A : Type 0} → Option A → Action S E A
  or_panic none s = (panic, s)
  or_panic (some a) s = (value a, s)

  abbrev pub get_state : Action S E S
  get_state s = (value s, s)

  abbrev pub modify : (S → S) → Action S E (Unit {0})
  modify f s = (value tt, f s)

  -- Steps of a proof that runs an action: a call that returns, and one that fails.
  pub bind-value :
      {A B : Type 0} (m : Action S E A) (f : A → Action S E B) {s t : S} {a : A}
      → m s ≡ (value a, t)
      → (m >>= f) s ≡ f a t
  bind-value m f e = ap (λ r. after f r.0 r.1) e

  pub bind-error :
      {A B : Type 0} (m : Action S E A) (f : A → Action S E B) {s t : S} {x : E}
      → m s ≡ (error x, t)
      → (m >>= f) s ≡ (error x, t)
  bind-error m f e = ap (λ r. after f r.0 r.1) e
