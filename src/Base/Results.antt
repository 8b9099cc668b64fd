-- ===== src/Base/Results.antt =====
-- Go's pair of a value and an error: one or the other.
pub data Result {ℓ κ} (E : Type ℓ) (A : Type κ) : Type (ℓ ⊔ κ) where
  ok : A → Result E A
  err : E → Result E A

module _ {ℓ κ} {E : Type ℓ} {A B : Type κ} where
  -- What follows a call that has returned a value.
  abbrev pub and_then : (A → Result E B) → Result E A → Result E B
  and_then f (ok a) = f a
  and_then f (err e) = err e
