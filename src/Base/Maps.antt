-- ===== src/Base/Maps.antt =====
-- A Go map with string keys: an association list whose order is the order in which `range`
-- visits the entries. Go leaves that order open.
use mathlib.Core.Bool.{true}
use mathlib.Core.List.{List, [], ◌∷◌, map}
use mathlib.Core.Option.{Option, none, some}
use mathlib.Core.Path.{◌≡◌, refl}
use native.Mathlib.Omega.{arith}
use distributed_matchmaking.Base.Lists.{All}
use distributed_matchmaking.Base.Tests.{if◌then◌else◌}
use distributed_matchmaking.Base.Text.{Str, str_eq, str_eq_iff, str_eq_refl, member}

abbrev pub Map {ℓ} : Type ℓ → Type ℓ
Map V = List (Str × V)

module _ {ℓ} {V : Type ℓ} where
  unfoldable pub lookup : Str → Map V → Option V
  lookup k [] = none
  lookup k ((key, value) ∷ rest) = if str_eq key k then some value else lookup k rest

  -- `m[k] = v`
  unfoldable pub insert : Str → V → Map V → Map V
  insert k v [] = (k, v) ∷ []
  insert k v ((key, value) ∷ rest) =
      if str_eq key k then (key, v) ∷ rest else (key, value) ∷ insert k v rest

  -- `delete(m, k)`
  unfoldable pub delete : Str → Map V → Map V
  delete k [] = []
  delete k ((j, w) ∷ m) = let rest = delete k m in if str_eq j k then rest else (j, w) ∷ rest

  pub lookup-insert :
      (k j : Str) (v : V) (m : Map V)
      → lookup j (insert k v m) ≡ (if str_eq k j then some v else lookup j m)
  unfolding lookup insert
  lookup-insert k j v [] = refl
  lookup-insert k j v ((i, w) ∷ m) =
      ground (arith, str_eq_iff k j, str_eq_iff i k, str_eq_iff i j, lookup-insert k j v m)

  pub lookup-delete :
      (k j : Str) (m : Map V) → lookup j (delete k m) ≡ (if str_eq k j then none else lookup j m)
  unfolding lookup delete
  lookup-delete k j [] = ground arith
  lookup-delete k j ((i, w) ∷ m) =
      ground (arith, str_eq_iff k j, str_eq_iff i k, str_eq_iff i j, lookup-delete k j m)

  -- No key occurs twice, as in every Go map.
  abbrev pub Distinct : Map V → Type ℓ
  Distinct [] = Unit {ℓ}
  Distinct ((k, v) ∷ m) = (lookup k m ≡ none) × Distinct m

  pub insert-Distinct : (k : Str) (v : V) (m : Map V) → Distinct m → Distinct (insert k v m)
  unfolding lookup insert
  insert-Distinct k v [] d = (refl, tt)
  insert-Distinct k v ((j, w) ∷ m) d =
      ground
        (arith, insert-Distinct k v m d.1, lookup-insert k j v m, str_eq_iff k j, str_eq_iff j k)

  pub delete-Distinct : (k : Str) (m : Map V) → Distinct m → Distinct (delete k m)
  unfolding lookup delete
  delete-Distinct k [] d = tt
  delete-Distinct k ((j, w) ∷ m) d =
      ground (arith, delete-Distinct k m d.1, lookup-delete k j m, str_eq_iff k j, str_eq_iff j k)

  abbrev pub keys : Map V → List Str
  keys = map (λ e. e.0)

  pub member-keys : (k : Str) (v : V) (m : Map V) → lookup k m ≡ some v → member k (keys m) ≡ true
  unfolding lookup member
  member-keys k v [] h = ground arith
  member-keys k v ((j, w) ∷ m) h = ground (arith, member-keys k v m)

  -- What holds of every value that can be looked up holds of every entry.
  pub lookup-All {κ} :
      (P : Str → V → Type κ) (m : Map V)
      → Distinct m
      → ((k : Str) (v : V) → lookup k m ≡ some v → P k v)
      → All (λ e. P e.0 e.1) m
  unfolding lookup
  lookup-All P [] d h = tt
  lookup-All P ((j, w) ∷ m) d h = (
    h j w (rw (str_eq_refl j)),
    lookup-All P m d.1 (λ k v e. h k v (ground (arith, str_eq_iff j k))),
  )
