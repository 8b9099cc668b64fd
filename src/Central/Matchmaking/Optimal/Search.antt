-- ===== src/Central/Matchmaking/Optimal/Search.antt =====
-- The third loop, as a search over servers with a cost: which servers it keeps.
use distributed_matchmaking.Base.{
  ℕ, ◌≤◌, ◌<◌, ◌≡◌, ◌⊎◌, refl, List, [], ◌∷◌, ◌++◌, Option, some, none, true, ◌||◌, arith, Str,
  str_eq_iff, member,
}
use distributed_matchmaking.Central.Matchmaking.Optimal.{Minimum, consider}

-- Costs are compared by the latency first and by the combined latency next.
abbrev pub NoWorse : ℕ → ℕ → ℕ → ℕ → Type 0
NoWorse a b c d = (a < c) ⊎ ((a ≡ c) × (b ≤ d))

abbrev pub AtMost : Minimum → ℕ → ℕ → Type 0
AtMost m a b = NoWorse m.minimum_latency m.minimum_combined_latency a b

NoWorse-trans : (a b c d e f : ℕ) → NoWorse a b c d → NoWorse c d e f → NoWorse a b e f
NoWorse-trans a b c d e f h k = ground arith

member-append : (s : Str) (xs ys : List Str) → member s (xs ++ ys) ≡ (member s xs || member s ys)
unfolding member
member-append s [] ys = refl
member-append s (x ∷ xs) ys = ground (arith, member-append s xs ys)

module _ (cost : Str → Option (ℕ × ℕ)) where
  unfoldable pub step : Minimum → Str → Minimum
  step m s = elim (cost s) [ none ↦ m | some (a, b) ↦ consider s a b m ]

  unfoldable pub best : Minimum → List Str → Minimum
  best m [] = m
  best m (s ∷ ss) = best (step m s) ss

  -- `s` is kept by `m` at the cost of `r`.
  abbrev pub Keeps : Minimum → Minimum → Str → Type 0
  Keeps m r s =
      (member s m.minimized_latency_servers ≡ true)
      × (m.minimum_latency ≡ r.minimum_latency)
      × (m.minimum_combined_latency ≡ r.minimum_combined_latency)

  abbrev pub Costs : Minimum → Str → Type 0
  Costs r s = cost s ≡ some (r.minimum_latency, r.minimum_combined_latency)

  step-AtMost :
      (m : Minimum) (s : Str) → AtMost (step m s) m.minimum_latency m.minimum_combined_latency
  unfolding step consider
  step-AtMost m s = ground arith

  step-AtMost_self :
      (m : Minimum) (s : Str) (a b : ℕ) → cost s ≡ some (a, b) → AtMost (step m s) a b
  unfolding step consider
  step-AtMost_self m s a b h = ground arith

  step_kept :
      (m : Minimum) (s t : Str)
      → member t (step m s).minimized_latency_servers ≡ true
      → Keeps m (step m s) t ⊎ ((t ≡ s) × Costs (step m s) s)
  unfolding step consider member
  step_kept m s t h =
      ground (arith, str_eq_iff s t, member-append t m.minimized_latency_servers (s ∷ []))

  step-Keeps :
      (m : Minimum) (s t : Str)
      → Keeps m (step m s) t
      → member t (step m s).minimized_latency_servers ≡ true
  unfolding step consider member
  step-Keeps m s t h =
      ground (arith, str_eq_iff s t, member-append t m.minimized_latency_servers (s ∷ []))

  step_adds :
      (m : Minimum) (s : Str)
      → Costs (step m s) s
      → member s (step m s).minimized_latency_servers ≡ true
  unfolding step consider member
  step_adds m s h =
      ground (arith, str_eq_iff s s, member-append s m.minimized_latency_servers (s ∷ []))

  step_empty :
      (m : Minimum) (s : Str)
      → (step m s).minimized_latency_servers ≡ []
      → (step m s ≡ m) × (m.minimized_latency_servers ≡ [])
  unfolding step consider
  step_empty m s h = ground arith

  best-AtMost :
      (m : Minimum) (ss : List Str)
      → AtMost (best m ss) m.minimum_latency m.minimum_combined_latency
  unfolding best
  best-AtMost m [] = omega arith
  best-AtMost m (s ∷ ss) = ground (arith, best-AtMost (step m s) ss, step-AtMost m s)

  -- Nothing that was seen costs less than what is kept.
  pub best-AtMost_seen :
      (m : Minimum) (ss : List Str) (s : Str) (a b : ℕ)
      → member s ss ≡ true
      → cost s ≡ some (a, b)
      → AtMost (best m ss) a b
  unfolding best member
  best-AtMost_seen m [] s a b h e = ground arith
  best-AtMost_seen m (t ∷ ss) s a b h e = ground (
    arith,
    str_eq_iff t s,
    best-AtMost (step m t) ss,
    step-AtMost_self m t a b,
    best-AtMost_seen (step m t) ss s a b,
  )

  -- What is kept was kept before, or was seen at the cost of the minimum.
  pub best_kept :
      (m : Minimum) (ss : List Str) (t : Str)
      → member t (best m ss).minimized_latency_servers ≡ true
      → Keeps m (best m ss) t ⊎ ((member t ss ≡ true) × Costs (best m ss) t)
  unfolding best member
  best_kept m [] t h = ground arith
  best_kept m (s ∷ ss) t h = ground (
    arith,
    str_eq_iff s t,
    best_kept (step m s) ss t h,
    step_kept m s t,
    best-AtMost (step m s) ss,
    step-AtMost m s,
  )

  best-Keeps :
      (m : Minimum) (ss : List Str) (t : Str)
      → Keeps m (best m ss) t
      → member t (best m ss).minimized_latency_servers ≡ true
  unfolding best
  best-Keeps m [] t h = h.0
  best-Keeps m (s ∷ ss) t h = ground (
    arith,
    best-Keeps (step m s) ss t,
    step-Keeps m s t,
    best-AtMost (step m s) ss,
    step-AtMost m s,
  )

  -- All that was seen at the cost of the minimum is kept.
  pub best_adds :
      (m : Minimum) (ss : List Str) (t : Str)
      → member t ss ≡ true
      → Costs (best m ss) t
      → member t (best m ss).minimized_latency_servers ≡ true
  unfolding best member
  best_adds m [] t h e = ground arith
  best_adds m (s ∷ ss) t h e = ground (
    arith,
    str_eq_iff s t,
    best_adds (step m s) ss t,
    best-Keeps (step m s) ss t,
    step_adds m t,
    best-AtMost (step m s) ss,
    step-AtMost_self m t (best (step m s) ss).minimum_latency
        (best (step m s) ss).minimum_combined_latency,
  )

  -- If nothing is kept then nothing had a cost below the initial minimum.
  pub best_empty :
      (m : Minimum) (ss : List Str) → (best m ss).minimized_latency_servers ≡ [] → best m ss ≡ m
  unfolding best
  best_empty m [] h = refl
  best_empty m (s ∷ ss) h = ground (arith, best_empty (step m s) ss h, step_empty m s)
