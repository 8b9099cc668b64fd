-- ===== src/Central/Matchmaking/Optimal/Choice.antt =====
-- What `compute_optimal_server` answers, against the costs of the servers.
use distributed_matchmaking.Base.{
  Result, ℕ, zero, suc, ◌<◌, max, ◌≡◌, ◌⊎◌, inl, inr, ◌↔◌, refl, sym, ap, ◌∙◌, List, [], ◌∷◌,
  Option, some, none, true, arith, All, Str, Map, lookup, member, Distinct, keys, member-keys,
  lookup-All, ok, err, length, get_elem?, str_eq_refl, Option-cases,
}
use distributed_matchmaking.Central.Matchmaking.Optimal.{
  MatchError, Floats, Minimum, no_server_found, visit, search_minimum, server_latency, minimized,
  pick_server, compute_optimal_server,
}
use distributed_matchmaking.Central.Matchmaking.Optimal.Latencies.{
  server_latency-Distinct, lookup-server_latency,
}
use distributed_matchmaking.Central.Matchmaking.Optimal.Search.{
  NoWorse, AtMost, step, best, Costs, best-AtMost_seen, best_kept, best_adds, best_empty,
}

get_elem?-member :
    (xs : List Str) (i : ℕ)
    → i < length xs
    → (s : Str) × (get_elem? xs i ≡ some s) × (member s xs ≡ true)
unfolding member
get_elem?-member [] i h = absurd (omega arith)
get_elem?-member (x ∷ xs) zero h = (x, refl, rw (str_eq_refl x))
get_elem?-member (x ∷ xs) (suc i) h =
    let (s, e, m) = get_elem?-member xs i (omega arith) in (s, e, ground arith)

head-cases : (xs : List Str) → (xs ≡ []) ⊎ ((s : Str) × (member s xs ≡ true))
unfolding member
head-cases [] = inl refl
head-cases (x ∷ xs) = inr (x, rw (str_eq_refl x))

pick_server_lem :
    (intn : ℕ → ℕ)
    → ((n : ℕ) → 0 < n → intn n < n)
    → (servers : List Str)
    → ((servers ≡ []) × (pick_server intn servers ≡ some (err no_server_found)))
      ⊎ ((s : Str) × (pick_server intn servers ≡ some (ok s)) × (member s servers ≡ true))
unfolding pick_server
pick_server_lem intn below [] = inl (refl, refl)
pick_server_lem intn below (x ∷ []) = inr (x, refl, unfold member in rw (str_eq_refl x))
pick_server_lem intn below (x ∷ y ∷ xs) =
    let n = length (x ∷ y ∷ xs) in
    let (s, e, m) = get_elem?-member (x ∷ y ∷ xs) (intn n) (below n (omega arith)) in
    inr (s, ground arith, m)

module _ (fl : Floats) (client1 client2 : Map (fl.F32)) where
  open fl use {F32, rank, combined, max_float64, rank-lt-max}

  -- The greater of the two delays and the combined delay, for a server that both measured.
  pub cost : Str → Option (ℕ × ℕ)
  cost s = elim (lookup s client1) [
    | none ↦ none
    | some x ↦ elim (lookup s client2) [
      | none ↦ none
      | some y ↦ some (max (rank x) (rank y), combined x y)
    ]
  ]

  pub record IsOptimal (s : Str) : Type 0 where
    pub latency : ℕ
    pub combined_latency : ℕ
    pub measured : cost s ≡ some (latency, combined_latency)
    pub least : (t : Str) (a b : ℕ) → cost t ≡ some (a, b) → NoWorse latency combined_latency a b

  abbrev Priced : Str → ℕ → Type 0
  Priced s latency = (a b : ℕ) → cost s ≡ some (a, b) → latency ≡ a

  visit-step :
      (m : Minimum) (s : Str) (latency : ℕ)
      → Priced s latency
      → visit fl client1 client2 m s latency ≡ step cost m s
  unfolding visit step cost
  visit-step m s latency h = elim (Option-cases (lookup s client1)) [
    | inl e ↦ rw (e, visit, step, cost)
    | inr (x, e) ↦ elim (Option-cases (lookup s client2)) [
      | inl f ↦ rw (e, f, visit, step, cost)
      | inr (y, f) ↦
          let l : latency ≡ max (rank x) (rank y) = h _ (combined x y) (rw (e, f, cost)) in
          rw (e, f, l, visit, step, cost)
    ]
  ]

  search_minimum-best :
      (m : Minimum) (entries : Map ℕ)
      → All (λ e. Priced e.0 e.1) entries
      → search_minimum fl client1 client2 m entries ≡ best cost m (keys entries)
  unfolding search_minimum best
  search_minimum-best m [] h = refl
  search_minimum-best m ((s, latency) ∷ entries) h =
      rw (visit-step m s latency h.0) (search_minimum-best (step cost m s) entries h.1)

  abbrev start : Minimum
  start = record {
    minimum_latency = max_float64;
    minimum_combined_latency = max_float64;
    minimized_latency_servers = [];
  }

  abbrev measured_by_both : List Str
  measured_by_both = keys (server_latency fl client1 client2)

  cost-lt-max : (s : Str) (a b : ℕ) → cost s ≡ some (a, b) → a < max_float64
  unfolding cost
  cost-lt-max s a b h = elim (Option-cases (lookup s client1)) [
    | inl e ↦ ground arith
    | inr (x, e) ↦ elim (Option-cases (lookup s client2)) [
      | inl f ↦ ground arith
      | inr (y, f) ↦ ground (arith, rank-lt-max x, rank-lt-max y)
    ]
  ]

  module _ (d1 : Distinct client1) (d2 : Distinct client2) where
    priced :
        (s : Str) (latency : ℕ)
        → lookup s (server_latency fl client1 client2) ≡ some latency
        → Priced s latency
    unfolding cost
    priced s latency h a b e = elim (Option-cases (lookup s client1)) [
      | inl p ↦ ground arith
      | inr (x, p) ↦ elim (Option-cases (lookup s client2)) [
        | inl q ↦ ground arith
        | inr (y, q) ↦ ground (arith, lookup-server_latency fl client1 client2 s x y d1 d2 p q)
      ]
    ]

    measured : (s : Str) (a b : ℕ) → cost s ≡ some (a, b) → member s measured_by_both ≡ true
    unfolding cost
    measured s a b e = elim (Option-cases (lookup s client1)) [
      | inl p ↦ ground arith
      | inr (x, p) ↦ elim (Option-cases (lookup s client2)) [
        | inl q ↦ ground arith
        | inr (y, q) ↦ member-keys s _ _ (lookup-server_latency fl client1 client2 s x y d1 d2 p q)
      ]
    ]

    minimized-best : minimized fl client1 client2 ≡ best cost start measured_by_both
    unfolding minimized
    minimized-best = search_minimum-best start (server_latency fl client1 client2) (
        lookup-All Priced (server_latency fl client1 client2)
          (server_latency-Distinct fl client1 client2) priced)

    abbrev found : Minimum
    found = best cost start measured_by_both

    kept-measured : (s : Str) → member s found.minimized_latency_servers ≡ true → Costs cost found s
    unfolding member
    kept-measured s h = ground (arith, best_kept cost start measured_by_both s h)

    least_found : (t : Str) (a b : ℕ) → cost t ≡ some (a, b) → AtMost found a b
    least_found t a b e = best-AtMost_seen cost start measured_by_both t a b (measured t a b e) e

    empty-unmeasured : found.minimized_latency_servers ≡ [] → (t : Str) → cost t ≡ none
    empty-unmeasured h t = elim (Option-cases (cost t)) [
      | inl e ↦ e
      | inr ((a, b), e) ↦
          let same = best_empty cost start measured_by_both h in
          let low : AtMost start a b = rw same at (least_found t a b e) in
          absurd (omega (arith, low, cost-lt-max t a b e))
    ]

    found-IsOptimal : (s : Str) → member s found.minimized_latency_servers ≡ true → IsOptimal s
    found-IsOptimal s h = record {
      latency = found.minimum_latency;
      combined_latency = found.minimum_combined_latency;
      measured = kept-measured s h;
      least = least_found;
    }

    IsOptimal-found : (s : Str) → IsOptimal s → member s found.minimized_latency_servers ≡ true
    IsOptimal-found s o = elim (head-cases found.minimized_latency_servers) [
      | inl e ↦ ground (arith, o.measured, empty-unmeasured e s)
      | inr (t, h) ↦
          let low = least_found s o.latency o.combined_latency o.measured in
          let high = o.least t _ _ (kept-measured t h) in
          let a : o.latency ≡ found.minimum_latency = omega arith in
          let b : o.combined_latency ≡ found.minimum_combined_latency = omega arith in
          best_adds cost start measured_by_both s (measured s _ _ o.measured)
            (ground (arith, o.measured))
    ]

    -- For delay lists without repeated servers, the candidates that the loops keep are exactly the
    -- servers that both clients measured and that no other such server beats on the greater of the
    -- two delays, ties broken by the combined delay.
    pub minimized_iff :
        (s : Str)
        → (member s (minimized fl client1 client2).minimized_latency_servers ≡ true) ↔ IsOptimal s
    minimized_iff s = rw minimized-best (found-IsOptimal s, IsOptimal-found s)

    -- For delay lists without repeated servers and a random index below its bound, the function
    -- never panics: it reports an error exactly when no server was measured by both clients, and
    -- otherwise answers a server whose greater delay, ties broken by the combined delay, no server
    -- measured by both beats.
    pub compute_optimal_server_lem :
        (intn : ℕ → ℕ)
        → ((n : ℕ) → 0 < n → intn n < n)
        → (((s : Str) → cost s ≡ none)
            × (compute_optimal_server fl client1 client2 intn ≡ some (err no_server_found)))
          ⊎ ((s : Str) × (compute_optimal_server fl client1 client2 intn ≡ some (ok s))
              × IsOptimal s)
    compute_optimal_server_lem intn below = elim (pick_server_lem intn below servers) [
      | inl (none_kept, e) ↦ inl (
        empty-unmeasured (ap (λ m. m.minimized_latency_servers) (sym minimized-best) ∙ none_kept),
        rw compute-pick e,
      )
      | inr (s, e, h) ↦ inr (s, rw compute-pick e, (minimized_iff s).0 h)
    ]
      where
        servers : List Str
        servers = (minimized fl client1 client2).minimized_latency_servers

        compute-pick : compute_optimal_server fl client1 client2 intn ≡ pick_server intn servers
        compute-pick = unfold compute_optimal_server in refl

-- Whatever the delay lists, a random index below its bound leaves no panic.
pub some_choice :
    (fl : Floats) (client1 client2 : Map (fl.F32)) (intn : ℕ → ℕ)
    → ((n : ℕ) → 0 < n → intn n < n)
    → (result : Result MatchError Str) × (compute_optimal_server fl client1 client2 intn
        ≡ some result)
some_choice fl client1 client2 intn below =
    let servers = (minimized fl client1 client2).minimized_latency_servers in
    let picks : compute_optimal_server fl client1 client2 intn ≡ pick_server intn servers =
      unfold compute_optimal_server in refl in
    elim (pick_server_lem intn below servers) [
      | inl (_, e) ↦ (err no_server_found, picks ∙ e)
      | inr (server, e, _) ↦ (ok server, picks ∙ e)
    ]
