-- ===== src/Central/Tests/Optimal.antt =====
-- `compute_optimal_server` at concrete delay lists.
use distributed_matchmaking.Base.{
  ℕ, ◌+◌, ◌%◌, ◌≡◌, ◌⊎◌, ◌↔◌, refl, [], ◌∷◌, some, none, true, arith, Str, bytes, str_eq, Map,
  lookup, insert, member, Distinct, ok, err,
}
use distributed_matchmaking.Central.Matchmaking.Optimal.{
  Floats, no_server_found, minimized, compute_optimal_server,
}
use distributed_matchmaking.Central.Matchmaking.Optimal.Choice.{
  cost, IsOptimal, minimized_iff, compute_optimal_server_lem,
}

-- Delays in whole milliseconds below a second.
abbrev pub millis : Floats
millis = record {
  F32 = ℕ;
  rank = λ x. x % 1000;
  combined = λ x y. x + y;
  zero_rank = 0;
  max_float64 = 1000;
  rank-lt-max = λ x. omega arith;
}

abbrev pub s1 : Str
s1 = bytes "s1"

abbrev s2 : Str
s2 = bytes "s2"

abbrev pub near : Map ℕ
near = (s1, 10) ∷ (s2, 30) ∷ []

abbrev pub far : Map ℕ
far = (s2, 20) ∷ (s1, 30) ∷ []

near-Distinct : Distinct near
unfolding lookup str_eq
near-Distinct = (refl, (refl, tt))

far-Distinct : Distinct far
unfolding lookup str_eq
far-Distinct = (refl, (refl, tt))

-- Both servers cost 30; the combined delay decides.
picks_s1 : compute_optimal_server millis near far (λ n. 0) ≡ some (ok s1)
unfolding compute_optimal_server lookup insert str_eq
picks_s1 = refl

minimized_iff_example :
    (member s1 (minimized millis near far).minimized_latency_servers ≡ true)
    ↔ IsOptimal millis near far s1
minimized_iff_example = minimized_iff millis near far near-Distinct far-Distinct s1

compute_optimal_server_lem_example :
    (((s : Str) → cost millis near far s ≡ none)
      × (compute_optimal_server millis near far (λ n. 0) ≡ some (err no_server_found)))
    ⊎ ((s : Str) × (compute_optimal_server millis near far (λ n. 0) ≡ some (ok s))
        × IsOptimal millis near far s)
compute_optimal_server_lem_example =
    compute_optimal_server_lem millis near far near-Distinct far-Distinct (λ n. 0) (λ n h. h)
