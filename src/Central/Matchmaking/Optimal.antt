-- ===== src/Central/Matchmaking/Optimal.antt =====
-- `compute_optimal_server` of Central/internal/matchmaking/matchmaking.go.
-- A float64 stands for its place in the order of the float64 values, which is all that the
-- function reads of it; `Floats` gives the places, and `intn` is `r.Intn`.
pub mod Latencies
pub mod Search
pub mod Choice
use distributed_matchmaking.Base.{
  ℕ, ◌<◌, max, List, [], ◌∷◌, ◌++◌, Option, some, none, ◌&&◌, ◌==◌, ltb, if◌then◌else◌, Str, Map,
  lookup, insert, Result, ok, err, length, get_elem?,
}

-- The finite float32 values that a delay list holds. None of them reaches `math.MaxFloat64`.
pub record Floats : Type 1 where
  pub F32 : Type 0
  -- The place of `float64(x)`.
  pub rank : F32 → ℕ
  -- The place of `float64(x + y)`, the sum being one of float32 values.
  pub combined : F32 → F32 → ℕ
  pub zero_rank : ℕ
  pub max_float64 : ℕ
  pub rank-lt-max : (x : F32) → rank x < max_float64

pub data MatchError : Type 0 where
  no_server_found : MatchError

-- The variables of the third loop.
pub record Minimum : Type 0 where
  pub minimum_latency : ℕ
  pub minimum_combined_latency : ℕ
  pub minimized_latency_servers : List Str

abbrev pub or_default : ℕ → Option ℕ → ℕ
or_default d none = d
or_default d (some n) = n

-- The body of the third loop, past its two `continue`s.
unfoldable pub consider : Str → ℕ → ℕ → Minimum → Minimum
consider server latency combined_latency m =
    if ltb latency m.minimum_latency
    then record {
      minimum_latency = latency;
      minimum_combined_latency = combined_latency;
      minimized_latency_servers = server ∷ [];
    }
    else if latency == m.minimum_latency && ltb combined_latency m.minimum_combined_latency
    then record m {
      minimum_combined_latency = combined_latency;
      minimized_latency_servers = server ∷ [];
    }
    else if latency == m.minimum_latency && combined_latency == m.minimum_combined_latency
    then record m { minimized_latency_servers = m.minimized_latency_servers ++ server ∷ [] }
    else m

-- `none` is the panic of an index out of range.
unfoldable pub pick_server : (ℕ → ℕ) → List Str → Option (Result MatchError Str)
pick_server intn servers =
    if length servers == 0
    then some (err no_server_found)
    else let index = if length servers == 1 then 0 else intn (length servers) in
      elim (get_elem? servers index) [ none ↦ none | some server ↦ some (ok server) ]

module _ (fl : Floats) where
  open fl use {F32, rank, combined, zero_rank, max_float64}

  -- `serverLatency[server] = float64(latency)`, over the first client's list.
  unfoldable pub record_first : Map ℕ → Map F32 → Map ℕ
  record_first latencies [] = latencies
  record_first latencies ((server, latency) ∷ client1) =
      record_first (insert server (rank latency) latencies) client1

  -- `serverLatency[server] = math.Max(serverLatency[server], float64(latency))`, over the second's.
  unfoldable pub record_second : Map ℕ → Map F32 → Map ℕ
  record_second latencies [] = latencies
  record_second latencies ((server, latency) ∷ client2) =
      record_second
        (insert server (max (or_default zero_rank (lookup server latencies)) (rank latency))
          latencies)
        client2

  module _ (client1 client2 : Map F32) where
    unfoldable pub visit : Minimum → Str → ℕ → Minimum
    unfolding consider
    visit m server latency = elim (lookup server client1) [
      | none ↦ m
      | some x ↦ elim (lookup server client2) [
        | none ↦ m
        | some y ↦ consider server latency (combined x y) m
      ]
    ]

    unfoldable pub search_minimum : Minimum → Map ℕ → Minimum
    search_minimum m [] = m
    search_minimum m ((server, latency) ∷ latencies) =
        search_minimum (visit m server latency) latencies

    unfoldable pub server_latency : Map ℕ
    unfolding record_first record_second
    server_latency = record_second (record_first [] client1) client2

    unfoldable pub minimized : Minimum
    unfolding search_minimum visit server_latency
    minimized =
        search_minimum
          (record {
            minimum_latency = max_float64;
            minimum_combined_latency = max_float64;
            minimized_latency_servers = [];
          })
          server_latency

    unfoldable pub compute_optimal_server : (ℕ → ℕ) → Option (Result MatchError Str)
    unfolding minimized pick_server
    compute_optimal_server intn = pick_server intn minimized.minimized_latency_servers
