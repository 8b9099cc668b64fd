-- ===== src/Central/Matchmaking/Optimal/Latencies.antt =====
-- The map that the first two loops build.
use distributed_matchmaking.Base.{
  ℕ, max, ◌≡◌, refl, [], ◌∷◌, some, none, arith, Str, Map, lookup, insert, str_eq_iff,
  lookup-insert, Distinct, insert-Distinct,
}
use distributed_matchmaking.Central.Matchmaking.Optimal.{
  Floats, or_default, record_first, record_second, server_latency,
}

module _ (fl : Floats) where
  open fl use {F32, rank, zero_rank}

  lookup-record_first :
      (m : Map ℕ) (c : Map F32) (s : Str)
      → Distinct c
      → lookup s (record_first fl m c)
        ≡ elim (lookup s c) [ none ↦ lookup s m | some x ↦ some (rank x) ]
  unfolding lookup record_first
  lookup-record_first m [] s d = refl
  lookup-record_first m ((k, x) ∷ c) s d = ground (
    arith,
    str_eq_iff k s,
    lookup-record_first (insert k (rank x) m) c s d.1,
    lookup-insert k s (rank x) m,
  )

  lookup-record_second :
      (m : Map ℕ) (c : Map F32) (s : Str)
      → Distinct c
      → lookup s (record_second fl m c) ≡ elim (lookup s c) [
        | none ↦ lookup s m
        | some x ↦ some (max (or_default zero_rank (lookup s m)) (rank x))
      ]
  unfolding lookup record_second
  lookup-record_second m [] s d = refl
  lookup-record_second m ((k, x) ∷ c) s d =
      let v = max (or_default zero_rank (lookup k m)) (rank x) in
      ground
        (arith, str_eq_iff k s, lookup-record_second (insert k v m) c s d.1, lookup-insert k s v m)

  record_first-Distinct : (m : Map ℕ) (c : Map F32) → Distinct m → Distinct (record_first fl m c)
  unfolding record_first
  record_first-Distinct m [] d = d
  record_first-Distinct m ((k, x) ∷ c) d =
      record_first-Distinct (insert k (rank x) m) c (insert-Distinct k (rank x) m d)

  record_second-Distinct : (m : Map ℕ) (c : Map F32) → Distinct m → Distinct (record_second fl m c)
  unfolding record_second
  record_second-Distinct m [] d = d
  record_second-Distinct m ((k, x) ∷ c) d =
      let v = max (or_default zero_rank (lookup k m)) (rank x) in
      record_second-Distinct (insert k v m) c (insert-Distinct k v m d)

  module _ (client1 client2 : Map F32) where
    pub server_latency-Distinct : Distinct (server_latency fl client1 client2)
    unfolding server_latency
    server_latency-Distinct = record_second-Distinct _ client2 (record_first-Distinct [] client1 tt)

    -- For a server that both clients measured, it is the greater of their two delays.
    pub lookup-server_latency :
        (s : Str) (x y : F32)
        → Distinct client1
        → Distinct client2
        → lookup s client1 ≡ some x
        → lookup s client2 ≡ some y
        → lookup s (server_latency fl client1 client2) ≡ some (max (rank x) (rank y))
    unfolding server_latency
    lookup-server_latency s x y d1 d2 hx hy = ground (
      arith,
      lookup-record_second (record_first fl [] client1) client2 s d2,
      lookup-record_first [] client1 s d1,
    )
