-- ===== src/Central/ServiceStore/Liveness.antt =====
-- Which servers `Read` reports, and how the other operations change that.
use distributed_matchmaking.Base.{
  ℕ, ◌+◌, ◌-◌, ◌≤◌, ◌≡◌, ◌⊎◌, inl, inr, refl, [], ◌∷◌, Option, some, none, Bool, true, false, leb,
  if◌then◌else◌, arith, Str, str_eq, str_eq_iff, str_eq_refl, lookup, member, lookup-insert,
  Distinct, insert-Distinct, ok, err, Option-cases,
}
use distributed_matchmaking.Central.ServiceStore.{
  ServiceHeartbeat, ServiceStore, ip_not_found, heartbeat_window, create, read, has_key,
  delete_service, patch,
}

-- Up to ten seconds after its last heartbeat a server counts as up.
abbrev pub is_up : ℕ → Option ServiceHeartbeat → Bool
is_up now none = false
is_up now (some heartbeat) = leb (now - heartbeat.last_heartbeat) heartbeat_window

read_absent :
    (s : ServiceStore) (now : ℕ) (ip : Str) → lookup ip s ≡ none → member ip (read s now) ≡ false
unfolding lookup member read
read_absent [] now ip h = refl
read_absent ((k, heartbeat) ∷ s) now ip h = ground (arith, read_absent s now ip)

-- A server is reported exactly when it has an entry whose last heartbeat is at most ten seconds
-- old, whatever the order of the map.
pub member-read :
    (s : ServiceStore) (now : ℕ) (ip : Str)
    → Distinct s
    → member ip (read s now) ≡ is_up now (lookup ip s)
unfolding lookup member read
member-read [] now ip d = refl
member-read ((k, heartbeat) ∷ s) now ip d =
    ground (arith, str_eq_iff k ip, read_absent s now ip, member-read s now ip d.1)

pub has_key-lookup :
    (s : ServiceStore) (ip : Str)
    → has_key ip s ≡ elim (lookup ip s) [ none ↦ false | some _ ↦ true ]
unfolding has_key lookup
has_key-lookup [] ip = refl
has_key-lookup ((k, _) ∷ s) ip = ground (arith, has_key-lookup s ip)

-- A heartbeat written at `at` for `ip`: the server is up for ten seconds, the others are as before.
beat-read :
    (s : ServiceStore) (at now : ℕ) (ip other : Str)
    → Distinct s
    → member other (read (create s at ip) now)
      ≡ (if str_eq ip other then leb (now - at) heartbeat_window else member other (read s now))
unfolding create
beat-read s at now ip other d = ground (
  arith,
  member-read (create s at ip) now other (insert-Distinct ip _ s d),
  member-read s now other d,
  lookup-insert ip other (record { last_heartbeat = at }) s,
)

pub create-Distinct :
    (s : ServiceStore) (at : ℕ) (ip : Str) → Distinct s → Distinct (create s at ip)
unfolding create
create-Distinct s at ip d = insert-Distinct ip _ s d

-- What a heartbeat at time `at` does: no entry, then an error and no change; else `ip` is up for
-- the next ten seconds and every other server is as it was.
abbrev pub Beats : ServiceStore → ℕ → Str → ServiceStore → Type 0
Beats s at ip s' =
    (other : Str) (now : ℕ)
    → member other (read s' now)
      ≡ (if str_eq ip other then leb (now - at) heartbeat_window else member other (read s now))

-- A heartbeat from a server with no entry is an error and changes nothing; from a registered one
-- it succeeds, and then that server is reported for exactly the next ten seconds while every other
-- server is reported as before.
pub patch_lem :
    (s : ServiceStore) (at : ℕ) (ip : Str)
    → Distinct s
    → ((lookup ip s ≡ none) × (patch s at ip ≡ (s, err (ip_not_found ip))))
      ⊎ ((heartbeat : ServiceHeartbeat) × (lookup ip s ≡ some heartbeat)
          × ((patch s at ip).1 ≡ ok ip)
          × Distinct (patch s at ip).0
          × Beats s at ip (patch s at ip).0)
unfolding patch create
patch_lem s at ip d = elim (Option-cases (lookup ip s)) [
  | inl e ↦ inl (e, ground (arith, has_key-lookup s ip))
  | inr (h, e) ↦
      let found : has_key ip s ≡ true = ground (arith, has_key-lookup s ip) in
      inr (
        h,
        e,
        rw (found, patch),
        rw (found, patch) (insert-Distinct ip _ s d),
        λ other now. rw (found, patch) (beat-read s at now ip other d),
      )
]

-- A server that was just deleted without error is still reported as up for the next ten seconds.
pub delete_service_up :
    (s : ServiceStore) (at now : ℕ) (ip : Str)
    → Distinct s
    → (delete_service s at ip).1 ≡ ok tt
    → now ≤ at + heartbeat_window
    → member ip (read (delete_service s at ip).0 now) ≡ true
unfolding delete_service create
delete_service_up s at now ip d done soon =
    ground (arith, beat-read s at now ip ip d, str_eq_refl ip)
