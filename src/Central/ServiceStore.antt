-- ===== src/Central/ServiceStore.antt =====
-- Central/internal/service/store.go: the chat servers and the time of their last heartbeat.
-- A time is a count of nanoseconds on Go's monotonic clock, and `now` is what `time.Now` returns.
pub mod Liveness
use distributed_matchmaking.Base.{
  ℕ, ◌-◌, List, [], ◌∷◌, Bool, true, false, leb, if◌then◌else◌, Str, str_eq, Map, insert, Result,
  ok, err,
}

pub record ServiceHeartbeat : Type 0 where
  pub last_heartbeat : ℕ

abbrev pub ServiceStore : Type 0
ServiceStore = Map ServiceHeartbeat

pub data ServiceError : Type 0 where
  ip_not_found : Str → ServiceError

-- `10*time.Second`
abbrev pub heartbeat_window : ℕ
heartbeat_window = 10_000_000_000

unfoldable pub create : ServiceStore → ℕ → Str → ServiceStore
create s now ip = insert ip (record { last_heartbeat = now }) s

-- `Read`: the IPs whose last heartbeat is at most ten seconds old.
unfoldable pub read : ServiceStore → ℕ → List Str
read [] now = []
read ((ip, heartbeat) ∷ s) now =
    let ips = read s now in
    if leb (now - heartbeat.last_heartbeat) heartbeat_window then ip ∷ ips else ips

-- The loop over the keys that `Delete` and `Patch` share.
unfoldable pub has_key : Str → ServiceStore → Bool
has_key ip [] = false
has_key ip ((k, _) ∷ s) = if str_eq k ip then true else has_key ip s

-- `Delete` writes the current time, and keeps the entry.
unfoldable pub delete_service :
    ServiceStore → ℕ → Str → ServiceStore × Result ServiceError (Unit {0})
delete_service s now ip =
    if has_key ip s
    then (insert ip (record { last_heartbeat = now }) s, ok tt)
    else (s, err (ip_not_found ip))

unfoldable pub patch : ServiceStore → ℕ → Str → ServiceStore × Result ServiceError Str
patch s now ip =
    if has_key ip s
    then (insert ip (record { last_heartbeat = now }) s, ok ip)
    else (s, err (ip_not_found ip))
