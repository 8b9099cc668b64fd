-- ===== src/Server/Heartbeat.antt =====
-- Server/jobs/heartbeat.go: the job that keeps a chat server on Central's list.
pub mod Listing
use distributed_matchmaking.Base.{
  ℕ, List, [], ◌∷◌, ◌++◌, Option, some, none, Bool, true, false, ◌==◌, if◌then◌else◌, Str, bytes,
  Result, ok, err, and_then, trim_space,
}
use distributed_matchmaking.Central.Responses.{status_created}
use distributed_matchmaking.Central.ServiceApi.{register_service, patch_service}
use distributed_matchmaking.Central.ServiceStore.{ServiceStore}

pub record HeartbeatJob : Type 0 where
  pub server_url : Str
  pub registered : Bool

pub data ConfigError : Type 0 where
  config_unread config_empty : ConfigError

abbrev not_empty : Str → Result ConfigError Str
not_empty [] = err config_empty
not_empty (c ∷ url) = ok (c ∷ url)

-- `readConfig`, given what `os.ReadFile` gives.
unfoldable pub read_config : Option (List ℕ) → Result ConfigError Str
read_config none = err config_unread
read_config (some data_read) = not_empty (trim_space data_read)

-- `NewHeartbeatJob`
unfoldable pub new_heartbeat_job : Option (List ℕ) → Result ConfigError HeartbeatJob
unfolding read_config
new_heartbeat_job file =
    and_then (λ url. ok (record { server_url = url; registered = false })) (read_config file)

-- `registerService`, given the status of the reply, `none` where the request failed.
unfoldable pub register_reply : HeartbeatJob → Option ℕ → HeartbeatJob
register_reply job none = job
register_reply job (some status) =
    if status == status_created then record job { registered = true } else job

-- `sendHeartbeat`, handled by Central if it gets there; the reply is not looked at.
abbrev pub send_heartbeat : Str → ℕ → Bool → ServiceStore → ServiceStore
send_heartbeat ip now arrives s = elim arrives [ false ↦ s | true ↦ (patch_service s now ip).0 ]

-- One tick at a time of Central's clock: the request that `Start` sends, handled by Central if it
-- gets there. `replied` tells whether the reply comes back.
unfoldable pub tick :
    Str → ℕ → Bool → Bool → ServiceStore × HeartbeatJob → ServiceStore × HeartbeatJob
unfolding register_reply
tick ip now arrives replied (s, job) = elim job.registered [
  | false ↦ elim arrives [
    | false ↦ (s, register_reply job none)
    | true ↦
        let (s', response) = register_service s now ip in
        (s', register_reply job (if replied then some response.status else none))
  ]
  | true ↦ (send_heartbeat ip now arrives s, job)
]

pub record Tick : Type 0 where
  pub at : ℕ
  pub arrives : Bool
  pub replied : Bool

unfoldable pub run : Str → List Tick → ServiceStore × HeartbeatJob → ServiceStore × HeartbeatJob
unfolding tick
run ip [] state = state
run ip (t ∷ ticks) state = run ip ticks (tick ip t.at t.arrives t.replied state)
