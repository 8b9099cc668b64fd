-- ===== src/Server/Heartbeat/Listing.antt =====
-- When Central lists a chat server that runs the job.
use distributed_matchmaking.Base.{
  ℕ, ◌≡◌, refl, ◌∙◌, ap, List, [], ◌∷◌, Option, some, Bool, true, false, Str, str_eq_refl, lookup,
  lookup-insert, member, Distinct, if◌then◌else◌,
}
use distributed_matchmaking.Central.ServiceApi.{register_service, patch_service}
use distributed_matchmaking.Central.ServiceStore.{
  ServiceStore, ServiceHeartbeat, create, read, patch, has_key,
}
use distributed_matchmaking.Central.ServiceStore.Liveness.{
  is_up, member-read, create-Distinct, has_key-lookup,
}
use distributed_matchmaking.Server.Heartbeat.{HeartbeatJob, Tick, tick, run, register_reply}

-- The heartbeat of the last tick that got through.
unfoldable pub last_arrival : Option ServiceHeartbeat → List Tick → Option ServiceHeartbeat
last_arrival last [] = last
last_arrival last (t ∷ ticks) =
    last_arrival (if t.arrives then some (record { last_heartbeat = t.at }) else last) ticks

create-lookup :
    (s : ServiceStore) (now : ℕ) (ip : Str)
    → lookup ip (create s now ip) ≡ some (record { last_heartbeat = now })
unfolding create
create-lookup s now ip = rw (lookup-insert, str_eq_refl ip) refl

patched :
    (s : ServiceStore) (now : ℕ) (ip : Str)
    → (patch_service s now ip).0 ≡ create (create s now ip) now ip
unfolding patch_service patch create
patched s now ip =
    let found : has_key ip (create s now ip) ≡ true =
      has_key-lookup (create s now ip) ip ∙ rw (create-lookup s now ip) refl in
    rw (found, patch) refl

-- One tick: the entry of the server is of this time if the request arrives, else as before.
tick_lem :
    (ip url : Str) (now : ℕ) (arrives replied registered : Bool) (s : ServiceStore)
    → Distinct s
    → let s' =
        (tick ip now arrives replied (s, record { server_url = url; registered = registered })).0 in
      Distinct s'
      × (lookup ip s' ≡ (if arrives then some (record { last_heartbeat = now }) else lookup ip s))
unfolding tick register_service register_reply
tick_lem ip url now true replied false s d = (create-Distinct s now ip d, create-lookup s now ip)
tick_lem ip url now false replied false s d = (d, refl)
tick_lem ip url now true replied true s d = rw (patched s now ip) (
  create-Distinct (create s now ip) now ip (create-Distinct s now ip d),
  create-lookup (create s now ip) now ip,
)
tick_lem ip url now false replied true s d = (d, refl)

run-lookup :
    (ip : Str) (ticks : List Tick) (s : ServiceStore) (job : HeartbeatJob)
    → Distinct s
    → Distinct (run ip ticks (s, job)).0
      × (lookup ip (run ip ticks (s, job)).0 ≡ last_arrival (lookup ip s) ticks)
unfolding run last_arrival
run-lookup ip [] s job d = (d, refl)
run-lookup ip (t ∷ ticks) s job d =
    let (d', e) = tick_lem ip job.server_url t.at t.arrives t.replied job.registered s d in
    let (s', job') = tick ip t.at t.arrives t.replied (s, job) in
    let (done, found) = run-lookup ip ticks s' job' d' in
    (done, found ∙ ap (λ last. last_arrival last ticks) e)

-- Whatever requests and replies of the job the network loses, Central lists the server at a time
-- exactly when a request has arrived and the last that did is at most ten seconds old, whether it
-- was a registration or a heartbeat.
pub member-run :
    (ip : Str) (ticks : List Tick) (s : ServiceStore) (job : HeartbeatJob) (now : ℕ)
    → Distinct s
    → member ip (read (run ip ticks (s, job)).0 now) ≡ is_up now (last_arrival (lookup ip s) ticks)
member-run ip ticks s job now d =
    let (done, found) = run-lookup ip ticks s job d in
    member-read (run ip ticks (s, job)).0 now ip done ∙ ap (is_up now) found
