-- ===== src/Server/Tests.antt =====
-- The chat server on concrete inputs.
use distributed_matchmaking.Base.{
  some, ok, ◌≡◌, refl, List, [], ◌∷◌, Str, true, false, member, Lacks, bytes, trim_space, lookup,
  insert, str_eq, concat,
}
use distributed_matchmaking.Server.Chat.{
  new_chat_manager, Operation, join, broadcast, join_room, broadcast_message, perform, run,
  chat_line, handle_client,
}
use distributed_matchmaking.Central.ServiceStore.{ServiceStore, read}
use distributed_matchmaking.Central.ServiceStore.Liveness.{is_up}
use distributed_matchmaking.Server.Heartbeat.{
  HeartbeatJob, new_heartbeat_job, Tick, run as run_ticks,
}
use distributed_matchmaking.Server.Heartbeat.Listing.{last_arrival, member-run}
use distributed_matchmaking.Server.Chat.Lines.{nonempty, handle_client_lem}
use distributed_matchmaking.Server.Chat.Rooms.{deliveries, run-deliveries}

abbrev room : Str
room = bytes "r1"

-- The second client joins after the first message.
abbrev session : List Operation
session = join 1 room ∷ broadcast (bytes "ann") room (bytes "hi") ∷ join 2 room ∷ []

session_writes : (run new_chat_manager session).written ≡ (1, bytes "ann: hi\n") ∷ []
unfolding run new_chat_manager perform join_room broadcast_message lookup insert chat_line str_eq
session_writes = refl

run-deliveries_example : (run new_chat_manager session).written ≡ deliveries [] session
run-deliveries_example = run-deliveries session

trims : trim_space (bytes " \tann#r1\r\n") ≡ bytes "ann#r1"
unfolding trim_space
trims = refl

handle_client_lem_example :
    handle_client 1 (bytes "an" ∷ bytes "n#r1\nlost" ∷ [] ∷ bytes "hi" ∷ [])
    ≡ join 1 room ∷ broadcast (bytes "ann") room (bytes "hi") ∷ []
unfolding nonempty
handle_client_lem_example =
    handle_client_lem 1 (bytes "ann") room (bytes "an" ∷ []) (bytes "n#r1") (bytes "lost")
      ([] ∷ bytes "hi" ∷ []) (unfold Lacks in ((refl, (refl, tt)), tt))
      (unfold Lacks in (refl, (refl, (refl, (refl, tt)))))
      (unfold Lacks in (refl, (refl, (refl, tt)))) (unfold trim_space concat in refl)

abbrev server_ip : Str
server_ip = bytes "10.0.0.7"

-- The reply to the registration is lost, so the second tick registers again; the last one is lost.
abbrev ticks : List Tick
ticks =
    record { at = 1_000; arrives = true; replied = false }
    ∷ record { at = 5_000; arrives = true; replied = true }
    ∷ record { at = 9_000; arrives = false; replied = false }
    ∷ []

-- What the configuration file makes.
abbrev job : HeartbeatJob
job = record { server_url = bytes "http://10.0.0.1:8080"; registered = false }

configured : new_heartbeat_job (some (bytes "http://10.0.0.1:8080\n")) ≡ ok job
unfolding new_heartbeat_job trim_space
configured = refl

abbrev no_services : ServiceStore
no_services = []

member-run_example :
    member server_ip (read (run_ticks server_ip ticks (no_services, job)).0 20_000)
    ≡ is_up 20_000 (last_arrival (lookup server_ip no_services) ticks)
member-run_example = member-run server_ip ticks no_services job 20_000 tt
