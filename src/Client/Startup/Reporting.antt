-- ===== src/Client/Startup/Reporting.antt =====
-- The reports of `updateServerDelays` as Central takes them: `reportDelaysToCentral` of
-- Client/client/client.go and `UpdateDelayList` of Central/internal/client/api.go.
use distributed_matchmaking.Base.{
  ℕ, ◌≡◌, refl, ◌∙◌, List, [], ◌∷◌, Option, some, none, Bool, true, false, if◌then◌else◌, Str,
  str_eq_refl, member, Map, lookup, insert, lookup-insert, keys, arith, length, ok,
}
use distributed_matchmaking.Central.ClientApi.{update_delay_list_handler}
use distributed_matchmaking.Central.ClientStore.{ClientStore, update_delay_list, get_delay_list}
use distributed_matchmaking.Client.Startup.{unreached, delay_of, ping_loop, update_server_delays}
use distributed_matchmaking.Client.Startup.Delays.{lookup-update_server_delays, member-unreached}

module _ {F : Type 0} where
  -- `reportDelaysToCentral`, handled by Central if it gets there.
  unfoldable pub report_delays_to_central : ClientStore F → Bool → Str → Map F → ClientStore F
  report_delays_to_central s arrives user_name server_registry = elim arrives [
    | true ↦ (update_delay_list_handler s (some (user_name, server_registry))).0
    | false ↦ s
  ]

  -- Reports one after the other; `arrives n` tells of the one with `n` others behind it.
  unfoldable pub reported : ClientStore F → (ℕ → Bool) → Str → List (Map F) → ClientStore F
  unfolding report_delays_to_central
  reported s arrives user_name [] = s
  reported s arrives user_name (registry ∷ registries) =
      reported (report_delays_to_central s (arrives (length registries)) user_name registry) arrives
        user_name registries

  found_list :
      (s : ClientStore F) (user_name : Str) (delays : Map F)
      → lookup user_name s.delay_lists ≡ some delays
      → get_delay_list s user_name ≡ ok delays
  unfolding get_delay_list
  found_list s user_name delays e = rw (e, get_delay_list) refl

  module _ (max_float32 : F) (dial : Str → Option F) (arrives : ℕ → Bool) (user_name : Str) where
    last_arrives :
        (server : Str) (servers : List Str) (registry : Map F) (s : ClientStore F)
        → arrives 0 ≡ true
        → let (last, reports) = ping_loop max_float32 dial (server ∷ servers) registry in
          lookup user_name (reported s arrives user_name reports).delay_lists ≡ some last
    unfolding ping_loop reported update_delay_list_handler update_delay_list
    last_arrives server [] registry s h =
        rw (h, reported)
          (lookup-insert user_name user_name _ s.delay_lists ∙ rw (str_eq_refl user_name) refl)
    last_arrives server (next ∷ servers) registry s h =
        last_arrives next servers (insert server (delay_of max_float32 dial server) registry) _ h

    last_of_keys :
        (ks : List Str) (k : Str) (registry : Map F) (s : ClientStore F)
        → member k ks ≡ true
        → arrives 0 ≡ true
        → let (last, reports) = ping_loop max_float32 dial ks registry in
          lookup user_name (reported s arrives user_name reports).delay_lists ≡ some last
    unfolding member
    last_of_keys [] k registry s found h = ground (arith, found)
    last_of_keys (server ∷ servers) k registry s found h = last_arrives server servers registry s h

    -- If a client has at least one server to ping and the last report of its update arrives, whatever
    -- becomes of the others, then Central's delay list of the client has the measured delay of each
    -- server, the largest float for one that does not answer, and no other server.
    pub get_delay_list-update_server_delays :
        (k server : Str) (servers : List Str) (registry : Map F) (s : ClientStore F)
        → arrives 0 ≡ true
        → let reports =
            (update_server_delays max_float32 dial (some (server ∷ servers)) registry).1 in
          (delays : Map F) × (get_delay_list (reported s arrives user_name reports) user_name
            ≡ ok delays)
          × (lookup k delays
              ≡ (if member k (server ∷ servers) then some (delay_of max_float32 dial k) else none))
    unfolding update_server_delays
    get_delay_list-update_server_delays k server servers registry s h =
        let ks = keys (unreached max_float32 (server ∷ servers) []) in
        let listed : member server ks ≡ true =
          member-unreached max_float32 dial server (server ∷ servers)
          ∙ unfold member in rw (str_eq_refl server) refl in
        (
          (update_server_delays max_float32 dial (some (server ∷ servers)) registry).0,
          found_list _ user_name _ (last_of_keys ks server _ s listed h),
          lookup-update_server_delays max_float32 dial k (server ∷ servers) registry,
        )
