-- ===== src/Central/Matchmaking/Rerouting.antt =====
-- `backgroundAnalysis` of Central/internal/matchmaking/matchmaking.go: one tick of the ticker. The
-- loop ranges over the header that `GetAllChatInstances` gave it, and its own removals and
-- insertions shift the cells under that header.
pub mod Moves
pub mod Keeping
pub mod Ticks
use distributed_matchmaking.Base.{
  ℕ, zero, suc, List, [], ◌∷◌, ◌++◌, Option, some, none, Bool, true, false, ◌&&◌, if◌then◌else◌,
  Str, bytes, str_eq, Map, Result, ok, err,
}
use distributed_matchmaking.Central.Slices.{Slice, cell_at}
use distributed_matchmaking.Central.ClientStore.{
  ChatInstance, ClientStore, StoreError, read_by_username, get_delay_list, insert_chat_instance,
  remove_chat_instances_for_user, get_all_chat_instances,
}
use distributed_matchmaking.Central.Matchmaking.Optimal.{Floats, MatchError, compute_optimal_server}

-- `dial` tells whether a client listens for a redirection at an address.
module _ (fl : Floats) (grow intn : ℕ → ℕ) (dial : Str → Bool) where
  open fl use {F32}

  abbrev pub Store : Type 0
  Store = ClientStore F32

  -- The three calls that move a room to another server; their errors are dropped.
  unfoldable pub move_room : Store → Str → Str → Str → Str → Option Store
  move_room s room_id client1 client2 server_ip = elim (remove_chat_instances_for_user s client1) [
    | none ↦ none
    | some (s1, _) ↦ elim (remove_chat_instances_for_user s1 client2) [
      | none ↦ none
      | some (s2, _) ↦
          some (insert_chat_instance grow s2 room_id server_ip (client1 ∷ client2 ∷ [])).0
    ]
  ]

  abbrev both : Str → Result StoreError Str → Result StoreError Str → List (Str × Str)
  both server_ip (err _) ip2 = []
  both server_ip (ok ip1) (err _) = []
  both server_ip (ok ip1) (ok ip2) =
      if dial (ip1 ++ bytes ":3003") && dial (ip2 ++ bytes ":3003")
      then (ip1, server_ip) ∷ (ip2, server_ip) ∷ []
      else []

  -- What is written to the two clients: the IP and the new server.
  unfoldable pub redirects : Store → Str → Str → Str → List (Str × Str)
  redirects s client1 client2 server_ip =
      both server_ip (read_by_username s client1) (read_by_username s client2)

  unfoldable pub reroute :
      Store
      → ChatInstance
      → Str
      → Str
      → Option (Result MatchError Str)
      → Option (Store × List (Str × Str))
  unfolding move_room redirects
  reroute s c client1 client2 none = none
  reroute s c client1 client2 (some (err _)) = some (s, [])
  reroute s c client1 client2 (some (ok server_ip)) =
      if str_eq server_ip c.chat_server
      then some (s, [])
      else elim (move_room s c.room_id client1 client2 server_ip) [
        | none ↦ none
        | some s' ↦ some (s', redirects s' client1 client2 server_ip)
      ]

  unfoldable pub compare_servers :
      Store
      → ChatInstance
      → Str
      → Str
      → Result StoreError (Map F32)
      → Result StoreError (Map F32)
      → Option (Store × List (Str × Str))
  unfolding reroute
  compare_servers s c client1 client2 (err _) client2_delay = some (s, [])
  compare_servers s c client1 client2 (ok client1_delay) (err _) = some (s, [])
  compare_servers s c client1 client2 (ok client1_delay) (ok client2_delay) =
      reroute s c client1 client2 (compute_optimal_server fl client1_delay client2_delay intn)

  -- The body of the loop: `instance.Users[0]` and `instance.Users[1]` panic where there are fewer.
  unfoldable pub analyse : Store → ChatInstance → List Str → Option (Store × List (Str × Str))
  unfolding compare_servers
  analyse s c [] = none
  analyse s c (client1 ∷ []) = none
  analyse s c (client1 ∷ client2 ∷ _) =
      compare_servers s c client1 client2 (get_delay_list s client1) (get_delay_list s client2)

  unfoldable pub analysis_loop :
      Slice → ℕ → ℕ → Store → List (Str × Str) → Option (Store × List (Str × Str))
  unfolding analyse
  analysis_loop captured zero i s sent = some (s, sent)
  analysis_loop captured (suc left) i s sent = elim (cell_at s.heap captured i) [
    | none ↦ none
    | some c ↦ elim (analyse s c c.users) [
      | none ↦ none
      | some (s', more) ↦ analysis_loop captured left (suc i) s' (sent ++ more)
    ]
  ]

  unfoldable pub background_tick : Store → Option (Store × List (Str × Str))
  unfolding analysis_loop
  background_tick s =
      let captured = get_all_chat_instances s in analysis_loop captured captured.len 0 s []
