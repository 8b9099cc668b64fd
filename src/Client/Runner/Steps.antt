-- ===== src/Client/Runner/Steps.antt =====
-- The goroutine of `startMatchMaking` of Client/runner/client_runner.go from one phase to another.
use distributed_matchmaking.Base.{
  ◌<◌, ◌≡◌, refl, ap, List, [], ◌∷◌, ◌++◌, true, false, Str, bytes, str_eq, Result, ok, err,
  and_then, All, ◌||◌, arith,
}
use distributed_matchmaking.Client.Requests.{without_prefix}
use distributed_matchmaking.Client.Runner.{
  trim_suffix, Panic, Phase, awaiting_ack, awaiting_sent, awaiting_response, awaiting_server,
  gave_up, awaiting_room, Matchmaking, take_response, take_server, take_room, take_status,
  start_matchmaking,
}
use distributed_matchmaking.Client.Runner.Waiting.{
  Undecided, StillWaiting, start_matchmaking-StillWaiting,
}

-- The goroutine has not panicked and stands there.
unfoldable pub Stands : Phase → Result Panic Matchmaking → Type 0
Stands phase (ok m) = (m.phase ≡ phase) × (m.dot_idx < 6)
Stands phase (err reason) = ⊥

module _ (username : Str) where
  pub start_matchmaking-append :
      (xs ys : List Str) (m : Matchmaking)
      → start_matchmaking username (xs ++ ys) m
        ≡ and_then (start_matchmaking username ys) (start_matchmaking username xs m)
  unfolding start_matchmaking
  start_matchmaking-append [] ys m = refl
  start_matchmaking-append (status ∷ xs) ys m =
      elim (take_status username m.phase status m)
        as (λ r.
          and_then (start_matchmaking username (xs ++ ys)) r
          ≡ and_then (start_matchmaking username ys) (and_then (start_matchmaking username xs) r)) [
            | ok m' ↦ start_matchmaking-append xs ys m'
            | err reason ↦ refl
          ]

  -- From one phase the statuses lead to another.
  abbrev pub Leads : Phase → List Str → Phase → Type 0
  Leads phase statuses phase' =
      (m : Matchmaking)
      → m.phase ≡ phase
      → m.dot_idx < 6
      → Stands phase' (start_matchmaking username statuses m)

  continued :
      (phase phase' : Phase) (ys : List Str) (r : Result Panic Matchmaking)
      → Stands phase r
      → Leads phase ys phase'
      → Stands phase' (and_then (start_matchmaking username ys) r)
  unfolding Stands
  continued phase phase' ys (ok m) (e, h) next = next m e h
  continued phase phase' ys (err reason) h next = absurd h

  pub Leads-append :
      (p q r : Phase) (xs ys : List Str) → Leads p xs q → Leads q ys r → Leads p (xs ++ ys) r
  Leads-append p q r xs ys f g m e h =
      rw (start_matchmaking-append xs ys m)
        (continued q r ys (start_matchmaking username xs m) (f m e h) g)

  and_then-Stands :
      (phase : Phase) (r : Result Panic Matchmaking)
      → Stands phase r
      → Stands phase (and_then (λ m. ok m) r)
  unfolding Stands
  and_then-Stands phase (ok m) h = h
  and_then-Stands phase (err reason) h = h

  -- One status.
  Leads-one :
      (p q : Phase) (status : Str)
      → ((m : Matchmaking) → m.dot_idx < 6 → Stands q (take_status username p status m))
      → Leads p (status ∷ []) q
  unfolding start_matchmaking
  Leads-one p q status f m e h =
      and_then-Stands q (take_status username m.phase status m)
        (rw (ap (λ phase. take_status username phase status m) e) (f m h))

  pub acknowledged : Leads awaiting_ack (bytes "ACK" ∷ []) awaiting_sent
  unfolding take_status Stands str_eq
  acknowledged = Leads-one awaiting_ack awaiting_sent (bytes "ACK") (λ m h. (refl, h))

  pub refused_at_once :
      (status : Str)
      → str_eq status (bytes "ACK") ≡ false
      → Leads awaiting_ack (status ∷ []) gave_up
  unfolding take_status Stands
  refused_at_once status e = Leads-one awaiting_ack gave_up status (λ m h. ground (arith, e, h))

  pub unknown : Leads awaiting_sent (bytes "USER_NOT_FOUND" ∷ []) gave_up
  unfolding take_status Stands str_eq
  unknown = Leads-one awaiting_sent gave_up (bytes "USER_NOT_FOUND") (λ m h. (refl, h))

  pub sent : Leads awaiting_sent (bytes "REQ_SENT" ∷ []) awaiting_response
  unfolding take_status Stands str_eq
  sent = Leads-one awaiting_sent awaiting_response (bytes "REQ_SENT") (λ m h. (refl, h))

  StillWaiting-Stands :
      (text : Str) (r : Result Panic Matchmaking) → StillWaiting text r → Stands awaiting_response r
  unfolding StillWaiting Stands
  StillWaiting-Stands text (ok m) (e, t, h) = (e, h)
  StillWaiting-Stands text (err reason) h = h

  pub waits :
      (statuses : List Str)
      → All Undecided statuses
      → Leads awaiting_response statuses awaiting_response
  waits statuses all m e h =
      StillWaiting-Stands m.text _ (start_matchmaking-StillWaiting username statuses m all e h)

  -- The verdict of the other client, or an error in its place, ends the loop.
  pub decided :
      (status : Str)
      → (str_eq status (bytes "REQ_ACCEPTED") || str_eq status (bytes "SERVER_ERROR")) ≡ true
      → Leads awaiting_response (status ∷ []) awaiting_server
  unfolding take_status take_response Stands
  decided status e =
      Leads-one awaiting_response awaiting_server status (λ m h. ground (arith, e, h))

  pub no_room : Leads awaiting_server (bytes "SERVER_ERROR" ∷ []) gave_up
  unfolding take_status take_server Stands str_eq
  no_room = Leads-one awaiting_server gave_up (bytes "SERVER_ERROR") (λ m h. (refl, h))

  pub placed :
      (server : Str) → Leads awaiting_server ((bytes "IP:" ++ server) ∷ []) (awaiting_room server)
  unfolding take_status take_server Stands str_eq without_prefix
  placed server =
      Leads-one awaiting_server (awaiting_room server) (bytes "IP:" ++ server) (λ m h. (refl, h))

  pub joins :
      (server room_id : Str)
      → trim_suffix (bytes "\n") room_id ≡ room_id
      → Leads
          (awaiting_room server)
          ((bytes "RoomID:" ++ room_id) ∷ [])
          (Phase.joined server room_id)
  unfolding take_status take_room Stands str_eq without_prefix
  joins server room_id e =
      Leads-one (awaiting_room server) (Phase.joined server room_id) (bytes "RoomID:" ++ room_id)
        (λ m h. (ap (Phase.joined server) e, h))
