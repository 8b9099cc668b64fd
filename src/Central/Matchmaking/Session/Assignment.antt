-- ===== src/Central/Matchmaking/Session/Assignment.antt =====
-- What the two clients of a session are told after the request.
use distributed_matchmaking.Base.{
  ℕ, ◌<◌, ◌≡◌, Option-cases, none, refl, [], ◌∷◌, ◌++◌, some, ◌⊎◌, inl, inr, Str, bytes, Map,
  Result, ok, err,
}
use distributed_matchmaking.Base.Actions.{Outcome, value, error, panic}
use distributed_matchmaking.Central.ClientStore.{ClientStore, StoreError, insert_chat_instance}
use distributed_matchmaking.Central.Matchmaking.Optimal.{Floats, MatchError}
use distributed_matchmaking.Central.Matchmaking.Optimal.Choice.{some_choice}
use distributed_matchmaking.Central.Matchmaking.Session.{
  Stop, no_delays, no_server, Surroundings, World, write_client, write_peer, ask_store,
  generate_room_id, room_response, server_error, place, choose, assign_room,
}

module _ {fl : Floats} (env : Surroundings fl) where
  open fl use {F32}

  -- The room's id; there is none where the random bytes cannot be read.
  abbrev pub room : Str
  room = elim (generate_room_id env.current_time env.random_bytes) [
    | none ↦ []
    | some room_id ↦ room_id
  ]

  -- Both clients are sent a text, and nothing else.
  abbrev pub BothTold : Str → World fl → World fl → Type 0
  BothTold text w w' = (w'.to_client ≡ w.to_client ++ text) × (w'.to_peer ≡ w.to_peer ++ text)

  -- The end of a session: both are told one server and room, of which the store has a new instance
  -- for the two, or both are told of an error, which is one of two. It panics only where the random
  -- bytes cannot be read, with nothing sent.
  unfoldable pub Settles : Str → Str → World fl → Outcome Stop (Unit {0}) × World fl → Type 0
  Settles username req_user w (value _, w') =
      (server : Str) × (store : ClientStore F32) × (generate_room_id env.current_time
          env.random_bytes
        ≡ some room)
      × BothTold (room_response server room) w w'
      × (w'.store ≡ (insert_chat_instance env.grow store room server (username ∷ req_user ∷ [])).0)
  Settles username req_user w (error stop, w') =
      BothTold (bytes "SERVER_ERROR\n") w w' × ((stop ≡ no_delays) ⊎ (stop ≡ no_server))
  Settles username req_user w (panic, w') =
      (env.random_bytes ≡ none) × (w'.to_client ≡ w.to_client) × (w'.to_peer ≡ w.to_peer)

  place-Settles :
      (username req_user : Str) (result : Result MatchError Str) (w : World fl)
      → Settles username req_user w (place fl env username req_user (some result) w)
  unfolding place server_error write_client write_peer ask_store generate_room_id Settles
  place-Settles username req_user (err e) w = ((refl, refl), inr refl)
  place-Settles username req_user (ok server) w = elim (Option-cases env.random_bytes) [
    | inl unread ↦ rw (unread, generate_room_id) (refl, refl, refl)
    | inr (random, e) ↦
        rw (e, generate_room_id) (server, env.others w.uses w.store, refl, (refl, refl), refl)
  ]

  choose-Settles :
      (username req_user : Str) (r1 r2 : Result StoreError (Map F32)) (w : World fl)
      → ((n : ℕ) → 0 < n → env.intn n < n)
      → Settles username req_user w (choose fl env username req_user r1 r2 w)
  unfolding choose server_error write_client write_peer Settles
  choose-Settles username req_user (err e) r2 w below = ((refl, refl), inl refl)
  choose-Settles username req_user (ok d1) (err e) w below = ((refl, refl), inl refl)
  choose-Settles username req_user (ok d1) (ok d2) w below =
      let (result, e) = some_choice fl d1 d2 env.intn below in
      rw e (place-Settles username req_user result w)

  pub assign_room-Settles :
      (username req_user : Str) (w : World fl)
      → ((n : ℕ) → 0 < n → env.intn n < n)
      → Settles username req_user w (assign_room fl env username req_user w)
  unfolding assign_room ask_store Settles
  assign_room-Settles username req_user w below = choose-Settles username req_user _ _ _ below
