-- ===== src/Central/Matchmaking/Session/Placing.antt =====
-- How a session places the two clients: the last part of `handleConnection` of
-- Central/internal/matchmaking/matchmaking.go, and the whole session, by what it does to the store.
use distributed_matchmaking.Base.{
  ℕ, Option, Option-cases, some, none, inl, inr, Str, Map, Result, ok, err, ◌≡◌, refl,
}
use distributed_matchmaking.Central.ClientStore.{ClientStore, StoreError, get_delay_list}
use distributed_matchmaking.Central.Matchmaking.Optimal.{Floats, MatchError, compute_optimal_server}
use distributed_matchmaking.Central.Matchmaking.Session.{
  Surroundings, World, write_client, write_peer, ask_store, place, choose, assign_room,
  handle_connection, generate_room_id,
}
use distributed_matchmaking.Central.Matchmaking.Session.Effect.{
  Inserts, Found, then_Inserts, server_error-Inserts, look-Keeps, open_request-Keeps,
  await_reply-Keeps,
}

module _ {fl : Floats} (env : Surroundings fl)
    (R : ClientStore (fl.F32) → ClientStore (fl.F32) → Type 0)
    (here : (s : ClientStore (fl.F32)) → R s s)
    (onward : (s t u : ClientStore (fl.F32)) → R s t → R t u → R s u)
    (others : (n : ℕ) (s : ClientStore (fl.F32)) → R s (env.others n s)) where
  open fl use {F32}

  module _ (s : ClientStore F32) (username req_user : Str)
      (found : Found env R here onward others s (username, req_user)) where
    -- Both delay lists have been found.
    abbrev Measured : Map F32 → Map F32 → Type 0
    Measured client1_delay client2_delay =
        ((t : ClientStore F32) × R s t × (get_delay_list t username ≡ ok client1_delay))
        × ((t : ClientStore F32) × R s t × (get_delay_list t req_user ≡ ok client2_delay))

    placed :
        (client1_delay client2_delay : Map F32) (server : Str) (w : World fl)
        → R s w.store
        → Measured client1_delay client2_delay
        → compute_optimal_server fl client1_delay client2_delay env.intn ≡ some (ok server)
        → Inserts env R s (place fl env username req_user (some (ok server)) w)
    unfolding place write_client write_peer ask_store Inserts
    placed client1_delay client2_delay server w r measured chosen =
        elim (Option-cases (generate_room_id env.current_time env.random_bytes)) [
          | inl e ↦ rw e r
          | inr (room, e) ↦
              let ((at1, led1, auth), wanted, (at2, ip, led2, known)) = found in
              let ((at3, led3, delay1), (at4, led4, delay2)) = measured in
              rw e (record {
                username = username;
                req_user_ip = ip;
                server_ip = server;
                room_id = room;
                client1_delay = client1_delay;
                client2_delay = client2_delay;
                at_authorize = at1;
                at_locate = at2;
                at_delay1 = at3;
                at_delay2 = at4;
                at_insert = env.others w.uses w.store;
                led = (led1, led2, led3, led4, onward s w.store _ r (others w.uses w.store));
                authorized = auth;
                located = rw wanted known;
                delay1 = delay1;
                delay2 = rw wanted delay2;
                chosen = chosen;
                drawn = e;
                inserted = rw wanted refl;
              })
        ]

    place-Inserts :
        (client1_delay client2_delay : Map F32) (w : World fl)
        → R s w.store
        → Measured client1_delay client2_delay
        → (result : Option (Result MatchError Str))
        → compute_optimal_server fl client1_delay client2_delay env.intn ≡ result
        → Inserts env R s (place fl env username req_user result w)
    place-Inserts client1_delay client2_delay w r measured none e = unfold place Inserts in r
    place-Inserts client1_delay client2_delay w r measured (some (err reason)) e =
        unfold place in server_error-Inserts env R s w r _
    place-Inserts client1_delay client2_delay w r measured (some (ok server)) e =
        placed client1_delay client2_delay server w r measured e

    choose-Inserts :
        (r1 r2 : Result StoreError (Map F32)) (w : World fl)
        → R s w.store
        → ((t : ClientStore F32) × R s t × (get_delay_list t username ≡ r1))
        → ((t : ClientStore F32) × R s t × (get_delay_list t req_user ≡ r2))
        → Inserts env R s (choose fl env username req_user r1 r2 w)
    unfolding choose
    choose-Inserts (err e) r2 w r m1 m2 = server_error-Inserts env R s w r _
    choose-Inserts (ok d1) (err e) w r m1 m2 = server_error-Inserts env R s w r _
    choose-Inserts (ok d1) (ok d2) w r m1 m2 = place-Inserts d1 d2 w r (m1, m2) _ refl

    assign_room-Inserts :
        (w : World fl) → R s w.store → Inserts env R s (assign_room fl env username req_user w)
    unfolding assign_room
    assign_room-Inserts w r =
        then_Inserts env R s _ _ _ _
          (look-Keeps env R here onward others s (λ t. get_delay_list t username) w r)
          (λ r1 w1 h1 m1.
            then_Inserts env R s _ _ _ _
              (look-Keeps env R here onward others s (λ t. get_delay_list t req_user) w1 h1)
              (λ r2 w2 h2 m2. choose-Inserts r1 r2 w2 h2 m1 m2))

  -- Take any reflexive and transitive relation between stores that the other goroutines respect
  -- between the calls of a session. A session that ends with an error or a panic, or still waits,
  -- respects it too: it does nothing to the store itself. One that ends well does exactly one
  -- thing: it inserts an instance, of the room that was drawn, on a server that the function
  -- chooses from the delay lists of two users, with these two, in order: the one that the
  -- client's address was registered for, and the one that the client has asked for, whose address
  -- was known. Each store in which it found any of this, and the one in which it inserts, is
  -- related to the store in which it began.
  pub handle_connection-Inserts :
      (w : World fl) → Inserts env R w.store (handle_connection fl env w)
  unfolding handle_connection
  handle_connection-Inserts w =
      then_Inserts env R w.store _ _ _ _ (open_request-Keeps env R here onward others w)
        (λ (username, req_user) w1 r1 found.
          then_Inserts env R w.store _ _ _ _
            (await_reply-Keeps env R here onward others w.store username w1 r1)
            (λ _ w2 r2 _. assign_room-Inserts w.store username req_user found w2 r2))
