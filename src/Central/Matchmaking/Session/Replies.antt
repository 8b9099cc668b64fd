-- ===== src/Central/Matchmaking/Session/Replies.antt =====
-- What a session makes of the reply of the client that was asked.
use distributed_matchmaking.Base.{
  ℕ, zero, suc, ◌≡◌, refl, ◌∙◌, ◌++◌, ap, Option, Option-cases, some, none, Bool, true, false,
  Bool-cases, inl, inr, Str, bytes, Map, Result, ok, err, if◌then◌else◌,
}
use distributed_matchmaking.Base.Actions.{Outcome, value, error, panic, after, ◌>>◌, bind-value}
use distributed_matchmaking.Central.ClientStore.{StoreError}
use distributed_matchmaking.Central.Matchmaking.Optimal.{Floats, MatchError, compute_optimal_server}
use distributed_matchmaking.Central.Matchmaking.Session.{
  Stop, Reply, fails, replies, Surroundings, World, Session, take_result, generate_room_id,
  write_client, write_peer, ask_store, request_match, awaiting, room_response, accepts,
  open_request, await_reply, server_error, place, choose, assign_room, handle_connection,
}

-- A read that returns: it fails, or it has read a text.
abbrev pub returned : Option Str → Reply
returned none = fails
returned (some response) = replies response

accepts-returned : (reply : Option Str) → (answer : Bool) × (accepts (returned reply) ≡ some answer)
unfolding accepts
accepts-returned none = (false, refl)
accepts-returned (some response) = (_, refl)

module _ {fl : Floats} where
  open fl use {F32}

  -- The client has read `text`, all else being the same.
  abbrev heard : Str → World fl → World fl
  heard text w = record w { to_client = text }

  -- Two ends of a session differ at most in what the client has read.
  abbrev pub SameBut : {A : Type 0} → Outcome Stop A × World fl → Outcome Stop A × World fl → Type 0
  SameBut (r, w) (r', w') = (r ≡ r') × (w.store ≡ w'.store) × (w.to_peer ≡ w'.to_peer)

  abbrev pub replying : Option Str → Surroundings fl → Surroundings fl
  replying reply env = record env { reply = returned reply }

  module _ (env : Surroundings fl) (reply : Option Str) where
    place-SameBut :
        (username req_user : Str) (chosen : Option (Result MatchError Str)) (w : World fl)
        (text : Str)
        → SameBut
            (place fl (replying reply env) username req_user chosen (heard text w))
            (place fl env username req_user chosen w)
    unfolding place server_error write_client write_peer ask_store room_response
    place-SameBut username req_user none w text = (refl, refl, refl)
    place-SameBut username req_user (some (err e)) w text = (refl, refl, refl)
    place-SameBut username req_user (some (ok server)) w text =
        elim (Option-cases (generate_room_id env.current_time env.random_bytes)) [
          | inl e ↦ rw e (refl, refl, refl)
          | inr (room, e) ↦ rw e (refl, refl, refl)
        ]

    choose-SameBut :
        (username req_user : Str) (d1 d2 : Result StoreError (Map F32)) (w : World fl) (text : Str)
        → SameBut
            (choose fl (replying reply env) username req_user d1 d2 (heard text w))
            (choose fl env username req_user d1 d2 w)
    unfolding choose server_error write_client write_peer
    choose-SameBut username req_user (err e) d2 w text = (refl, refl, refl)
    choose-SameBut username req_user (ok d1) (err e) w text = (refl, refl, refl)
    choose-SameBut username req_user (ok d1) (ok d2) w text =
        place-SameBut username req_user (compute_optimal_server fl d1 d2 env.intn) w text

    assign_room-SameBut :
        (username req_user : Str) (w : World fl) (text : Str)
        → SameBut
            (assign_room fl (replying reply env) username req_user (heard text w))
            (assign_room fl env username req_user w)
    unfolding assign_room ask_store
    assign_room-SameBut username req_user w text = choose-SameBut username req_user _ _ _ text

  module _ (env : Surroundings fl) where
    awaiting_lem :
        (n : ℕ) (w : World fl) → (text : Str) × (awaiting fl env n w ≡ (value tt, heard text w))
    unfolding awaiting write_client
    awaiting_lem zero w = (w.to_client, refl)
    awaiting_lem (suc n) w = awaiting_lem n (heard (w.to_client ++ bytes "AWAITING_REQ\n") w)

    -- What the other client has been sent after the request.
    abbrev asked : Str → World fl → World fl
    asked username w = record w {
      to_peer = if env.request_written then w.to_peer ++ (username ++ bytes "\n") else w.to_peer;
    }

    request_match_written :
        (username : Str) (w : World fl)
        → env.request_written ≡ true
        → request_match fl env username w ≡ (value (accepts env.reply), asked username w)
    unfolding request_match write_peer
    request_match_written username w e = rw (e, request_match) refl

    request_match_lem :
        (reply : Option Str) (username : Str) (w : World fl)
        → env.reply ≡ returned reply
        → (answer : Bool) × (request_match fl env username w
            ≡ (value (some answer), asked username w))
    unfolding request_match write_peer
    request_match_lem reply username w e = elim (Bool-cases env.request_written) [
      | inl written ↦
          let (answer, a) = accepts-returned reply in
          (
            answer,
            request_match_written username w written
                ∙ ap (λ found. (value found, asked username w)) (ap accepts e ∙ a),
          )
      | inr unwritten ↦ (false, rw (unwritten, request_match) refl)
    ]

    take_result_lem :
        (answer : Bool) (w : World fl)
        → (text : Str) × (take_result fl env (some answer) w ≡ (value tt, heard text w))
    unfolding take_result write_client
    take_result_lem true w = (_, refl)
    take_result_lem false w = (_, refl)

    await_reply_lem :
        (reply : Option Str) (username : Str) (w : World fl)
        → env.reply ≡ returned reply
        → (text : Str) × (await_reply fl env username w ≡ (value tt, heard text (asked username w)))
    unfolding await_reply write_client
    await_reply_lem reply username w e =
        let (answer, m) = request_match_lem reply username w e in
        let (text, a) =
          awaiting_lem env.waits (heard (w.to_client ++ bytes "REQ_SENT\n") (asked username w)) in
        let (text', t) = take_result_lem answer (heard text (asked username w)) in
        (
          text',
          bind-value (request_match fl env username) _ m
              ∙ bind-value (awaiting fl env env.waits) _ a
              ∙ t,
        )

  after_request-SameBut :
      (env : Surroundings fl) (reply reply' : Option Str) (username req_user : Str) (w : World fl)
      → env.reply ≡ returned reply'
      → SameBut
          ((await_reply fl (replying reply env) username
              >> assign_room fl (replying reply env) username req_user)
            w)
          ((await_reply fl env username >> assign_room fl env username req_user) w)
  after_request-SameBut env reply reply' username req_user w e =
      let (t, p) = await_reply_lem (replying reply env) reply username w refl in
      let (u, q) = await_reply_lem env reply' username w e in
      let left =
        bind-value (await_reply fl (replying reply env) username)
          (λ _. assign_room fl (replying reply env) username req_user) p in
      let right =
        bind-value (await_reply fl env username) (λ _. assign_room fl env username req_user) q in
      rw (left, right)
        (assign_room-SameBut env reply username req_user (heard u (asked env username w)) t)

  after-SameBut :
      {A B : Type 0} (f g : A → Session fl B) (r : Outcome Stop A) (w : World fl)
      → ((a : A) (w : World fl) → SameBut (f a w) (g a w))
      → SameBut (after f r w) (after g r w)
  after-SameBut f g (value a) w h = h a w
  after-SameBut f g (error e) w h = (refl, refl, refl)
  after-SameBut f g panic w h = (refl, refl, refl)

  open_request_same :
      (env : Surroundings fl) (reply : Option Str) (w : World fl)
      → open_request fl (replying reply env) w ≡ open_request fl env w
  unfolding open_request ask_store
  open_request_same env reply w = refl

  whole-SameBut :
      (env : Surroundings fl) (reply reply' : Option Str) (w : World fl)
      → env.reply ≡ returned reply'
      → SameBut (handle_connection fl (replying reply env) w) (handle_connection fl env w)
  unfolding handle_connection
  whole-SameBut env reply reply' w e = rw (open_request_same env reply w) (
      after-SameBut _ _ (open_request fl env w).0 (open_request fl env w).1
        (λ (username, req_user) u. after_request-SameBut env reply reply' username req_user u e))

  -- If the read from the client that was asked returns, be it with an acceptance, another text or a
  -- failure, then what it returns decides nothing but what the asking client reads: the outcome of
  -- the session, the store that it leaves, with the new chat instance, and all that the asked client
  -- is sent are the same for all that the read may return.
  pub handle_connection-SameBut :
      (env : Surroundings fl) (reply reply' : Option Str) (w : World fl)
      → SameBut
          (handle_connection fl (replying reply env) w)
          (handle_connection fl (replying reply' env) w)
  handle_connection-SameBut env reply reply' w =
      whole-SameBut (replying reply' env) reply reply' w refl
