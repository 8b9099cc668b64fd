-- ===== src/Central/Matchmaking/Session/Ending.antt =====
-- What both clients are sent by the end of a session.
use distributed_matchmaking.Base.{
  joined, joined-append, ap, sym, ℕ, ◌<◌, ◌≡◌, refl, ◌∙◌, List, [], ◌∷◌, ◌++◌, Option-cases, inl,
  inr, Str, bytes,
}
use distributed_matchmaking.Base.Actions.{Outcome, value, error, panic, bind-value, bind-error}
use distributed_matchmaking.Central.Matchmaking.Optimal.{Floats}
use distributed_matchmaking.Central.Matchmaking.Session.{
  Stop, Surroundings, World, room_response, open_request, await_reply, handle_connection,
  assign_room,
}
use distributed_matchmaking.Central.Matchmaking.Session.Assignment.{
  room, Settles, assign_room-Settles,
}
use mathlib.Core.List.{append_assoc}
use distributed_matchmaking.Central.Matchmaking.Session.Protocol.{
  result, request_lines, session_lines, Told, request_text,
}
use distributed_matchmaking.Central.Matchmaking.Session.Opening.{open_request-Opened, opened_then}
use distributed_matchmaking.Central.Matchmaking.Session.Request.{
  asked, await_reply_found, await_reply_never,
}

module _ {fl : Floats} (env : Surroundings fl) where
  -- The last part, after the request.
  more_lines :
      (w w' v : World fl) (lines : List Str) (text : Str)
      → w'.to_client ≡ w.to_client ++ joined 0x0A (bytes "ACK" ∷ request_lines env)
      → v.to_client ≡ w'.to_client ++ text
      → text ≡ joined 0x0A lines
      → v.to_client ≡ w.to_client ++ joined 0x0A (bytes "ACK" ∷ (request_lines env ++ lines))
  more_lines w w' v lines text c d e =
      d
      ∙ rw (c, e)
          (append_assoc w.to_client (joined 0x0A (bytes "ACK" ∷ request_lines env))
            (joined 0x0A lines))
      ∙ ap (λ rest. w.to_client ++ rest)
          (sym (joined-append 0x0A (bytes "ACK" ∷ request_lines env) lines))

  response_lines :
      (server room_id : Str)
      → room_response server room_id
        ≡ joined 0x0A ((bytes "IP:" ++ server) ∷ (bytes "RoomID:" ++ room_id) ∷ [])
  unfolding room_response joined
  response_lines server room_id = refl

  error_line : bytes "SERVER_ERROR\n" ≡ joined 0x0A (bytes "SERVER_ERROR" ∷ [])
  unfolding joined
  error_line = refl

  ack_line :
      (text : Str)
      → (text ++ bytes "ACK\n") ++ joined 0x0A (request_lines env)
        ≡ text ++ joined 0x0A (bytes "ACK" ∷ request_lines env)
  unfolding joined
  ack_line text = append_assoc text (bytes "ACK\n") (joined 0x0A (request_lines env))

  settled :
      (username req_user : Str) (w w' : World fl) (r : Outcome Stop (Unit {0}) × World fl)
      → w'.to_client ≡ w.to_client ++ joined 0x0A (bytes "ACK" ∷ request_lines env)
      → w'.to_peer ≡ w.to_peer ++ request_text env username
      → Settles env username req_user w' r
      → Told env w r
  unfolding Settles Told session_lines
  settled username req_user w w' (value _, v) c p (server, store, drawn, (dc, dp), stored) = (
    server,
    username,
    drawn,
    more_lines w w' v _ _ c dc (response_lines server (room env)),
    dp
        ∙ rw p
            (append_assoc w.to_peer (request_text env username) (room_response server (room env))),
  )
  settled username req_user w w' (error stop, v) c p ((dc, dp), which) =
      let text = more_lines w w' v (bytes "SERVER_ERROR" ∷ []) _ c dc error_line in
      elim which [ inl e ↦ rw e text | inr e ↦ rw e text ]
  settled username req_user w w' (panic, v) c p (unread, dc, dp) = (unread, dc ∙ c)

  -- What the asking client is sent over a whole session is what the protocol says of its outcome,
  -- whatever the other goroutines do to the store, if the random index stays below its bound: the
  -- session panics only where the random bytes of the room cannot be read, and if it ends well, then
  -- the client that is asked is sent the name of the other, unless this fails, and the server and
  -- room that end the protocol.
  pub handle_connection-Told :
      (w : World fl) → ((n : ℕ) → 0 < n → env.intn n < n) → Told env w (handle_connection fl env w)
  unfolding handle_connection
  handle_connection-Told w below =
      opened_then env (Told env w) _ w (open_request fl env w) (open_request-Opened env w)
        (λ stop w' h. unfold Told in h)
        (λ (username, req_user) w' c p.
          let heard : (asked env username w').to_client
              ≡ w.to_client ++ joined 0x0A (bytes "ACK" ∷ request_lines env) =
            rw c (ack_line w.to_client) in
          elim (Option-cases (result env)) [
            | inl none_yet ↦
                rw
                  (bind-error (await_reply fl env username)
                    (λ _. assign_room fl env username req_user)
                    (await_reply_never env username w' none_yet))
                  (unfold Told session_lines in heard)
            | inr (answer, e) ↦
                rw
                  (bind-value (await_reply fl env username)
                    (λ _. assign_room fl env username req_user)
                    (await_reply_found env answer username w' e))
                  (settled username req_user w _ _ heard (rw p refl)
                    (assign_room-Settles env username req_user _ below))
          ])
