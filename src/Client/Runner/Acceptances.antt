-- ===== src/Client/Runner/Acceptances.antt =====
-- An acceptance: `acceptChatRequest` of Client/runner/client_runner.go with `AcceptMessageRequest` of
-- Client/client/client.go, on what Central sends.
use distributed_matchmaking.Base.{
  ℕ, ◌≡◌, refl, [], ◌∷◌, some, true, false, Str, bytes, str_eq, Result, ok, err, Lacks, Map, lookup,
}
use distributed_matchmaking.Base.Actions.{value}
use distributed_matchmaking.Central.Matchmaking.Session.{room_response}
use distributed_matchmaking.Client.Messages.{newline}
use distributed_matchmaking.Client.Requests.{accept_message_request}
use distributed_matchmaking.Client.Requests.Responses.{accept_message_request-room_response}
use distributed_matchmaking.Client.Runner.{Panic}
use distributed_matchmaking.Client.Runner.Pages.{
  joining, Acceptance, begin_acceptance, accept_status, accept_chat_request,
}

-- The goroutine has joined a room on a server.
unfoldable pub Joined : Str → Str → Result Panic Acceptance → Type 0
Joined server room (ok a) = a.phase ≡ joining server room
Joined server room (err reason) = ⊥

accepts_room :
    (username server room : Str)
    → str_eq server (bytes "SERVER_ERROR") ≡ false
    → str_eq room (bytes "SERVER_ERROR") ≡ false
    → Joined server room (
        accept_chat_request username
          (bytes "ACCEPT_REQ" ∷ server ∷ room ∷ [])
          (begin_acceptance username))
unfolding accept_chat_request accept_status begin_acceptance Joined str_eq
accepts_room username server room p q = rw (p, q) refl

-- From the response of Central about a server and a room, neither with a newline in its name nor
-- called SERVER_ERROR, the client that was asked and accepts is told of both, and the goroutine
-- behind its page joins this room on this server.
pub accept_chat_request-room_response :
    (chat_requests : Map ℕ) (username server room : Str) (conn : ℕ)
    → lookup username chat_requests ≡ some conn
    → Lacks newline server
    → Lacks newline room
    → str_eq server (bytes "SERVER_ERROR") ≡ false
    → str_eq room (bytes "SERVER_ERROR") ≡ false
    → let statuses = bytes "ACCEPT_REQ" ∷ server ∷ room ∷ [] in
      (accept_message_request chat_requests username true (some (room_response server room))
        ≡ value statuses)
      × Joined server room (accept_chat_request username statuses (begin_acceptance username))
accept_chat_request-room_response chat_requests username server room conn known hs hr p q = (
  accept_message_request-room_response chat_requests username server room conn known hs hr,
  accepts_room username server room p q,
)
