-- ===== src/Client/Requests.antt =====
-- Client/client/client.go: what the client makes of what Central tells it, as the one that asks
-- for a chat and as the one that is asked.
pub mod Responses
pub mod Inbox
use distributed_matchmaking.Base.{
  ℕ, ◌-◌, ◌&&◌, leb, take, length, List, [], ◌∷◌, ◌++◌, Option, some, none, Bool, true, false, ◌==◌,
  if◌then◌else◌, Str, bytes, Map, lookup, insert,
}
use distributed_matchmaking.Base.Actions.{Outcome, value, error, panic}
use distributed_matchmaking.Client.Messages.{newline}

-- `strings.Split(s, sep)` for a separator of one byte: the first part and the others.
unfoldable pub split_first : ℕ → Str → Str × List Str
split_first d [] = ([], [])
split_first d (c ∷ cs) = elim (c == d) [
  | true ↦ ([], (split_first d cs).0 ∷ (split_first d cs).1)
  | false ↦ (c ∷ (split_first d cs).0, (split_first d cs).1)
]

unfoldable pub split : ℕ → Str → List Str
unfolding split_first
split d xs = let (part, parts) = split_first d xs in part ∷ parts

unfoldable pub non_empty : List Str → List Str
non_empty [] = []
non_empty ([] ∷ parts) = non_empty parts
non_empty ((c ∷ cs) ∷ parts) = (c ∷ cs) ∷ non_empty parts

-- The loop of `StartMatchmaking` over the chunks that it reads: what it sends on `statusChannel`.
unfoldable pub matchmaking_statuses : List Str → List Str
unfolding split non_empty
matchmaking_statuses [] = []
matchmaking_statuses (chunk ∷ chunks) =
    non_empty (split newline chunk) ++ matchmaking_statuses chunks

-- `strings.TrimPrefix` with `strings.HasPrefix`: `none` where the text has no such prefix.
unfoldable pub without_prefix : Str → Str → Option Str
without_prefix [] xs = some xs
without_prefix (p ∷ ps) [] = none
without_prefix (p ∷ ps) (x ∷ xs) = elim (p == x) [ true ↦ without_prefix ps xs | false ↦ none ]

-- `strings.Replace(s, old, "", 1)`, for an `old` that is not empty.
unfoldable pub remove_once : Str → Str → Str
unfolding without_prefix
remove_once old [] = []
remove_once old (c ∷ cs) = elim (without_prefix old (c ∷ cs)) [
  | none ↦ c ∷ remove_once old cs
  | some rest ↦ rest
]

-- Where `StartMatchmaking` finds Central's matchmaking server: the URL with another port. It panics
-- on a URL that is shorter than a port.
unfoldable pub matchmaking_address : Str → Option Str
unfolding remove_once
matchmaking_address central_url =
    if leb 4 (length central_url)
    then some
        (remove_once (bytes "http://") (take (length central_url - 4) central_url ++ bytes "8081"))
    else none

-- `StartMatchmaking`: `dial` tells whether an address answers, `written` whether the username can
-- be written; `none` is a panic.
unfoldable pub request_matchmaking : Str → (Str → Bool) → Bool → List Str → Option (List Str)
unfolding matchmaking_address matchmaking_statuses
request_matchmaking central_url dial written chunks = elim (matchmaking_address central_url) [
  | none ↦ none
  | some address ↦
      some
        (if dial address && written then matchmaking_statuses chunks else bytes "SERVER_ERROR" ∷ [])
]

-- An `os.Exit`.
pub data Exit : Type 0 where
  exit : Exit

-- `handleChatRequest`, with what is read: the key is all of it.
unfoldable pub handle_chat_request : Map ℕ → Str → ℕ → Map ℕ
handle_chat_request chat_requests buf conn = insert buf conn chat_requests

-- A connection that `messageRequestListener` accepts, `none` where accepting fails, with what is
-- read from it, `none` where reading fails.
abbrev pub Accepted : Type 0
Accepted = Option (ℕ × Option Str)

-- The loop of `messageRequestListener`, the goroutines that it starts taken in order.
unfoldable pub accept_requests : List Accepted → Map ℕ → Outcome Exit (Map ℕ)
unfolding handle_chat_request
accept_requests [] chat_requests = value chat_requests
accept_requests (none ∷ more) chat_requests = accept_requests more chat_requests
accept_requests (some (conn, none) ∷ more) chat_requests = error exit
accept_requests (some (conn, some buf) ∷ more) chat_requests =
    accept_requests more (handle_chat_request chat_requests buf conn)

-- `messageRequestListener`: `listens` tells whether port 3001 is to be had.
unfoldable pub message_request_listener : Bool → List Accepted → Map ℕ → Outcome Exit (Map ℕ)
unfolding accept_requests
message_request_listener false accepted chat_requests = error exit
message_request_listener true accepted chat_requests = accept_requests accepted chat_requests

-- The end of `AcceptMessageRequest`, on the second token. The tokens have no newline, so
-- `TrimSuffix` changes nothing.
unfoldable pub accept_room : Str → List Str → Outcome Exit (List Str)
unfolding without_prefix
accept_room server_address [] = panic
accept_room server_address (room_token ∷ _) = elim (without_prefix (bytes "RoomID:") room_token) [
  | none ↦ value (bytes "SERVER_ERROR" ∷ [])
  | some room_id ↦ value (server_address ∷ room_id ∷ [])
]

unfoldable pub accept_tokens : Str × List Str → Outcome Exit (List Str)
unfolding accept_room
accept_tokens (server_token, tokens) = elim (without_prefix (bytes "IP:") server_token) [
  | none ↦ accept_room server_token tokens
  | some server_address ↦ accept_room server_address tokens
]

-- `AcceptMessageRequest` on what the server sends: the statuses after the first.
unfoldable pub accept_response : Str → Outcome Exit (List Str)
unfolding accept_tokens split_first
accept_response server_response = elim (without_prefix (bytes "IP:") server_response) [
  | none ↦ value (bytes "SERVER_ERROR" ∷ [])
  | some _ ↦ accept_tokens (split_first newline server_response)
]

-- `AcceptMessageRequest`: `written` tells whether the acceptance can be written, and
-- `server_response` is what is read then, `none` for a failing read.
unfoldable pub accept_message_request : Map ℕ → Str → Bool → Option Str → Outcome Exit (List Str)
unfolding accept_response
accept_message_request chat_requests username written server_response =
    elim (lookup username chat_requests) [
      | none ↦ error exit
      | some conn ↦ elim written [
        | false ↦ error exit
        | true ↦ elim server_response [
          | none ↦ error exit
          | some response ↦ elim (accept_response response) [
            | value statuses ↦ value (bytes "ACCEPT_REQ" ∷ statuses)
            | error e ↦ error e
            | panic ↦ panic
          ]
        ]
      ]
    ]
