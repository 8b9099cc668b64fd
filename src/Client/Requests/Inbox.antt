-- ===== src/Client/Requests/Inbox.antt =====
-- Chat requests as the listener of the client files them, and the address of the matchmaking server.
use distributed_matchmaking.Base.{
  ℕ, ◌≡◌, refl, ◌∙◌, ap, List, [], ◌∷◌, ◌++◌, Option, some, none, true, Str, Map, lookup,
  lookup-insert, str_eq, if◌then◌else◌, bytes, length, take, arith, ◌+◌, ◌-◌, length-append, leb,
  All, take-append,
}
use distributed_matchmaking.Base.Actions.{value}
use distributed_matchmaking.Client.Requests.{
  handle_chat_request, Accepted, accept_requests, message_request_listener, matchmaking_address,
  remove_once, without_prefix,
}

-- The read of the request does not fail.
unfoldable pub Readable : Accepted → Type 0
Readable (some (conn, none)) = ⊥
Readable _ = Unit {0}

-- The connection of the last request of a user that has come in, or what there was before.
unfoldable pub last_request : Str → List Accepted → Option ℕ → Option ℕ
last_request username [] before = before
last_request username (some (conn, some buf) ∷ more) before =
    last_request username more (if str_eq buf username then some conn else before)
last_request username (_ ∷ more) before = last_request username more before

accept_requests_lem :
    (username : Str) (accepted : List Accepted) (chat_requests : Map ℕ)
    → All Readable accepted
    → (m : Map ℕ) × (accept_requests accepted chat_requests ≡ value m)
      × (lookup username m ≡ last_request username accepted (lookup username chat_requests))
unfolding accept_requests handle_chat_request last_request Readable
accept_requests_lem username [] chat_requests all = (chat_requests, refl, refl)
accept_requests_lem username (none ∷ more) chat_requests (_, all) =
    accept_requests_lem username more chat_requests all
accept_requests_lem username (some (conn, none) ∷ more) chat_requests (bad, all) = absurd bad
accept_requests_lem username (some (conn, some buf) ∷ more) chat_requests (_, all) =
    let (m, e, found) =
      accept_requests_lem username more (handle_chat_request chat_requests buf conn) all in
    (m, e, found ∙ ap (last_request username more) (lookup-insert buf username conn chat_requests))

-- If port 3001 is to be had and no read fails, then the listener files each request under all that
-- was read of it, so that the connection found under a name is that of its last request.
pub message_request_listener_lem :
    (username : Str) (accepted : List Accepted) (chat_requests : Map ℕ)
    → All Readable accepted
    → (m : Map ℕ) × (message_request_listener true accepted chat_requests ≡ value m)
      × (lookup username m ≡ last_request username accepted (lookup username chat_requests))
unfolding message_request_listener
message_request_listener_lem username accepted chat_requests all =
    accept_requests_lem username accepted chat_requests all

-- From the URL of Central, whatever the host and whatever its port of four digits, the address is
-- the host with port 8081.
pub matchmaking_address_lem :
    (host port : Str)
    → length port ≡ 4
    → matchmaking_address (bytes "http://" ++ (host ++ port)) ≡ some (host ++ bytes "8081")
unfolding matchmaking_address remove_once without_prefix
matchmaking_address_lem host port four =
    let size : length (host ++ port) ≡ length host + 4 = omega (arith, length-append host port) in
    let enough : leb 4 (length (bytes "http://" ++ (host ++ port))) ≡ true = ground (arith, size) in
    let short : length (bytes "http://" ++ (host ++ port)) - 4 ≡ length (bytes "http://" ++ host) =
      omega (arith, size) in
    let front : take (length (bytes "http://" ++ (host ++ port)) - 4)
          (bytes "http://" ++ (host ++ port))
        ≡ bytes "http://" ++ host =
      ap (λ n. take n (bytes "http://" ++ (host ++ port))) short
      ∙ take-append (bytes "http://" ++ host) port in
    rw (enough, matchmaking_address, front) refl
