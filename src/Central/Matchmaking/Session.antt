-- ===== src/Central/Matchmaking/Session.antt =====
-- `handleConnection`, `requestMatch` and what they call of Central/internal/matchmaking: one
-- client's wish for a chat. The network and the other goroutines are `Surroundings`.
pub mod Replies
pub mod Assignment
pub mod Address
pub mod Protocol
pub mod Opening
pub mod Request
pub mod Ending
pub mod Effect
pub mod Placing
pub mod Unanswered
use distributed_matchmaking.Base.{
  ℕ, zero, suc, ◌/◌, ◌%◌, ◌+◌, List, [], ◌∷◌, ◌++◌, Option, some, none, Bool, true, false, ltb,
  ◌==◌, if◌then◌else◌, Str, bytes, str_eq, Map, Result, ok, err, trim_space, length,
}
use distributed_matchmaking.Base.Actions.{
  Outcome, value, error, panic, Action, pure, fail, crash, ◌>>=◌, ◌>>◌, check, or_panic, modify,
  get_state,
}
use distributed_matchmaking.Central.ClientStore.{
  ClientStore, StoreError, read, read_by_username, get_delay_list, insert_chat_instance,
}
use distributed_matchmaking.Central.Matchmaking.Optimal.{Floats, MatchError, compute_optimal_server}

-- The text before the first of a byte: `strings.Split(s, sep)[0]`.
unfoldable pub before_first : ℕ → Str → Str
before_first d [] = []
before_first d (c ∷ cs) = elim (c == d) [ true ↦ [] | false ↦ c ∷ before_first d cs ]

unfoldable pub contains : ℕ → Str → Bool
contains d [] = false
contains d (c ∷ cs) = elim (c == d) [ true ↦ true | false ↦ contains d cs ]

-- `strings.Trim(s, "[")`, at the front and at the end.
unfoldable pub trim_left : ℕ → Str → Str
trim_left d [] = []
trim_left d (c ∷ cs) = elim (c == d) [ true ↦ trim_left d cs | false ↦ c ∷ cs ]

unfoldable pub trim_right : ℕ → Str → Str
trim_right d [] = []
trim_right d (c ∷ cs) = elim (trim_right d cs) [
  | [] ↦ elim (c == d) [ true ↦ [] | false ↦ c ∷ [] ]
  | x ∷ xs ↦ c ∷ x ∷ xs
]

-- The client's IP, from `conn.RemoteAddr().String()`.
unfoldable pub client_ip : Str → Str
unfolding before_first contains trim_left trim_right
client_ip client_addr =
    if contains 0x5B client_addr
    then trim_right 0x5B (trim_left 0x5B (before_first 0x5D client_addr))
    else before_first 0x3A client_addr

-- `hex.EncodeToString`
abbrev pub hex_digit : ℕ → ℕ
hex_digit n = if ltb n 10 then 0x30 + n else 0x57 + n

unfoldable pub hex : List ℕ → Str
hex [] = []
hex (b ∷ bs) = hex_digit (b / 16) ∷ hex_digit (b % 16) ∷ hex bs

-- `generateRoomId`, given the formatted time and the sixteen random bytes. It panics, `none`, where
-- `rand.Read` fails.
unfoldable pub generate_room_id : Str → Option (List ℕ) → Option Str
unfolding hex
generate_room_id current_time none = none
generate_room_id current_time (some random_bytes) =
    some (current_time ++ (bytes "-" ++ hex random_bytes))

-- `fmt.Sprintf("IP:%s\nRoomID:%s\n", serverIP, roomId)`
unfoldable pub room_response : Str → Str → Str
room_response server_ip room_id =
    bytes "IP:" ++ (server_ip ++ (bytes "\nRoomID:" ++ (room_id ++ bytes "\n")))

pub data Stop : Type 0 where
  unauthorized no_requested_user unknown_user dial_failed no_delays no_server : Stop
  -- The model's own: the session is still in its loop, for want of a result.
  still_waiting : Stop

-- `GetRequestedUsername`, given what the read returns.
unfoldable pub get_requested_username : Option Str → Str
get_requested_username none = []
get_requested_username (some buf) = trim_space buf

-- What the read from the other client comes to: it never returns, it fails, or it returns a text.
pub data Reply : Type 0 where
  never fails : Reply
  replies : (response : Str) → Reply

-- The result that `requestMatch` sends of it, if any: whether the other client accepts.
unfoldable pub accepts : Reply → Option Bool
accepts never = none
accepts fails = some false
accepts (replies response) = some (str_eq (trim_space response) (bytes "ACCEPT_REQ"))

module _ (fl : Floats) where
  open fl use {F32}

  pub record Surroundings : Type 0 where
    pub remote_addr : Str
    -- What the client sends first, `none` for a failing read.
    pub first_read : Option Str
    -- Whether the other client answers at an address.
    pub dial : Str → Bool
    -- Whether the request can be written to it, and what it replies.
    pub request_written : Bool
    pub reply : Reply
    -- How often the loop finds no result: before there is one, or as long as the session is watched.
    pub waits : ℕ
    pub current_time : Str
    -- `none` for a failing read.
    pub random_bytes : Option (List ℕ)
    pub intn : ℕ → ℕ
    pub grow : ℕ → ℕ
    -- What the other goroutines do to the store before its `n`-th use here.
    pub others : ℕ → ClientStore F32 → ClientStore F32

  -- The store, and what has been written to the client and to the client that it asks for.
  pub record World : Type 0 where
    pub store : ClientStore F32
    pub uses : ℕ
    pub to_client : Str
    pub to_peer : Str

  abbrev pub Session : Type 0 → Type 0
  Session A = Action World Stop A

  unfoldable pub write_client : Str → Session (Unit {0})
  write_client text w = (value tt, record w { to_client = w.to_client ++ text })

  unfoldable pub write_peer : Str → Session (Unit {0})
  write_peer text w = (value tt, record w { to_peer = w.to_peer ++ text })

  -- The client's username, from what the store knows of its IP.
  unfoldable pub authorize : Result StoreError Str → Session Str
  authorize (err _) = write_client (bytes "Unauthorized\n") >> fail unauthorized
  authorize (ok []) = write_client (bytes "Unauthorized\n") >> fail unauthorized
  authorize (ok (c ∷ cs)) = pure (c ∷ cs)

  -- The user that the client asks for, from what it has sent.
  unfoldable pub want : Str → Session Str
  want [] = write_client (bytes "USER_NOT_FOUND\n") >> fail no_requested_user
  want (c ∷ cs) = pure (c ∷ cs)

  -- That user's address, from what the store knows.
  unfoldable pub locate : Result StoreError Str → Session Str
  locate (err _) = write_client (bytes "USER_NOT_FOUND\n") >> fail unknown_user
  locate (ok ip) = pure (if str_eq ip (bytes "::1") then bytes "localhost" else ip)

  module _ (env : Surroundings) where
    unfoldable pub ask_store : {A : Type 0} → (ClientStore F32 → ClientStore F32 × A) → Session A
    ask_store operation w =
        let (store, answer) = operation (env.others w.uses w.store) in
        (value answer, record w { store = store; uses = suc w.uses })

    abbrev pub look : {A : Type 0} → (ClientStore F32 → A) → Session A
    look question = ask_store (λ s. (s, question s))

    -- `requestMatch`: its result, if there ever is one.
    unfoldable pub request_match : Str → Session (Option Bool)
    request_match username =
        if env.request_written
        then (do write_peer (username ++ bytes "\n"); pure (accepts env.reply))
        else pure (some false)

    unfoldable pub awaiting : ℕ → Session (Unit {0})
    awaiting zero = pure tt
    awaiting (suc n) = write_client (bytes "AWAITING_REQ\n") >> awaiting n

    unfoldable pub dial_peer : Str → Str → Str → Session (Str × Str)
    dial_peer username req_user req_user_ip = do
      check (env.dial (req_user_ip ++ bytes ":3001")) dial_failed
      pure (username, req_user)

    unfoldable pub find_peer : Str → Str → Session (Str × Str)
    unfolding locate dial_peer
    find_peer username req_user = do
      write_client (bytes "ACK\n")
      peer ← look (λ s. read_by_username s req_user)
      req_user_ip ← locate peer
      dial_peer username req_user req_user_ip

    -- From the connection to the dial of the other client: the two usernames.
    unfoldable pub open_request : Session (Str × Str)
    unfolding authorize want find_peer
    open_request = do
      found ← look (λ s. read s (client_ip env.remote_addr))
      username ← authorize found
      req_user ← want (get_requested_username env.first_read)
      find_peer username req_user

    -- The turn of the loop that finds a result; without one the loop goes on for ever.
    unfoldable pub take_result : Option Bool → Session (Unit {0})
    take_result none = fail still_waiting
    take_result (some true) = write_client (bytes "REQ_ACCEPTED\n")
    take_result (some false) = write_client (bytes "USER_NOT_FOUND\n")

    -- The request to the other client, and the lines that the first reads meanwhile.
    unfoldable pub await_reply : Str → Session (Unit {0})
    unfolding take_result
    await_reply username = do
      result ← request_match username
      write_client (bytes "REQ_SENT\n")
      awaiting env.waits
      take_result result

    unfoldable pub server_error : {A : Type 0} → Stop → Session A
    server_error stop = do
      write_client (bytes "SERVER_ERROR\n")
      write_peer (bytes "SERVER_ERROR\n")
      fail stop

    -- What follows the choice of a server, a panic of which would be one here.
    unfoldable pub place : Str → Str → Option (Result MatchError Str) → Session (Unit {0})
    place username req_user none = crash
    place username req_user (some (err _)) = server_error no_server
    place username req_user (some (ok server_ip)) = do
      room_id ← or_panic (generate_room_id env.current_time env.random_bytes)
      write_client (room_response server_ip room_id)
      write_peer (room_response server_ip room_id)
      ask_store (λ s. insert_chat_instance env.grow s room_id server_ip (username ∷ req_user ∷ []))
      pure tt

    unfoldable pub choose :
        Str → Str → Result StoreError (Map F32) → Result StoreError (Map F32) → Session (Unit {0})
    unfolding place
    choose username req_user (err _) client2_delay = server_error no_delays
    choose username req_user (ok client1_delay) (err _) = server_error no_delays
    choose username req_user (ok client1_delay) (ok client2_delay) =
        place username req_user (compute_optimal_server fl client1_delay client2_delay env.intn)

    -- The rest of `handleConnection`: the choice of a server, the response to both, the instance.
    unfoldable pub assign_room : Str → Str → Session (Unit {0})
    unfolding choose
    assign_room username req_user = do
      client1_delay ← look (λ s. get_delay_list s username)
      client2_delay ← look (λ s. get_delay_list s req_user)
      choose username req_user client1_delay client2_delay

    unfoldable pub handle_connection : Session (Unit {0})
    handle_connection = do
      (username, req_user) ← open_request
      await_reply username
      assign_room username req_user
