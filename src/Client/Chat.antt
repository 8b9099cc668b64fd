-- ===== src/Client/Chat.antt =====
-- The chat connection of Client/client/client.go: `StartChat` up to its loop, the redirection that
-- its loop takes, and `SendMessage`. A connection is a number; `written` is what has been written,
-- in order. What `net.Dial`, `net.Listen` and the connections answer are arguments.
pub mod Redirects
use distributed_matchmaking.Base.{
  ℕ, List, [], ◌∷◌, ◌++◌, Option, some, none, Bool, true, false, if◌then◌else◌, Str, bytes,
}
use distributed_matchmaking.Client.Runner.{trim_suffix}

-- The fields of `Client` for the chat; `nil` is `none`.
pub record ChatState : Type 0 where
  pub user_name : Str
  pub current_chat_conn : Option ℕ
  pub current_chat_server : Str
  pub current_room_id : Str
  pub written : List (ℕ × Str)

-- `fmt.Sprintf("%s#%s\n", c.UserName, roomId)`
unfoldable pub room_line : Str → Str → Str
room_line user_name room_id = user_name ++ (0x23 ∷ (room_id ++ 0x0A ∷ []))

abbrev pub write_conn : ℕ → Str → ChatState → ChatState
write_conn conn text s = record s { written = s.written ++ (conn, text) ∷ [] }

-- A failing write is only printed.
unfoldable pub send_message : Str → ChatState → ChatState
send_message message s = elim s.current_chat_conn [
  | none ↦ s
  | some conn ↦ write_conn conn (message ++ 0x0A ∷ []) s
]

-- The connection that `StartChat` or its loop takes over.
abbrev pub connect : ℕ → Str → ChatState → ChatState
connect conn server_address s = record s {
  current_chat_conn = some conn;
  current_chat_server = server_address;
}

-- `StartChat` with the answer of its dial.
unfoldable pub open_chat :
    Option ℕ → Bool → Bool → Str → Str → ChatState → ChatState × List Str × Bool
unfolding room_line
open_chat none can_write can_listen server_address room_id s = (s, [], false)
open_chat (some conn) can_write can_listen server_address room_id s =
    let joined = record (connect conn server_address s) { current_room_id = room_id } in
    let told = write_conn conn (room_line s.user_name room_id) joined in
    if can_write
    then (if can_listen
        then (told, bytes "START_CHAT" ∷ [], true)
        else (told, bytes "START_CHAT" ∷ bytes "FAILED" ∷ [], false))
    else (joined, [], false)

-- `StartChat` up to its goroutines: what it sends on the channel, and whether it starts them.
unfoldable pub start_chat :
    (Str → Option ℕ) → Bool → Bool → Str → Str → ChatState → ChatState × List Str × Bool
unfolding open_chat
start_chat dial can_write can_listen server_address room_id s =
    open_chat (dial (server_address ++ bytes ":3002")) can_write can_listen server_address room_id s

-- The new server, with the answer of its dial.
unfoldable pub reconnect : Option ℕ → Bool → Str → ChatState → ChatState
unfolding room_line
reconnect none can_write new_server_address s = s
reconnect (some new_conn) can_write new_server_address s =
    let moved = connect new_conn new_server_address s in
    if can_write then write_conn new_conn (room_line s.user_name s.current_room_id) moved else moved

-- A connection on `connChan`: what is read from it is the address of another server. A failing
-- write is only printed.
unfoldable pub redirect : (Str → Option ℕ) → Option Str → Bool → ChatState → ChatState
unfolding reconnect trim_suffix
redirect dial none can_write s = s
redirect dial (some buf) can_write s =
    let new_server_address = trim_suffix (0x0A ∷ []) buf in
    reconnect (dial (new_server_address ++ bytes ":3002")) can_write new_server_address s

-- The redirections of the loop, one after the other: what each connection sends, and whether the
-- first write to the new server succeeds.
unfoldable pub follow : (Str → Option ℕ) → List (Option Str × Bool) → ChatState → ChatState
unfolding redirect
follow dial [] s = s
follow dial ((buf, can_write) ∷ more) s = follow dial more (redirect dial buf can_write s)
