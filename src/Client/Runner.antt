-- ===== src/Client/Runner.antt =====
-- Client/runner/client_runner.go: what the goroutines behind the pages make of what they receive.
-- A goroutine that waits for a channel is a state between two messages; the widgets are what they
-- show.
pub mod Waiting
pub mod Pages
pub mod Steps
pub mod Sessions
pub mod Conversations
pub mod Acceptances
use distributed_matchmaking.Base.{
  ℕ, suc, ◌+◌, ◌-◌, List, [], ◌∷◌, ◌++◌, Option, some, none, true, false, leb, ◌==◌, ◌&&◌,
  if◌then◌else◌, Str, bytes, str_eq, Result, ok, err, and_then, take, drop, length, get_elem?,
}
use distributed_matchmaking.Client.Requests.{without_prefix}

-- `strings.TrimSuffix`
unfoldable pub trim_suffix : Str → Str → Str
trim_suffix suffix s =
    let front = length s - length suffix in
    if leb (length suffix) (length s) && str_eq (drop front s) suffix then take front s else s

pub data Panic : Type 0 where
  index_out_of_range slice_out_of_range send_on_closed_channel : Panic

-- Where the goroutine of `startMatchMaking` stands. It has closed the channel in the last two: back
-- on the menu, or with `chatPage` started for a server and a room.
pub data Phase : Type 0 where
  awaiting_ack awaiting_sent awaiting_response awaiting_server gave_up : Phase
  awaiting_room : (server_address : Str) → Phase
  joined : (server_address room_id : Str) → Phase

-- `view` is what `textView` shows.
pub record Matchmaking : Type 0 where
  pub phase : Phase
  pub text : Str
  pub view : Str
  pub dot_idx : ℕ

unfoldable pub begin_matchmaking : Matchmaking
begin_matchmaking = record {
  phase = awaiting_ack;
  text = bytes "Waiting for server...";
  view = bytes "Waiting for server...";
  dot_idx = 0;
}

abbrev pub say : Phase → Str → Matchmaking → Matchmaking
say phase more m = record m { phase = phase; text = m.text ++ more; view = m.text ++ more }

abbrev pub give_up : Str → Matchmaking → Matchmaking
give_up message m = record m { phase = gave_up; view = message }

abbrev pub dots : List Str
dots = bytes "." ∷ bytes ".." ∷ bytes "..." ∷ bytes "...." ∷ bytes "....." ∷ bytes "......" ∷ []

-- `dotIdx++`, and back to 0 at the end of the dots.
unfoldable pub next_dot : ℕ → ℕ
next_dot dot_idx = if suc dot_idx == length dots then 0 else suc dot_idx

-- The case of `AWAITING_REQ` with the dots in hand: the line is shown, and cut off the text again.
unfoldable pub show_dots : Option Str → Matchmaking → Result Panic Matchmaking
unfolding next_dot
show_dots none m = err index_out_of_range
show_dots (some dot) m =
    let loading_text = bytes "Awaiting response" ++ dot in
    let text = m.text ++ loading_text in
    if leb (length loading_text) (length text)
    then ok (record m {
      text = take (length text - length loading_text) text;
      view = text;
      dot_idx = next_dot m.dot_idx;
    })
    else err slice_out_of_range

abbrev pub failed_to_connect : Str
failed_to_connect = bytes "Failed to connect to server! [red]Please try again later[white]"

-- A status in the loop that waits for the other client.
unfoldable pub take_response : Str → Matchmaking → Result Panic Matchmaking
unfolding show_dots
take_response chat_accepted m =
    if str_eq chat_accepted (bytes "REQ_ACCEPTED")
    then ok (
        say awaiting_server (bytes "Awaiting response... [green]Chat request accepted![white]\n") m)
    else if str_eq chat_accepted (bytes "SERVER_ERROR")
    then ok
        (say awaiting_server (bytes "Awaiting response... [red]Chat request declined![white]\n") m)
    else if str_eq chat_accepted (bytes "AWAITING_REQ")
    then show_dots (get_elem? dots m.dot_idx) m
    else ok (record m {
      view =
          bytes "I HAVE NO IDEA WHAT JUST HAPPENED, here's what the server sent back: "
          ++ chat_accepted;
    })

unfoldable pub take_server : Str → Matchmaking → Matchmaking
unfolding without_prefix
take_server server m =
    if str_eq server (bytes "SERVER_ERROR")
    then give_up failed_to_connect m
    else elim (without_prefix (bytes "IP:") server) [
      | none ↦ give_up failed_to_connect m
      | some server_address ↦ record m { phase = awaiting_room server_address }
    ]

unfoldable pub take_room : Str → Str → Matchmaking → Matchmaking
unfolding without_prefix trim_suffix
take_room server_address room_id m =
    if str_eq room_id (bytes "SERVER_ERROR")
    then give_up failed_to_connect m
    else elim (without_prefix (bytes "RoomID:") room_id) [
      | none ↦ give_up failed_to_connect m
      | some room ↦
          say (joined server_address (trim_suffix (bytes "\n") room))
            (bytes "Connecting to chat server on " ++ server_address) m
    ]

-- The goroutine of `startMatchMaking` on the next status: where it stands first.
unfoldable pub take_status : Str → Phase → Str → Matchmaking → Result Panic Matchmaking
unfolding take_response take_server take_room
take_status username awaiting_ack response m = ok (
    if str_eq response (bytes "ACK")
    then say awaiting_sent
        (bytes " [green]Connected![white]\n"
          ++ (bytes "Sending chat request to " ++ (username ++ bytes "...")))
        m
    else give_up (bytes "Failed to connect to server! [red]Please try again later") m)
take_status username awaiting_sent response m = ok (
    if str_eq response (bytes "REQ_SENT")
    then say awaiting_response (bytes " [green]Sent![white]\n") m
    else give_up
        (bytes "[red] Failed to send chat request to "
          ++ (username ++ bytes "! Please try again later"))
        m)
take_status username awaiting_response response m = take_response response m
take_status username awaiting_server response m = ok (take_server response m)
take_status username (awaiting_room server_address) response m =
    ok (take_room server_address response m)
take_status username gave_up response m = err send_on_closed_channel
take_status username (joined server_address room_id) response m = err send_on_closed_channel

-- The goroutine over the statuses that `StartMatchmaking` sends it, until one panics.
unfoldable pub start_matchmaking : Str → List Str → Matchmaking → Result Panic Matchmaking
unfolding take_status
start_matchmaking username [] m = ok m
start_matchmaking username (status ∷ statuses) m =
    and_then (start_matchmaking username statuses) (take_status username m.phase status m)
