-- ===== src/Client/Runner/Pages.antt =====
-- The other goroutines of Client/runner/client_runner.go: `acceptChatRequest`, `chatPage`, the
-- list of `beginChatRequestPage` and the loading bar of `startup`.
use distributed_matchmaking.Base.{
  ℕ, suc, List, [], ◌∷◌, ◌++◌, some, none, Bool, true, false, ltb, if◌then◌else◌, Str, bytes,
  str_eq, Result, ok, err, and_then, Map, keys, map,
}
use distributed_matchmaking.Client.Requests.{without_prefix}
use distributed_matchmaking.Client.Runner.{Panic, send_on_closed_channel}

-- Where the goroutine of `acceptChatRequest` stands; the last two have closed the channel.
pub data AcceptPhase : Type 0 where
  accepting awaiting_matchmaking back_on_menu : AcceptPhase
  awaiting_room_id : (response : Str) → AcceptPhase
  joining : (response room_id : Str) → AcceptPhase

-- `view` is what `textView` shows.
pub record Acceptance : Type 0 where
  pub phase : AcceptPhase
  pub text : Str
  pub view : Str

unfoldable pub begin_acceptance : Str → Acceptance
begin_acceptance username =
    let text = bytes "Accepting request from " ++ (username ++ bytes "... ") in
    record { phase = accepting; text = text; view = text }

abbrev pub show_and_leave : Str → Acceptance → Acceptance
show_and_leave message a = record a { phase = back_on_menu; view = message }

abbrev pub no_server_message : Str
no_server_message = bytes "[red]Failed to connect to server! Please try again later."

abbrev pub append_text : AcceptPhase → Str → Acceptance → Acceptance
append_text phase more a = record a { phase = phase; text = a.text ++ more; view = a.text ++ more }

-- The goroutine of `acceptChatRequest` on the next status: where it stands first.
unfoldable pub accept_status : Str → AcceptPhase → Str → Acceptance → Result Panic Acceptance
accept_status username accepting response a = ok (
    if str_eq response (bytes "ACCEPT_REQ")
    then append_text awaiting_matchmaking
        (bytes "[green]Accepted![white]\nAwaiting for server matchmaking...") a
    else show_and_leave
        (bytes "[red]Chat request declined! [red]You cannot chat with "
          ++ (username ++ bytes "[white]"))
        a)
accept_status username awaiting_matchmaking response a = ok (
    if str_eq response (bytes "SERVER_ERROR")
    then show_and_leave no_server_message a
    else record a { phase = awaiting_room_id response })
accept_status username (awaiting_room_id response) room_id a = ok (
    if str_eq room_id (bytes "SERVER_ERROR")
    then show_and_leave no_server_message a
    else append_text (joining response room_id)
        (bytes "[green]Connected![white]\nJoining chat server on " ++ response) a)
accept_status username back_on_menu status a = err send_on_closed_channel
accept_status username (joining response room_id) status a = err send_on_closed_channel

-- The goroutine over the statuses that `AcceptMessageRequest` sends it.
unfoldable pub accept_chat_request : Str → List Str → Acceptance → Result Panic Acceptance
unfolding accept_status
accept_chat_request username [] a = ok a
accept_chat_request username (status ∷ statuses) a =
    and_then (accept_chat_request username statuses) (accept_status username a.phase status a)

-- The texts of the items of `beginChatRequestPage` for requests.
unfoldable pub request_items : Map ℕ → List Str
request_items chat_requests =
    map (λ username. bytes "Chat Request from: " ++ username) (keys chat_requests)

-- `strings.HasPrefix`
unfoldable pub has_prefix : Str → Str → Bool
unfolding without_prefix
has_prefix prefix s = elim (without_prefix prefix s) [ none ↦ false | some rest ↦ true ]

-- The line that the listening goroutine of `chatPage` adds for a message.
unfoldable pub shown_line : Str → Str → Str
unfolding has_prefix
shown_line user_name server_message =
    (if has_prefix user_name server_message then bytes "[yellow]" else bytes "[green]")
    ++ (server_message ++ bytes "[white]\n")

-- What the chat view shows after some messages.
unfoldable pub chat_text : Str → Str → List Str → Str
unfolding shown_line
chat_text user_name text [] = text
chat_text user_name text (server_message ∷ messages) =
    chat_text user_name (text ++ shown_line user_name server_message) messages

-- `chatPage` over what `StartChat` sends on the channel: it waits, is back on the menu with the
-- channel closed, or shows the chat.
pub data ChatPage : Type 0 where
  waiting back : ChatPage
  shows : (text : Str) → ChatPage

unfoldable pub chat_page : Str → List Str → Result Panic ChatPage
unfolding chat_text
chat_page user_name [] = ok waiting
chat_page user_name (start ∷ messages) =
    if str_eq start (bytes "START_CHAT")
    then ok (shows (chat_text user_name [] messages))
    else elim messages [ [] ↦ ok back | _ ∷ _ ↦ err send_on_closed_channel ]

-- What a receive on `resultChan` finds at a turn of the loop.
pub data Event : Type 0 where
  nothing_yet closed : Event
  received : (is_error : Bool) → Event

-- `showLoadingBarWithInitialization`: the dots that it shows, and its return or `os.Exit(1)`.
pub data Loading : Type 0 where
  still_loading returned_nil exited : Loading

unfoldable pub more_dots : ℕ → ℕ
more_dots dots = if ltb 3 (suc dots) then 1 else suc dots

unfoldable pub show_loading_bar : ℕ → List Event → ℕ × Loading
unfolding more_dots
show_loading_bar dots [] = (dots, still_loading)
show_loading_bar dots (nothing_yet ∷ events) = show_loading_bar (more_dots dots) events
show_loading_bar dots (received is_error ∷ events) = (dots, returned_nil)
show_loading_bar dots (closed ∷ events) = (dots, exited)
