-- ===== src/Client/Tests/Pages.antt =====
-- The pages of the client on concrete inputs.
use distributed_matchmaking.Base.{
  ◌≡◌, refl, List, [], ◌∷◌, Str, Lacks, concat, bytes, some, true, lookup, str_eq, arith, ok,
}
use distributed_matchmaking.Base.Actions.{value}
use distributed_matchmaking.Central.Matchmaking.Session.{room_response}
use distributed_matchmaking.Server.Chat.{chat_line}
use distributed_matchmaking.Client.Messages.{receive_messages}
use distributed_matchmaking.Client.Requests.{accept_message_request}
use distributed_matchmaking.Client.Runner.{
  awaiting_response, Matchmaking, begin_matchmaking, start_matchmaking,
}
use distributed_matchmaking.Client.Runner.Pages.{
  begin_acceptance, accept_chat_request, shows, chat_page,
}
use distributed_matchmaking.Client.Runner.Waiting.{
  Sound, start_matchmaking-Sound, StillWaiting, start_matchmaking-StillWaiting,
}
use distributed_matchmaking.Client.Runner.Acceptances.{Joined, accept_chat_request-room_response}
use distributed_matchmaking.Client.Runner.Conversations.{
  Said, broadcasts, conversation, chat_page-conversation,
}

-- A wait that is longer than the dots, and a second acceptance.
abbrev long_wait : List Str
long_wait =
    bytes "ACK"
    ∷ bytes "REQ_SENT"
    ∷ bytes "AWAITING_REQ"
    ∷ bytes "AWAITING_REQ"
    ∷ bytes "AWAITING_REQ"
    ∷ bytes "AWAITING_REQ"
    ∷ bytes "AWAITING_REQ"
    ∷ bytes "AWAITING_REQ"
    ∷ bytes "AWAITING_REQ"
    ∷ bytes "REQ_ACCEPTED"
    ∷ []

start_matchmaking-Sound_example :
    Sound (start_matchmaking (bytes "bob") long_wait begin_matchmaking)
start_matchmaking-Sound_example =
    start_matchmaking-Sound (bytes "bob") long_wait begin_matchmaking
      (unfold begin_matchmaking in omega arith)

-- In the loop, at the last of the dots.
abbrev at_last_dots : Matchmaking
at_last_dots = record {
  phase = awaiting_response;
  text = bytes "Sent!";
  view = bytes "Sent!";
  dot_idx = 5;
}

abbrev refusal : List Str
refusal = bytes "AWAITING_REQ" ∷ bytes "USER_NOT_FOUND" ∷ bytes "IP:s1" ∷ bytes "RoomID:r1" ∷ []

start_matchmaking-StillWaiting_example :
    StillWaiting (bytes "Sent!") (start_matchmaking (bytes "bob") refusal at_last_dots)
start_matchmaking-StillWaiting_example =
    start_matchmaking-StillWaiting (bytes "bob") refusal at_last_dots
      (unfold str_eq in ((refl, refl), ((refl, refl), ((refl, refl), ((refl, refl), tt))))) refl
      (omega arith)

accept_chat_request-room_response_example :
    (accept_message_request
        ((bytes "ann\n", 4) ∷ [])
        (bytes "ann\n")
        true
        (some (room_response (bytes "s1") (bytes "r1")))
      ≡ value (bytes "ACCEPT_REQ" ∷ bytes "s1" ∷ bytes "r1" ∷ []))
    × Joined (bytes "s1") (bytes "r1") (
        accept_chat_request
          (bytes "ann\n")
          (bytes "ACCEPT_REQ" ∷ bytes "s1" ∷ bytes "r1" ∷ [])
          (begin_acceptance (bytes "ann\n")))
accept_chat_request-room_response_example =
    accept_chat_request-room_response ((bytes "ann\n", 4) ∷ []) (bytes "ann\n") (bytes "s1")
      (bytes "r1") 4 (unfold lookup str_eq in refl) (unfold Lacks in (refl, (refl, tt)))
      (unfold Lacks in (refl, (refl, tt))) (unfold str_eq in refl) (unfold str_eq in refl)

abbrev greetings : List Said
greetings = (bytes "ann", bytes "hi") ∷ (bytes "bob", []) ∷ []

-- The second chunk starts in the middle of the first line.
abbrev cut_up : List Str
cut_up = bytes "an" ∷ bytes "n: hi\n\nbob: \n\n" ∷ []

cut_up-broadcasts : concat cut_up ≡ concat (broadcasts greetings)
unfolding concat broadcasts chat_line
cut_up-broadcasts = refl

chat_page-conversation_example :
    (chat_page (bytes "ann") (bytes "START_CHAT" ∷ (receive_messages [] cut_up).0)
      ≡ ok (shows (conversation (bytes "ann") greetings)))
    × ((receive_messages [] cut_up).1 ≡ [])
chat_page-conversation_example =
    chat_page-conversation (bytes "ann") greetings cut_up
      (unfold Lacks in
        (((refl, (refl, (refl, tt))), (refl, (refl, tt))), (((refl, (refl, (refl, tt))), tt), tt)))
      cut_up-broadcasts
