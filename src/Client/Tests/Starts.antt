-- ===== src/Client/Tests/Starts.antt =====
-- The start of the client and of its chats on concrete inputs.
use distributed_matchmaking.Client.Startup.Reporting.{reported, get_delay_list-update_server_delays}
use distributed_matchmaking.Central.ClientStore.{get_in_memory_store, get_delay_list}
use distributed_matchmaking.Base.{
  Map, ◌==◌, ok, ℕ, ◌≡◌, refl, List, [], ◌∷◌, Str, Lacks, bytes, Option, some, none, Bool, true,
  lookup, trim_space, if◌then◌else◌, member,
}
use distributed_matchmaking.Client.Chat.{ChatState, room_line, start_chat, follow}
use distributed_matchmaking.Client.Chat.Redirects.{Keeps, Joins, IsPlain, reached, start_chat-Keeps}
use distributed_matchmaking.Client.Startup.{
  Response, register, initialize, startup, delay_of, update_server_delays,
}
use distributed_matchmaking.Client.Requests.{message_request_listener}
use distributed_matchmaking.Client.Requests.Inbox.{Readable}
use distributed_matchmaking.Client.Startup.Reports.{IsRefused, startup-continues}

abbrev ann : ChatState
ann = record {
  user_name = bytes "ann";
  current_chat_conn = none;
  current_chat_server = [];
  current_room_id = [];
  written = [];
}

abbrev answered : Str → Option ℕ
answered address = some 7

-- A redirection that is followed, and one whose read fails.
abbrev moves : List (Option Str × Bool)
moves = (some (bytes "s2\n"), true) ∷ (none, true) ∷ []

ann-IsPlain : IsPlain (bytes "ann") (bytes "r1")
unfolding IsPlain Lacks trim_space room_line
ann-IsPlain = ((refl, (refl, (refl, tt))), (refl, (refl, (refl, tt))), (refl, (refl, tt)), refl)

start_chat-Keeps_example :
    Keeps
      (record ann { current_room_id = bytes "r1" })
      (7 ∷ reached answered moves)
      (follow answered moves (start_chat answered true true (bytes "s1") (bytes "r1") ann).0)
    × Joins (bytes "ann") (bytes "r1") (room_line (bytes "ann") (bytes "r1"))
start_chat-Keeps_example =
    start_chat-Keeps answered true (bytes "s1") (bytes "r1") ann 7 moves refl ann-IsPlain

-- Central cannot be reached.
abbrev unanswered : Str → Str → Option Response
unanswered url payload = none

startup-continues_example :
    startup 2
      (register (λ name. some name) unanswered (bytes "http://c") (bytes "ann"))
      5
      (initialize {F = ℕ} 9
        (message_request_listener true (some (4, some (bytes "bob")) ∷ []) [])
        none
        []).2
    ≡ some true
unfolding Readable
startup-continues_example =
    startup-continues 2 5 (λ name. some name) unanswered (bytes "http://c") (bytes "ann")
      (bytes "ann") 9 (some (4, some (bytes "bob")) ∷ []) [] none [] refl
      (unfold IsRefused in λ h. h) (tt, tt)

-- The first of two reports is lost.
get_delay_list-update_server_delays_example :
    let reports = (update_server_delays 9 answered (some (bytes "s1" ∷ bytes "s2" ∷ [])) []).1 in
    (delays : Map ℕ) × (get_delay_list
        (reported get_in_memory_store (λ n. n == 0) (bytes "ann") reports)
        (bytes "ann")
      ≡ ok delays)
    × (lookup (bytes "s2") delays ≡ (
        if member (bytes "s2") (bytes "s1" ∷ bytes "s2" ∷ [])
        then some (delay_of 9 answered (bytes "s2"))
        else none))
get_delay_list-update_server_delays_example =
    get_delay_list-update_server_delays 9 answered (λ n. n == 0) (bytes "ann") (bytes "s2")
      (bytes "s1") (bytes "s2" ∷ []) [] get_in_memory_store refl
