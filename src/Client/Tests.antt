-- ===== src/Client/Tests.antt =====
-- The client on concrete inputs.
mod Pages
mod Starts
use distributed_matchmaking.Base.{
  joined, ◌≡◌, refl, List, [], ◌∷◌, ◌++◌, All, Str, Lacks, concat, bytes, some, true, map, lookup,
  str_eq, arith,
}
use distributed_matchmaking.Base.Actions.{value, panic}
use distributed_matchmaking.Central.Matchmaking.Session.{room_response}
use distributed_matchmaking.Client.Requests.{
  matchmaking_statuses, accept_response, accept_message_request, without_prefix, split_first,
  accept_room, accept_tokens,
}
use distributed_matchmaking.Client.Requests.Responses.{
  concat_lines, accept_message_request-room_response, matchmaking_statuses-joined,
}
use distributed_matchmaking.Client.Runes.{decode_rune, two_bytes}
use distributed_matchmaking.Client.Messages.{newline, split_loop, split_messages, receive_messages}
use distributed_matchmaking.Client.Messages.Streams.{
  split_messages_lem, receive_messages-split_messages,
}

-- One message and a half.
abbrev stream : Str
stream = 104 ∷ 105 ∷ 10 ∷ 104 ∷ []

-- A delimiter of two bytes leaves its second byte in front of the next part.
splits_in_rune :
    split_messages (0x61 ∷ 0xC3 ∷ 0xA9 ∷ 0x62 ∷ []) 0xE9 ≡ ((0x61 ∷ []) ∷ [], 0xA9 ∷ 0x62 ∷ [])
unfolding split_messages split_loop decode_rune two_bytes
splits_in_rune = refl

splits : split_messages stream newline ≡ ((104 ∷ 105 ∷ []) ∷ [], 104 ∷ [])
unfolding split_messages split_loop decode_rune
splits = refl

split_messages_lem_example :
    (joined newline (split_messages stream newline).0 ++ (split_messages stream newline).1 ≡ stream)
    × All (Lacks newline) (split_messages stream newline).0
    × Lacks newline (split_messages stream newline).1
split_messages_lem_example = split_messages_lem newline stream (omega arith)

-- The chunk ends in the middle of the first message.
receive_messages-split_messages_example :
    receive_messages (104 ∷ []) ((105 ∷ []) ∷ (10 ∷ 104 ∷ []) ∷ [])
    ≡ split_messages (104 ∷ concat ((105 ∷ []) ∷ (10 ∷ 104 ∷ []) ∷ [])) newline
receive_messages-split_messages_example =
    receive_messages-split_messages (104 ∷ []) ((105 ∷ []) ∷ (10 ∷ 104 ∷ []) ∷ [])
      (unfold Lacks in (refl, tt))

-- A response cut short before its second line: the index of the room panics.
response_cut_short : accept_response (bytes "IP:s1") ≡ panic
unfolding accept_response without_prefix split_first accept_tokens accept_room
response_cut_short = refl
