-- ===== src/Client/Requests/Responses.antt =====
-- Central's responses (Central/internal/matchmaking) as the client reads them.
use distributed_matchmaking.Base.{
  joined, ℕ, ◌≡◌, ◌≢◌, refl, ◌∙◌, ap, List, [], ◌∷◌, map, ◌++◌, some, true, arith, Str, bytes, All,
  Lacks, Map, lookup,
}
use distributed_matchmaking.Base.Actions.{value}
use distributed_matchmaking.Client.Messages.{newline}
use distributed_matchmaking.Client.Requests.{
  split_first, split, non_empty, matchmaking_statuses, without_prefix, accept_room, accept_tokens,
  accept_response, accept_message_request,
}
use distributed_matchmaking.Central.Matchmaking.Session.{room_response}

split_first_lem :
    (d : ℕ) (xs ys : Str)
    → Lacks d xs
    → split_first d (xs ++ d ∷ ys) ≡ (xs, (split_first d ys).0 ∷ (split_first d ys).1)
unfolding split_first Lacks
split_first_lem d [] ys h = ground arith
split_first_lem d (x ∷ xs) ys (miss, h) = rw (miss, split_first, split_first_lem d xs ys h)

response_tokens :
    (server room : Str)
    → Lacks newline server
    → Lacks newline room
    → split_first newline (room_response server room)
      ≡ (bytes "IP:" ++ server, (bytes "RoomID:" ++ room) ∷ [] ∷ [])
unfolding room_response Lacks
response_tokens server room hs hr =
    let room_part =
      split_first_lem newline (bytes "RoomID:" ++ room) []
        (unfold Lacks in (refl, (refl, (refl, (refl, (refl, (refl, (refl, hr)))))))) in
    split_first_lem newline (bytes "IP:" ++ server) ((bytes "RoomID:" ++ room) ++ newline ∷ [])
      (unfold Lacks in (refl, (refl, (refl, hs))))
    ∙ rw room_part (unfold split_first in refl)

starts :
    (server room : Str)
    → accept_response (room_response server room)
      ≡ accept_tokens (split_first newline (room_response server room))
unfolding accept_response room_response without_prefix
starts server room = refl

accept_response-room_response :
    (server room : Str)
    → Lacks newline server
    → Lacks newline room
    → accept_response (room_response server room) ≡ value (server ∷ room ∷ [])
accept_response-room_response server room hs hr =
    starts server room
    ∙ ap accept_tokens (response_tokens server room hs hr)
    ∙ unfold accept_tokens without_prefix accept_room in refl

-- From the response of Central about a server and a room, neither with a newline in its name, the
-- client that was asked and accepts gets exactly these two, whoever asked it.
pub accept_message_request-room_response :
    (chat_requests : Map ℕ) (username server room : Str) (conn : ℕ)
    → lookup username chat_requests ≡ some conn
    → Lacks newline server
    → Lacks newline room
    → accept_message_request chat_requests username true (some (room_response server room))
      ≡ value (bytes "ACCEPT_REQ" ∷ server ∷ room ∷ [])
unfolding accept_message_request
accept_message_request-room_response chat_requests username server room conn known hs hr =
    rw (known, accept_message_request, accept_response-room_response server room hs hr)

unfoldable pub concat_lines : List (List Str) → List Str
concat_lines [] = []
concat_lines (lines ∷ reads) = lines ++ concat_lines reads

non_empty-split :
    (line ys : Str)
    → Lacks newline line
    → line ≢ []
    → non_empty (split newline (line ++ newline ∷ ys)) ≡ line ∷ non_empty (split newline ys)
unfolding split
non_empty-split [] ys h k = absurd (k refl)
non_empty-split (c ∷ cs) ys h k =
    rw (split_first_lem newline (c ∷ cs) ys h) (unfold non_empty in refl)

non_empty_lines :
    (lines : List Str)
    → All (Lacks newline) lines
    → All (λ line. line ≢ []) lines
    → non_empty (split newline (joined newline lines)) ≡ lines
unfolding joined
non_empty_lines [] h k = unfold split split_first non_empty in refl
non_empty_lines (line ∷ lines) (h, hs) (k, ks) =
    non_empty-split line (joined newline lines) h k
    ∙ ap (λ rest. line ∷ rest) (non_empty_lines lines hs ks)

-- If every read of the asking client returns whole lines, none of them empty, then the statuses
-- that it passes on are these lines in order.
pub matchmaking_statuses-joined :
    (reads : List (List Str))
    → All (All (Lacks newline)) reads
    → All (All (λ line. line ≢ [])) reads
    → matchmaking_statuses (map (joined newline) reads) ≡ concat_lines reads
unfolding matchmaking_statuses
matchmaking_statuses-joined [] h k = unfold concat_lines in refl
matchmaking_statuses-joined (lines ∷ reads) (h, hs) (k, ks) =
    rw (non_empty_lines lines h k, matchmaking_statuses-joined reads hs ks)
      (unfold concat_lines in refl)
