-- ===== src/Client/Chat/Redirects.antt =====
-- The redirections of a chat of Client/client/client.go, and what a chat server makes of them.
use distributed_matchmaking.Base.{
  ℕ, ◌==◌, ◌≡◌, refl, sym, ap, ◌∙◌, List, [], ◌∷◌, map, ◌++◌, Option, some, none, Bool, true, false,
  Str, bytes, All-append, Lacks, concat, trim_space,
}
use distributed_matchmaking.Client.Chat.{
  ChatState, room_line, open_chat, start_chat, reconnect, redirect, follow,
}
use distributed_matchmaking.Client.Runner.{trim_suffix}
use mathlib.Core.List.{append_assoc, append-nil, map-append}
use distributed_matchmaking.Server.Chat.{join, listen, handle_client}
use distributed_matchmaking.Server.Chat.Lines.{handle_client_line}

-- A chat server that reads the text first takes the client into the room under the name.
unfoldable pub Joins : Str → Str → Str → Type 0
Joins user_name room_id text =
    (conn : ℕ) (chunks : List Str)
    → handle_client conn (text ∷ chunks) ≡ join conn room_id ∷ listen user_name room_id chunks

-- The name and the room are kept, and what is written since is the line that names both, once on
-- each of some connections.
unfoldable pub Keeps : ChatState → List ℕ → ChatState → Type 0
Keeps s conns s' =
    (s'.user_name ≡ s.user_name)
    × (s'.current_room_id ≡ s.current_room_id)
    × (s'.written
        ≡ s.written ++ map (λ conn. (conn, room_line s.user_name s.current_room_id)) conns)

-- The servers to which redirections lead: of those that say an address, for which the dial and the
-- first write succeed.
unfoldable pub reached : (Str → Option ℕ) → List (Option Str × Bool) → List ℕ
reached dial [] = []
reached dial ((none, can_write) ∷ more) = reached dial more
reached dial ((some buf, false) ∷ more) = reached dial more
reached dial ((some buf, true) ∷ more) =
    elim (dial (trim_suffix (0x0A ∷ []) buf ++ bytes ":3002")) [
      | none ↦ reached dial more
      | some conn ↦ conn ∷ reached dial more
    ]

-- A name and a room that come through the first line of a chat.
unfoldable pub IsPlain : Str → Str → Type 0
IsPlain user_name room_id =
    Lacks 0x0A user_name
    × Lacks 0x23 user_name
    × Lacks 0x0A room_id
    × (trim_space (room_line user_name room_id) ≡ user_name ++ 0x23 ∷ room_id)

-- The line is the name, `#`, the room and a newline.
room_line_text :
    (user_name room_id : Str)
    → room_line user_name room_id ≡ (user_name ++ 0x23 ∷ room_id) ++ 0x0A ∷ []
unfolding room_line
room_line_text user_name room_id = sym (append_assoc user_name (0x23 ∷ room_id) (0x0A ∷ []))

room_line-Joins :
    (user_name room_id : Str)
    → IsPlain user_name room_id
    → Joins user_name room_id (room_line user_name room_id)
unfolding Joins IsPlain
room_line-Joins user_name room_id (plain_name, no_hash, plain_room, trimmed) conn chunks =
    let last = user_name ++ 0x23 ∷ room_id in
    let whole = room_line_text user_name room_id in
    let plain_line : Lacks 0x0A last =
      unfold Lacks in
      All-append (λ c. (c == 0x0A) ≡ false) user_name (0x23 ∷ room_id)
        (plain_name, (refl, plain_room)) in
    ap (λ text. handle_client conn (text ∷ chunks)) whole
    ∙ handle_client_line conn user_name room_id [] last [] chunks tt plain_line no_hash
        (unfold concat in (ap trim_space (sym whole) ∙ trimmed))

Keeps-none : (s : ChatState) → Keeps s [] s
unfolding Keeps
Keeps-none s = (refl, refl, sym (append-nil s.written))

Keeps-then :
    (s t u : ChatState) (xs ys : List ℕ) → Keeps s xs t → Keeps t ys u → Keeps s (xs ++ ys) u
unfolding Keeps
Keeps-then s t u xs ys (n, r, w) (n', r', w') =
    let line = room_line s.user_name s.current_room_id in
    let said : ℕ → ℕ × Str = λ conn. (conn, line) in
    (
      n' ∙ n,
      r' ∙ r,
      w'
          ∙ rw (w, n, r) (append_assoc s.written (map said xs) (map said ys))
          ∙ ap (λ texts. s.written ++ texts) (sym (map-append said xs ys)),
    )

reconnected :
    (dial : Str → Option ℕ) (buf : Str) (more : List (Option Str × Bool)) (s : ChatState)
    (answer : Option ℕ)
    → dial (trim_suffix (0x0A ∷ []) buf ++ bytes ":3002") ≡ answer
    → ((t : ChatState) → Keeps t (reached dial more) (follow dial more t))
    → Keeps s
        (reached dial ((some buf, true) ∷ more))
        (follow dial more (reconnect answer true (trim_suffix (0x0A ∷ []) buf) s))
unfolding reached reconnect
reconnected dial buf more s none e rest = rw (e, reached) (rest s)
reconnected dial buf more s (some conn) e rest =
    let t = reconnect (some conn) true (trim_suffix (0x0A ∷ []) buf) s in
    rw (e, reached)
      (Keeps-then s t _ (conn ∷ []) (reached dial more) (unfold Keeps in (refl, refl, refl))
        (rest t))

quiet :
    (answer : Option ℕ) (address : Str) (s : ChatState)
    → Keeps s [] (reconnect answer false address s)
unfolding reconnect
quiet none address s = Keeps-none s
quiet (some conn) address s = unfold Keeps in (refl, refl, sym (append-nil s.written))

follow-Keeps :
    (dial : Str → Option ℕ) (redirections : List (Option Str × Bool)) (s : ChatState)
    → Keeps s (reached dial redirections) (follow dial redirections s)
unfolding follow redirect reached
follow-Keeps dial [] s = Keeps-none s
follow-Keeps dial ((none, can_write) ∷ more) s = follow-Keeps dial more s
follow-Keeps dial ((some buf, false) ∷ more) s =
    Keeps-then s (redirect dial (some buf) false s) _ [] (reached dial more)
      (quiet (dial (trim_suffix (0x0A ∷ []) buf ++ bytes ":3002")) (trim_suffix (0x0A ∷ []) buf) s)
      (follow-Keeps dial more (redirect dial (some buf) false s))
follow-Keeps dial ((some buf, true) ∷ more) s =
    reconnected dial buf more s (dial (trim_suffix (0x0A ∷ []) buf ++ bytes ":3002")) refl
      (follow-Keeps dial more)

open_chat-Keeps :
    (conn : ℕ) (can_listen : Bool) (server_address room_id : Str) (s : ChatState)
    → let (s', _, _) = open_chat (some conn) true can_listen server_address room_id s in
      Keeps (record s { current_room_id = room_id }) (conn ∷ []) s'
unfolding Keeps open_chat
open_chat-Keeps conn true server_address room_id s = (refl, refl, refl)
open_chat-Keeps conn false server_address room_id s = (refl, refl, refl)

-- A chat that has reached its first server stays in its room: after it and any redirections, be
-- they followed or cut short by a failing read, dial or write, the client has its name and its
-- room, and what it has written by itself is one line to the first server and to each server that
-- the redirections reach. Any chat server that reads this line first takes the client into the room
-- under the name. The name has no `#`, neither has a newline, and trimming the line that names both
-- takes off its newline only.
pub start_chat-Keeps :
    (dial : Str → Option ℕ) (can_listen : Bool) (server_address room_id : Str) (s : ChatState)
    (conn : ℕ) (redirections : List (Option Str × Bool))
    → dial (server_address ++ bytes ":3002") ≡ some conn
    → IsPlain s.user_name room_id
    → let (s', _, _) = start_chat dial true can_listen server_address room_id s in
      Keeps
        (record s { current_room_id = room_id })
        (conn ∷ reached dial redirections)
        (follow dial redirections s')
      × Joins s.user_name room_id (room_line s.user_name room_id)
unfolding start_chat
start_chat-Keeps dial can_listen server_address room_id s conn redirections e plain =
    let s0 : ChatState = record s { current_room_id = room_id } in
    let s' = (open_chat (some conn) true can_listen server_address room_id s).0 in
    let first = open_chat-Keeps conn can_listen server_address room_id s in
    (
      rw e (
          Keeps-then s0 s' _ (conn ∷ []) (reached dial redirections) first
            (follow-Keeps dial redirections s')),
      room_line-Joins s.user_name room_id plain,
    )
