-- ===== src/Server/Chat.antt =====
-- Server/internal/chat/chat.go: the rooms and what is written to their connections. A connection
-- is a number; what is read from it is the list of the chunks that its reads return, until a read
-- fails. The goroutines act on the manager only under its lock, one operation at a time.
pub mod Rooms
pub mod Lines
use distributed_matchmaking.Base.{
  ℕ, List, [], ◌∷◌, ◌++◌, Option, some, none, true, false, ◌==◌, Str, bytes, Map, lookup, insert,
  trim_space, map,
}

-- `written` is every call of `Write` on a connection of the map, in order.
pub record ChatManager : Type 0 where
  pub clients : Map (List ℕ)
  pub written : List (ℕ × Str)

unfoldable pub new_chat_manager : ChatManager
new_chat_manager = record { clients = []; written = [] }

abbrev pub conns : Option (List ℕ) → List ℕ
conns none = []
conns (some cs) = cs

-- `cm.clients[roomId] = append(cm.clients[roomId], conn)`
unfoldable pub join_room : ℕ → Str → ChatManager → ChatManager
join_room conn room_id cm = record cm {
  clients = insert room_id (conns (lookup room_id cm.clients) ++ conn ∷ []) cm.clients;
}

-- `fmt.Sprintf("%s: %s\n", username, message)`
unfoldable pub chat_line : Str → Str → Str
chat_line username message = username ++ (bytes ": " ++ (message ++ 0x0A ∷ []))

-- A write that fails is only logged.
unfoldable pub broadcast_message : Str → Str → Str → ChatManager → ChatManager
broadcast_message username room_id message cm = elim (lookup room_id cm.clients) [
  | none ↦ cm
  | some clients_in_room ↦ record cm {
    written = cm.written ++ map (λ c. (c, chat_line username message)) clients_in_room;
  }
]

-- What one goroutine does under the lock.
pub data Operation : Type 0 where
  join : ℕ → Str → Operation
  broadcast : Str → Str → Str → Operation

unfoldable pub perform : ChatManager → Operation → ChatManager
unfolding join_room broadcast_message
perform cm (join conn room_id) = join_room conn room_id cm
perform cm (broadcast username room_id message) = broadcast_message username room_id message cm

unfoldable pub run : ChatManager → List Operation → ChatManager
unfolding perform
run cm [] = cm
run cm (op ∷ ops) = run (perform cm op) ops

-- A text up to a byte and behind it.
unfoldable pub cut_at : ℕ → Str → Option (Str × Str)
cut_at d [] = none
cut_at d (c ∷ cs) = elim (c == d) [
  | true ↦ some ([], cs)
  | false ↦ elim (cut_at d cs) [ none ↦ none | some (before, rest) ↦ some (c ∷ before, rest) ]
]

-- `reader.ReadString('\n')`: the line with its newline, and the chunks not yet read. What the
-- reader has buffered behind the line is not seen again, since the loop reads the connection.
unfoldable pub read_string : Str → List Str → Option (Str × List Str)
unfolding cut_at
read_string line [] = none
read_string line (chunk ∷ chunks) = elim (cut_at 0x0A chunk) [
  | none ↦ read_string (line ++ chunk) chunks
  | some (before, _) ↦ some (line ++ (before ++ 0x0A ∷ []), chunks)
]

-- The reading loop of `handleClient`.
unfoldable pub listen : Str → Str → List Str → List Operation
listen username room_id [] = []
listen username room_id ([] ∷ chunks) = listen username room_id chunks
listen username room_id ((c ∷ cs) ∷ chunks) =
    broadcast username room_id (c ∷ cs) ∷ listen username room_id chunks

-- `handleClient`; `SplitN(input, "#", 2)` has two parts where the input has a `#`.
unfoldable pub handle_client : ℕ → List Str → List Operation
unfolding read_string listen
handle_client conn chunks = elim (read_string [] chunks) [
  | none ↦ []
  | some (input, rest) ↦ elim (cut_at 0x23 (trim_space input)) [
    | none ↦ []
    | some (username, room_id) ↦ join conn room_id ∷ listen username room_id rest
  ]
]
