-- ===== src/Client/Runner/Waiting.antt =====
-- The loop of `startMatchMaking` of Client/runner/client_runner.go that waits for the other client.
use distributed_matchmaking.Base.{
  ℕ, zero, suc, ◌-◌, ◌<◌, ◌≡◌, refl, List, [], ◌∷◌, ◌++◌, some, true, false, leb, Str, bytes,
  str_eq, Result, ok, err, and_then, take, length, length-append, take-prefix, get_elem?, All,
  arith,
}
use distributed_matchmaking.Client.Runner.{
  Panic, send_on_closed_channel, Phase, awaiting_ack, awaiting_sent, awaiting_response,
  awaiting_server, gave_up, awaiting_room, joined, Matchmaking, dots, next_dot, show_dots,
  take_response, take_server, take_room, take_status, start_matchmaking,
}

-- An index into the dots, and no panic but that of a sender that finds the channel closed.
unfoldable pub Sound : Result Panic Matchmaking → Type 0
Sound (ok m) = m.dot_idx < length dots
Sound (err panic) = panic ≡ send_on_closed_channel

next_dot_lem : (dot_idx : ℕ) → dot_idx < 6 → next_dot dot_idx < 6
unfolding next_dot
next_dot_lem dot_idx h = ground arith

cut_back :
    (xs ys : Str)
    → (leb (length ys) (length (xs ++ ys)) ≡ true)
      × (take (length (xs ++ ys) - length ys) (xs ++ ys) ≡ xs)
cut_back xs ys =
    let size = length-append xs ys in
    let front : length xs ≡ length (xs ++ ys) - length ys = omega arith in
    (ground arith, take-prefix (length (xs ++ ys) - length ys) xs ys front)

-- The slice gives the text back, whichever dots were shown.
show_dots_lem :
    (dot : Str) (m : Matchmaking)
    → show_dots (some dot) m
      ≡ ok (record m {
        view = m.text ++ (bytes "Awaiting response" ++ dot);
        dot_idx = next_dot m.dot_idx;
      })
unfolding show_dots
show_dots_lem dot m =
    let (fits, front) = cut_back m.text (bytes "Awaiting response" ++ dot) in
    rw (fits, show_dots, front) refl

dot_at : (i : ℕ) → i < 6 → (dot : Str) × (get_elem? dots i ≡ some dot)
dot_at zero h = (_, refl)
dot_at (suc zero) h = (_, refl)
dot_at (suc (suc zero)) h = (_, refl)
dot_at (suc (suc (suc zero))) h = (_, refl)
dot_at (suc (suc (suc (suc zero)))) h = (_, refl)
dot_at (suc (suc (suc (suc (suc zero))))) h = (_, refl)
dot_at (suc (suc (suc (suc (suc (suc i)))))) h = absurd (omega arith)

show_dots-Sound : (m : Matchmaking) → m.dot_idx < 6 → Sound (show_dots (get_elem? dots m.dot_idx) m)
unfolding Sound
show_dots-Sound m h =
    let (dot, e) = dot_at m.dot_idx h in rw (e, show_dots_lem dot m) (next_dot_lem m.dot_idx h)

take_response-Sound :
    (response : Str) (m : Matchmaking) → m.dot_idx < 6 → Sound (take_response response m)
unfolding take_response Sound
take_response-Sound response m h = ground (arith, show_dots-Sound m h)

take_server_idx : (server : Str) (m : Matchmaking) → (take_server server m).dot_idx ≡ m.dot_idx
unfolding take_server
take_server_idx server m = ground arith

take_room_idx :
    (server room : Str) (m : Matchmaking) → (take_room server room m).dot_idx ≡ m.dot_idx
unfolding take_room
take_room_idx server room m = ground arith

take_status-Sound :
    (username : Str) (phase : Phase) (status : Str) (m : Matchmaking)
    → m.dot_idx < 6
    → Sound (take_status username phase status m)
unfolding take_status Sound
take_status-Sound username awaiting_ack status m h = ground arith
take_status-Sound username awaiting_sent status m h = ground arith
take_status-Sound username awaiting_response status m h = take_response-Sound status m h
take_status-Sound username awaiting_server status m h = rw (take_server_idx status m) h
take_status-Sound username (awaiting_room server) status m h = rw (take_room_idx server status m) h
take_status-Sound username gave_up status m h = refl
take_status-Sound username (joined server room) status m h = refl

and_then-Sound :
    (f : Matchmaking → Result Panic Matchmaking) (r : Result Panic Matchmaking)
    → ((m : Matchmaking) → m.dot_idx < 6 → Sound (f m))
    → Sound r
    → Sound (and_then f r)
unfolding Sound
and_then-Sound f (ok m) next h = next m h
and_then-Sound f (err panic) next h = h

-- Whatever the client is sent, and however often it waits, the goroutine that asks for a chat never
-- takes an index or a slice out of range: it is left with an index into its dots, or the sender of
-- the statuses panics, since the goroutine has closed the channel.
pub start_matchmaking-Sound :
    (username : Str) (statuses : List Str) (m : Matchmaking)
    → m.dot_idx < length dots
    → Sound (start_matchmaking username statuses m)
unfolding start_matchmaking
start_matchmaking-Sound username [] m h = unfold Sound in h
start_matchmaking-Sound username (status ∷ statuses) m h =
    and_then-Sound _ (take_status username m.phase status m)
      (start_matchmaking-Sound username statuses) (take_status-Sound username m.phase status m h)

-- It neither accepts nor ends the wait.
abbrev pub Undecided : Str → Type 0
Undecided status =
    (str_eq status (bytes "REQ_ACCEPTED") ≡ false) × (str_eq status (bytes "SERVER_ERROR") ≡ false)

-- Still in the loop, with the text that it had.
unfoldable pub StillWaiting : Str → Result Panic Matchmaking → Type 0
StillWaiting text (ok m) =
    (m.phase ≡ awaiting_response) × (m.text ≡ text) × (m.dot_idx < length dots)
StillWaiting text (err panic) = ⊥

take_response-StillWaiting :
    (status : Str) (m : Matchmaking)
    → Undecided status
    → m.phase ≡ awaiting_response
    → m.dot_idx < 6
    → StillWaiting m.text (take_response status m)
unfolding take_response StillWaiting
take_response-StillWaiting status m (p, q) e h =
    let (dot, at) = dot_at m.dot_idx h in
    rw (p, take_response, q, at, show_dots_lem dot m) (ground (arith, next_dot_lem m.dot_idx h))

in_loop :
    (username status : Str) (m : Matchmaking) (phase : Phase)
    → phase ≡ awaiting_response
    → take_status username phase status m ≡ take_response status m
unfolding take_status
in_loop username status m phase e = rw e refl

and_then-StillWaiting :
    (text : Str) (f : Matchmaking → Result Panic Matchmaking) (r : Result Panic Matchmaking)
    → ((m : Matchmaking)
        → m.phase ≡ awaiting_response
        → m.text ≡ text
        → m.dot_idx < 6
        → StillWaiting text (f m))
    → StillWaiting text r
    → StillWaiting text (and_then f r)
unfolding StillWaiting
and_then-StillWaiting text f (ok m) next (e, t, h) = next m e t h
and_then-StillWaiting text f (err panic) next h = h

-- In the loop, whatever number of statuses comes that are neither REQ_ACCEPTED nor SERVER_ERROR,
-- USER_NOT_FOUND, a server and a room among them, the goroutine stays in the loop, and its text is
-- the same.
pub start_matchmaking-StillWaiting :
    (username : Str) (statuses : List Str) (m : Matchmaking)
    → All Undecided statuses
    → m.phase ≡ awaiting_response
    → m.dot_idx < length dots
    → StillWaiting m.text (start_matchmaking username statuses m)
unfolding start_matchmaking
start_matchmaking-StillWaiting username [] m all e h = unfold StillWaiting in (e, refl, h)
start_matchmaking-StillWaiting username (status ∷ statuses) m (here, more) e h =
    and_then-StillWaiting m.text (start_matchmaking username statuses)
      (take_status username m.phase status m)
      (λ m' e' t h'. rw (← t) (start_matchmaking-StillWaiting username statuses m' more e' h'))
      (rw (in_loop username status m m.phase e) (take_response-StillWaiting status m here e h))
