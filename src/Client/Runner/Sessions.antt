-- ===== src/Client/Runner/Sessions.antt =====
-- The goroutine of `startMatchMaking` (Client/runner/client_runner.go) on the lines of a session
-- with Central (Central/internal/matchmaking/matchmaking.go).
use distributed_matchmaking.Base.{
  All-drop, ◌-◌, ℕ, ◌<◌, ◌≡◌, refl, List, [], ◌∷◌, ◌++◌, Bool, true, false, if◌then◌else◌, Option,
  Option-cases, some, none, inl, inr, Str, bytes, str_eq, Lacks, replicate, All-append,
  All-replicate, length, drop, arith, ◌==◌,
}
use distributed_matchmaking.Base.Actions.{Outcome, value, error, panic}
use distributed_matchmaking.Central.Matchmaking.Optimal.{Floats}
use distributed_matchmaking.Central.Matchmaking.Session.{
  Stop, unauthorized, no_requested_user, unknown_user, dial_failed, no_delays, no_server,
  still_waiting, Surroundings, World, room_response, hex, generate_room_id, handle_connection,
}
use distributed_matchmaking.Central.Matchmaking.Session.Assignment.{room}
use distributed_matchmaking.Central.Matchmaking.Session.Protocol.{
  accepted, accepting, verdict, result, request_lines, session_lines, Reads, Told, request_text,
}
use distributed_matchmaking.Central.Matchmaking.Session.Ending.{handle_connection-Told}
use distributed_matchmaking.Client.Runner.{
  trim_suffix, Phase, awaiting_ack, awaiting_sent, awaiting_response, awaiting_server, gave_up,
  begin_matchmaking, start_matchmaking,
}
use distributed_matchmaking.Client.Runner.Waiting.{Undecided}
use distributed_matchmaking.Client.Runner.Steps.{
  Stands, Leads, Leads-append, acknowledged, refused_at_once, unknown, sent, waits, decided,
  no_room, placed, joins,
}

not_newline : (s : Str) → Lacks 0x0A s → str_eq s (bytes "\n") ≡ false
unfolding Lacks str_eq
not_newline [] h = refl
not_newline (c ∷ cs) (miss, h) = rw (miss, str_eq) refl

trim_suffix-Lacks : (s : Str) → Lacks 0x0A s → trim_suffix (bytes "\n") s ≡ s
unfolding trim_suffix Lacks
trim_suffix-Lacks s h =
    let other =
      not_newline (drop (length s - 1) s) (unfold Lacks in All-drop _ (length s - 1) s h) in
    ground (arith, other)

hex-Lacks : (random_bytes : List ℕ) → Lacks 0x0A (hex random_bytes)
unfolding hex Lacks
hex-Lacks [] = tt
hex-Lacks (b ∷ bs) = (ground arith, (ground arith, hex-Lacks bs))

room_id-Lacks :
    (current_time : Str) (random_bytes : List ℕ)
    → Lacks 0x0A current_time
    → Lacks 0x0A (current_time ++ (bytes "-" ++ hex random_bytes))
unfolding Lacks
room_id-Lacks current_time random_bytes h =
    All-append (λ c. (c == 0x0A) ≡ false) current_time (bytes "-" ++ hex random_bytes)
      (h, (refl, unfold Lacks in hex-Lacks random_bytes))

module _ {fl : Floats} (env : Surroundings fl) where
  -- The room's id has no newline.
  room-Lacks : Lacks 0x0A env.current_time → Lacks 0x0A (room env)
  unfolding generate_room_id
  room-Lacks time = elim (Option-cases env.random_bytes) [
    | inl e ↦ rw (e, generate_room_id) (unfold Lacks in tt)
    | inr (random, e) ↦ rw (e, generate_room_id) (room_id-Lacks env.current_time random time)
  ]

  -- Where a session leaves the goroutine, with the other client's acceptance or without.
  unfoldable pub left_by : Outcome Stop Str → Bool → Phase
  left_by (value server) answer =
      if answer then Phase.joined server (room env) else awaiting_response
  left_by (error no_delays) answer = if answer then gave_up else awaiting_server
  left_by (error no_server) answer = if answer then gave_up else awaiting_server
  left_by (error dial_failed) answer = awaiting_sent
  left_by (error unauthorized) answer = gave_up
  left_by (error no_requested_user) answer = gave_up
  left_by (error unknown_user) answer = gave_up
  left_by (error still_waiting) answer = if answer then awaiting_server else awaiting_response
  left_by panic answer = if answer then awaiting_server else awaiting_response

  module _ (username : Str) where
    awaiting-Undecided : Undecided (bytes "AWAITING_REQ")
    unfolding str_eq
    awaiting-Undecided = (refl, refl)

    -- The lines about the request, by its result.
    asked_with :
        (found : Option Bool)
        → Leads username awaiting_sent
            (bytes "REQ_SENT" ∷ (replicate env.waits (bytes "AWAITING_REQ") ++ verdict env found))
            (if accepting env found then awaiting_server else awaiting_response)
    asked_with found =
        let lines = replicate env.waits (bytes "AWAITING_REQ") in
        let waiting =
          waits username lines
            (All-replicate Undecided env.waits (bytes "AWAITING_REQ") awaiting-Undecided) in
        Leads-append username _ _ _ (bytes "REQ_SENT" ∷ []) (lines ++ verdict env found)
          (sent username)
          (Leads-append username _ _ _ lines (verdict env found) waiting (last found))
      where
        last :
            (found : Option Bool)
            → Leads username awaiting_response
                (verdict env found)
                (if accepting env found then awaiting_server else awaiting_response)
        last none = λ m at below. unfold start_matchmaking Stands in (at, below)
        last (some true) = decided username (bytes "REQ_ACCEPTED") (unfold str_eq in refl)
        last (some false) =
            waits username (bytes "USER_NOT_FOUND" ∷ []) (unfold str_eq in ((refl, refl), tt))

    asked :
        Leads username awaiting_sent
          (request_lines env)
          (if accepted env then awaiting_server else awaiting_response)
    unfolding request_lines
    asked = asked_with (result env)

    -- After the request, and lines that lead on from there.
    after_asked :
        (lines : List Str) (p : Bool → Phase)
        → ((answer : Bool)
            → Leads username
                (if answer then awaiting_server else awaiting_response)
                lines
                (p answer))
        → Leads username awaiting_ack
            (bytes "ACK" ∷ (request_lines env ++ lines))
            (p (accepted env))
    after_asked lines p last =
        Leads-append username _ _ _ (bytes "ACK" ∷ []) (request_lines env ++ lines)
          (acknowledged username)
          (Leads-append username _ _ _ (request_lines env) lines asked (last (accepted env)))

    error_lines :
        (answer : Bool)
        → Leads username
            (if answer then awaiting_server else awaiting_response)
            (bytes "SERVER_ERROR" ∷ [])
            (if answer then gave_up else awaiting_server)
    error_lines true = no_room username
    error_lines false = decided username (bytes "SERVER_ERROR") (unfold str_eq in refl)

    room_lines :
        Lacks 0x0A env.current_time
        → (server : Str) (answer : Bool)
        → Leads username
            (if answer then awaiting_server else awaiting_response)
            ((bytes "IP:" ++ server) ∷ (bytes "RoomID:" ++ room env) ∷ [])
            (left_by (value server) answer)
    unfolding left_by
    room_lines time server true =
        Leads-append username _ _ _ ((bytes "IP:" ++ server) ∷ [])
          ((bytes "RoomID:" ++ room env) ∷ []) (placed username server)
          (joins username server (room env) (trim_suffix-Lacks (room env) (room-Lacks time)))
    room_lines time server false =
        waits username _ (unfold str_eq in ((refl, refl), ((refl, refl), tt)))

    session_lines-left_by :
        Lacks 0x0A env.current_time
        → (end : Outcome Stop Str)
        → Leads username awaiting_ack (session_lines env end) (left_by end (accepted env))
    unfolding session_lines left_by
    session_lines-left_by time (value server) =
        after_asked _ (left_by (value server)) (room_lines time server)
    session_lines-left_by time (error unauthorized) =
        refused_at_once username (bytes "Unauthorized") (unfold str_eq in refl)
    session_lines-left_by time (error no_requested_user) =
        refused_at_once username (bytes "USER_NOT_FOUND") (unfold str_eq in refl)
    session_lines-left_by time (error unknown_user) =
        Leads-append username _ _ _ (bytes "ACK" ∷ []) (bytes "USER_NOT_FOUND" ∷ [])
          (acknowledged username) (unknown username)
    session_lines-left_by time (error dial_failed) = acknowledged username
    session_lines-left_by time (error no_delays) =
        after_asked _ (left_by (error no_delays)) error_lines
    session_lines-left_by time (error no_server) =
        after_asked _ (left_by (error no_server)) error_lines
    session_lines-left_by time (error still_waiting) =
        Leads-append username _ _ _ (bytes "ACK" ∷ []) (request_lines env) (acknowledged username)
          asked
    session_lines-left_by time panic =
        Leads-append username _ _ _ (bytes "ACK" ∷ []) (request_lines env) (acknowledged username)
          asked

    abbrev Follows : Outcome Stop Str → Type 0
    Follows end =
        Stands (left_by end (accepted env))
          (start_matchmaking username (session_lines env end) begin_matchmaking)

    -- What the asking client reads, and where this leaves its goroutine.
    unfoldable pub Meets : World fl → Outcome Stop (Unit {0}) × World fl → Type 0
    Meets w (value _, w') =
        (server : Str) × (caller : Str) × (generate_room_id env.current_time env.random_bytes
          ≡ some (room env))
        × Reads env w (value server) w'
        × (w'.to_peer ≡ w.to_peer ++ (request_text env caller ++ room_response server (room env)))
        × Follows (value server)
    Meets w (error stop, w') = Reads env w (error stop) w' × Follows (error stop)
    Meets w (panic, w') = (env.random_bytes ≡ none) × Reads env w panic w' × Follows panic

    follows : Lacks 0x0A env.current_time → (end : Outcome Stop Str) → Follows end
    unfolding begin_matchmaking
    follows time end = session_lines-left_by time end begin_matchmaking refl (omega arith)

    Told-Meets :
        (w : World fl) (r : Outcome Stop (Unit {0}) × World fl)
        → Lacks 0x0A env.current_time
        → Told env w r
        → Meets w r
    unfolding Told Meets
    Told-Meets w (value _, w') time (server, caller, drawn, c, p) =
        (server, caller, drawn, c, p, follows time (value server))
    Told-Meets w (error stop, w') time c = (c, follows time (error stop))
    Told-Meets w (panic, w') time (unread, c) = (unread, c, follows time panic)

    -- If the lines of a session reach the asking client whole, the formatted time has no newline in
    -- it and the random index stays below its bound, then the session panics only where the random
    -- bytes of the room cannot be read, and the client's goroutine does not panic. A session that
    -- ends well sends both clients one server and the generated room; where the other client has accepted, the
    -- goroutine joins this room on this server, and where it has not, the goroutine is left in the
    -- loop that waits for an answer. An error before the dial, and one after an acceptance, brings
    -- it back to the menu; a dial that fails leaves it waiting for REQ_SENT, and an error after a
    -- refusal leaves it waiting for a server. A session that panics, or still waits for the other
    -- client, leaves the goroutine waiting for a server after an acceptance, else for an answer.
    pub handle_connection-Meets :
        (w : World fl)
        → Lacks 0x0A env.current_time
        → ((n : ℕ) → 0 < n → env.intn n < n)
        → Meets w (handle_connection fl env w)
    handle_connection-Meets w time below =
        Told-Meets w (handle_connection fl env w) time (handle_connection-Told env w below)
