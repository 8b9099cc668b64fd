-- ===== src/Central/Matchmaking/Session/Protocol.antt =====
-- The protocol of a session with Central (Central/internal/matchmaking/matchmaking.go): the lines
-- that the asking client is sent.
use distributed_matchmaking.Base.{
  joined, ◌≡◌, List, [], ◌∷◌, ◌++◌, Option, none, some, Bool, true, false, if◌then◌else◌, Str,
  bytes, replicate,
}
use distributed_matchmaking.Base.Actions.{Outcome, value, error, panic}
use distributed_matchmaking.Central.Matchmaking.Optimal.{Floats}
use distributed_matchmaking.Central.Matchmaking.Session.{
  Stop, unauthorized, no_requested_user, unknown_user, dial_failed, no_delays, no_server,
  still_waiting, Surroundings, World, accepts, generate_room_id, room_response,
}
use distributed_matchmaking.Central.Matchmaking.Session.Assignment.{room}

module _ {fl : Floats} (env : Surroundings fl) where
  -- The result of the request, if there ever is one.
  abbrev pub result : Option Bool
  result = if env.request_written then accepts env.reply else some false

  -- Whether the client that is asked accepts.
  abbrev pub accepting : Option Bool → Bool
  accepting none = false
  accepting (some answer) = answer

  abbrev pub accepted : Bool
  accepted = accepting result

  abbrev pub verdict : Option Bool → List Str
  verdict none = []
  verdict (some true) = bytes "REQ_ACCEPTED" ∷ []
  verdict (some false) = bytes "USER_NOT_FOUND" ∷ []

  -- The lines about the request: the first reads AWAITING_REQ as often as the loop goes round, and
  -- no more than that without a result.
  unfoldable pub request_lines : List Str
  request_lines = bytes "REQ_SENT" ∷ (replicate env.waits (bytes "AWAITING_REQ") ++ verdict result)

  -- The protocol: what the asking client reads, by the end of the session.
  unfoldable pub session_lines : Outcome Stop Str → List Str
  session_lines (value server) =
      bytes "ACK" ∷ (request_lines ++ (bytes "IP:" ++ server) ∷ (bytes "RoomID:" ++ room env) ∷ [])
  session_lines (error unauthorized) = bytes "Unauthorized" ∷ []
  session_lines (error no_requested_user) = bytes "USER_NOT_FOUND" ∷ []
  session_lines (error unknown_user) = bytes "ACK" ∷ bytes "USER_NOT_FOUND" ∷ []
  session_lines (error dial_failed) = bytes "ACK" ∷ []
  session_lines (error no_delays) = bytes "ACK" ∷ (request_lines ++ bytes "SERVER_ERROR" ∷ [])
  session_lines (error no_server) = bytes "ACK" ∷ (request_lines ++ bytes "SERVER_ERROR" ∷ [])
  session_lines (error still_waiting) = bytes "ACK" ∷ request_lines
  session_lines panic = bytes "ACK" ∷ request_lines

  abbrev pub Reads : World fl → Outcome Stop Str → World fl → Type 0
  Reads w end w' = w'.to_client ≡ w.to_client ++ joined 0x0A (session_lines end)

  -- The client that is asked is sent the name of the other, if it can be, then the same server.
  unfoldable pub Told : World fl → Outcome Stop (Unit {0}) × World fl → Type 0
  Told w (value _, w') =
      (server : Str) × (username : Str) × (generate_room_id env.current_time env.random_bytes
        ≡ some (room env))
      × Reads w (value server) w'
      × (w'.to_peer
          ≡ w.to_peer
            ++ ((if env.request_written then username ++ bytes "\n" else [])
                ++ room_response server (room env)))
  Told w (error stop, w') = Reads w (error stop) w'
  Told w (panic, w') = (env.random_bytes ≡ none) × Reads w panic w'

  -- What the other client has been sent of the request.
  abbrev pub request_text : Str → Str
  request_text username = if env.request_written then username ++ bytes "\n" else []
