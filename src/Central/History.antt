-- ===== src/Central/History.antt =====
-- What Central does to its client store: the requests of Central/internal/client/api.go, the rooms
-- of sessions and the ticks of Central/internal/matchmaking/matchmaking.go, in any order. Each
-- call is one step, and so is a whole tick: calls of other goroutines between those of a tick are
-- not among the histories.
pub mod Pairs
pub mod Sessions
use distributed_matchmaking.Base.{ℕ, ◌<◌, ◌≡◌, List, [], ◌∷◌, Option, some, Bool, Str, Map}
use distributed_matchmaking.Central.ClientApi.{
  register_client, delete_client_handler, update_delay_list_handler,
}
use distributed_matchmaking.Central.ClientStore.{ClientStore, insert_chat_instance}
use distributed_matchmaking.Central.Matchmaking.Optimal.{Floats}
use distributed_matchmaking.Central.Matchmaking.Rerouting.{background_tick}

module _ (fl : Floats) where
  open fl use {F32}

  -- `rooms` is the end of a session; a tick that panics ends the program, so it has no step.
  pub data Step : ClientStore F32 → ClientStore F32 → Type 0 where
    registers :
        (s : ClientStore F32) (client_ip : Str) (request : Option Str)
        → Step s (register_client s client_ip request).0
    deletes : (s : ClientStore F32) (client_ip : Str) → Step s (delete_client_handler s client_ip).0
    reports :
        (s : ClientStore F32) (request : Option (Str × Map F32))
        → Step s (update_delay_list_handler s request).0
    rooms :
        (s : ClientStore F32) (grow : ℕ → ℕ) (room_id server_ip username req_user : Str)
        → Step s (insert_chat_instance grow s room_id server_ip (username ∷ req_user ∷ [])).0
    ticks :
        (s s' : ClientStore F32) (grow intn : ℕ → ℕ) (dial : Str → Bool)
        (below : (n : ℕ) → 0 < n → intn n < n) (sent : List (Str × Str))
        → background_tick fl grow intn dial s ≡ some (s', sent)
        → Step s s'

  pub data Reaches : ClientStore F32 → ClientStore F32 → Type 0 where
    still : (s : ClientStore F32) → Reaches s s
    onward : (s t u : ClientStore F32) → Reaches s t → Step t u → Reaches s u

  pub Reaches-trans : (s t u : ClientStore F32) → Reaches s t → Reaches t u → Reaches s u
  Reaches-trans s _ _ r (still t) = r
  Reaches-trans s _ _ r (onward t u v more step) = onward s u v (Reaches-trans s t u r more) step
