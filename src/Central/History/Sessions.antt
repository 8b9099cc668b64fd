-- ===== src/Central/History/Sessions.antt =====
-- A session as steps of Central's history.
use distributed_matchmaking.Base.{ℕ, sym}
use mathlib.Core.Path.{subst}
use distributed_matchmaking.Base.Actions.{Outcome, value, error, panic}
use distributed_matchmaking.Central.ClientStore.{ClientStore}
use distributed_matchmaking.Central.History.{Reaches, still, onward, rooms, Reaches-trans}
use distributed_matchmaking.Central.Matchmaking.Optimal.{Floats}
use distributed_matchmaking.Central.Matchmaking.Session.{
  Stop, Surroundings, World, handle_connection, get_requested_username,
}
use distributed_matchmaking.Central.Matchmaking.Session.Effect.{Inserts}
use distributed_matchmaking.Central.Matchmaking.Session.Placing.{handle_connection-Inserts}

module _ {fl : Floats} (env : Surroundings fl) where
  open fl use {F32}

  Inserts-Reaches :
      (s : ClientStore F32) (r : Outcome Stop (Unit {0})) (w : World fl)
      → Inserts env (Reaches fl) s (r, w)
      → Reaches fl s w.store
  unfolding Inserts
  Inserts-Reaches s (value _) w done =
      let step =
        rooms done.at_insert env.grow done.room_id done.server_ip done.username
          (get_requested_username env.first_read) in
      let (_, _, _, _, led) = done.led in
      subst (λ (t : ClientStore F32). Reaches fl s t) (sym done.inserted)
        (onward s done.at_insert _ led step)
  Inserts-Reaches s (error _) w led = led
  Inserts-Reaches s panic w led = led

  -- If what the other goroutines do to the store between the calls of a session are steps of
  -- Central, then the whole session, however it ends, takes the store along such steps, too.
  pub handle_connection-Reaches :
      (others : (n : ℕ) (s : ClientStore F32) → Reaches fl s (env.others n s)) (w : World fl)
      → Reaches fl w.store (handle_connection fl env w).1.store
  handle_connection-Reaches others w =
      Inserts-Reaches w.store (handle_connection fl env w).0 (handle_connection fl env w).1
        (handle_connection-Inserts env (Reaches fl) still (Reaches-trans fl) others w)
