-- ===== src/Central/Matchmaking/Session/Opening.antt =====
-- What the asking client is sent up to the dial of the other.
use distributed_matchmaking.Base.{
  joined, ap, ◌≡◌, refl, ◌∙◌, [], ◌∷◌, ◌++◌, Bool, true, false, Str, bytes, Result, ok, err,
}
use distributed_matchmaking.Base.Actions.{
  Outcome, value, error, panic, after, ◌>>=◌, ◌>>◌, check, pure,
}
use distributed_matchmaking.Central.ClientStore.{StoreError}
use distributed_matchmaking.Central.Matchmaking.Optimal.{Floats}
use distributed_matchmaking.Central.Matchmaking.Session.{
  Stop, unauthorized, no_requested_user, unknown_user, dial_failed, Surroundings, World, Session,
  write_client, ask_store, authorize, want, locate, open_request, find_peer, dial_peer,
  get_requested_username,
}
use mathlib.Core.List.{append_assoc}
use distributed_matchmaking.Central.Matchmaking.Session.Protocol.{session_lines, Reads}

module _ {fl : Floats} (env : Surroundings fl) where
  -- A post-condition of a call and of what follows it.
  module _ {B : Type 0} (Q : Outcome Stop B × World fl → Type 0) where
    authorize_then :
        (f : Str → Session fl B) (found : Result StoreError Str) (w : World fl)
        → Q (error unauthorized, record w { to_client = w.to_client ++ bytes "Unauthorized\n" })
        → ((username : Str) → Q (f username w))
        → Q ((authorize fl found >>= f) w)
    unfolding authorize write_client
    authorize_then f (err _) w stop next = stop
    authorize_then f (ok []) w stop next = stop
    authorize_then f (ok (c ∷ cs)) w stop next = next (c ∷ cs)

    want_then :
        (f : Str → Session fl B) (wanted : Str) (w : World fl)
        → Q (
          error no_requested_user,
          record w { to_client = w.to_client ++ bytes "USER_NOT_FOUND\n" },
        )
        → ((req_user : Str) → Q (f req_user w))
        → Q ((want fl wanted >>= f) w)
    unfolding want write_client
    want_then f [] w stop next = stop
    want_then f (c ∷ cs) w stop next = next (c ∷ cs)

    locate_then :
        (f : Str → Session fl B) (peer : Result StoreError Str) (w : World fl)
        → Q (error unknown_user, record w { to_client = w.to_client ++ bytes "USER_NOT_FOUND\n" })
        → ((ip : Str) → Q (f ip w))
        → Q ((locate fl peer >>= f) w)
    unfolding locate write_client
    locate_then f (err _) w stop next = stop
    locate_then f (ok ip) w stop next = next _

    check_then :
        (f : Session fl B) (test : Bool) (stop : Stop) (w : World fl)
        → Q (error stop, w)
        → Q (f w)
        → Q ((check test stop >> f) w)
    check_then f true stop w bad good = good
    check_then f false stop w bad good = bad

  -- What `open_request` leaves to the rest, or ends with.
  unfoldable pub Opened : World fl → Outcome Stop (Str × Str) × World fl → Type 0
  Opened w (value _, w') = (w'.to_client ≡ w.to_client ++ bytes "ACK\n") × (w'.to_peer ≡ w.to_peer)
  Opened w (error stop, w') = Reads env w (error stop) w'
  Opened w (panic, w') = ⊥

  stopped :
      (w : World fl) (stop : Stop) (w' : World fl)
      → Reads env w (error stop) w'
      → Opened w (error stop, w')
  unfolding Opened
  stopped w stop w' h = h

  opened :
      (w : World fl) (users : Str × Str) (w' : World fl)
      → w'.to_client ≡ w.to_client ++ bytes "ACK\n"
      → w'.to_peer ≡ w.to_peer
      → Opened w (value users, w')
  unfolding Opened
  opened w users w' c p = (c, p)

  find_peer-Opened :
      (username req_user : Str) (w w' : World fl)
      → w'.to_client ≡ w.to_client
      → w'.to_peer ≡ w.to_peer
      → Opened w (find_peer fl env username req_user w')
  unfolding find_peer dial_peer ask_store write_client session_lines joined
  find_peer-Opened username req_user w w' c p =
      locate_then (Opened w) (dial_peer fl env username req_user) _ _
        (stopped w unknown_user _ (
          append_assoc w'.to_client (bytes "ACK\n") (bytes "USER_NOT_FOUND\n")
          ∙ ap (λ text. text ++ bytes "ACK\nUSER_NOT_FOUND\n") c))
        (λ ip.
          check_then (Opened w) (pure (username, req_user)) (env.dial (ip ++ bytes ":3001"))
            dial_failed _ (stopped w dial_failed _ (ap (λ text. text ++ bytes "ACK\n") c))
            (opened w (username, req_user) _ (ap (λ text. text ++ bytes "ACK\n") c) p))

  pub open_request-Opened : (w : World fl) → Opened w (open_request fl env w)
  unfolding open_request ask_store write_client session_lines joined
  open_request-Opened w =
      authorize_then (Opened w)
        (λ username. want fl (get_requested_username env.first_read) >>= find_peer fl env username)
        _ _ (stopped w unauthorized _ refl)
        (λ username.
          want_then (Opened w) (find_peer fl env username) (get_requested_username env.first_read) _
            (stopped w no_requested_user _ refl)
            (λ req_user. find_peer-Opened username req_user w _ refl refl))

  pub opened_then :
      (Q : Outcome Stop (Unit {0}) × World fl → Type 0) (f : Str × Str → Session fl (Unit {0}))
      (w : World fl) (r : Outcome Stop (Str × Str) × World fl)
      → Opened w r
      → ((stop : Stop) (w' : World fl) → Reads env w (error stop) w' → Q (error stop, w'))
      → ((users : Str × Str) (w' : World fl)
          → w'.to_client ≡ w.to_client ++ bytes "ACK\n"
          → w'.to_peer ≡ w.to_peer
          → Q (f users w'))
      → Q (after f r.0 r.1)
  unfolding Opened
  opened_then Q f w (value users, w') (c, p) stop next = next users w' c p
  opened_then Q f w (error e, w') h stop next = stop e w' h
  opened_then Q f w (panic, w') h stop next = absurd h
