-- ===== src/Central/Matchmaking/Session/Request.antt =====
-- What both clients are sent during the request.
use distributed_matchmaking.Base.{
  joined, joined-append, ap, sym, ℕ, zero, suc, ◌≡◌, refl, ◌∙◌, ◌++◌, Bool-cases, Bool, true, false,
  Option, some, none, inl, inr, Str, bytes, replicate,
}
use distributed_matchmaking.Base.Actions.{Outcome, value, error, bind-value}
use distributed_matchmaking.Central.Matchmaking.Optimal.{Floats}
use distributed_matchmaking.Central.Matchmaking.Session.{
  Stop, still_waiting, Surroundings, World, write_client, write_peer, request_match, awaiting,
  await_reply, take_result,
}
use mathlib.Core.List.{append_assoc, append-nil}
use distributed_matchmaking.Central.Matchmaking.Session.Protocol.{
  result, verdict, request_lines, request_text,
}

module _ {fl : Floats} (env : Surroundings fl) where
  -- The wait for the reply.
  awaiting_text :
      (n : ℕ) (w : World fl)
      → awaiting fl env n w ≡ (
        value tt,
        record w { to_client = w.to_client ++ joined 0x0A (replicate n (bytes "AWAITING_REQ")) },
      )
  unfolding awaiting write_client joined
  awaiting_text zero w = rw (append-nil w.to_client) refl
  awaiting_text (suc n) w =
      awaiting_text n (record w { to_client = w.to_client ++ bytes "AWAITING_REQ\n" })
      ∙ ap (λ text. (value tt, record w { to_client = text }))
          (append_assoc w.to_client (bytes "AWAITING_REQ\n")
            (joined 0x0A (replicate n (bytes "AWAITING_REQ"))))

  request_match_text :
      (username : Str) (w : World fl)
      → request_match fl env username w
        ≡ (value (result env), record w { to_peer = w.to_peer ++ request_text env username })
  unfolding request_match write_peer
  request_match_text username w = elim (Bool-cases env.request_written) [
    | inl e ↦ rw (e, request_match) refl
    | inr e ↦ rw (e, request_match, append-nil w.to_peer) refl
  ]

  awaited : Option Bool → Outcome Stop (Unit {0})
  awaited none = error still_waiting
  awaited (some answer) = value tt

  -- The end of the loop, if it ends.
  take_result_text :
      (found : Option Bool) (w : World fl)
      → take_result fl env found w
        ≡ (awaited found, record w { to_client = w.to_client ++ joined 0x0A (verdict env found) })
  unfolding take_result write_client joined awaited
  take_result_text none w = rw (append-nil w.to_client) refl
  take_result_text (some true) w = refl
  take_result_text (some false) w = refl

  request_lines_text :
      (text : Str)
      → ((text ++ bytes "REQ_SENT\n") ++ joined 0x0A (replicate env.waits (bytes "AWAITING_REQ")))
          ++ joined 0x0A (verdict env (result env))
        ≡ text ++ joined 0x0A (request_lines env)
  unfolding request_lines
  request_lines_text text =
      let waits = replicate env.waits (bytes "AWAITING_REQ") in
      let last = verdict env (result env) in
      append_assoc (text ++ bytes "REQ_SENT\n") (joined 0x0A waits) (joined 0x0A last)
      ∙ ap (λ rest. (text ++ bytes "REQ_SENT\n") ++ rest) (sym (joined-append 0x0A waits last))
      ∙ append_assoc text (bytes "REQ_SENT\n") (joined 0x0A (waits ++ last))
      ∙ unfold joined in refl

  -- What both clients have been sent then.
  abbrev pub asked : Str → World fl → World fl
  asked username w = record w {
    to_client = w.to_client ++ joined 0x0A (request_lines env);
    to_peer = w.to_peer ++ request_text env username;
  }

  await_reply_text :
      (username : Str) (w : World fl)
      → await_reply fl env username w ≡ (awaited (result env), asked username w)
  unfolding await_reply write_client
  await_reply_text username w =
      let written = record w { to_peer = w.to_peer ++ request_text env username } in
      let sent = record written { to_client = w.to_client ++ bytes "REQ_SENT\n" } in
      bind-value (request_match fl env username) _ (request_match_text username w)
      ∙ bind-value (awaiting fl env env.waits) _ (awaiting_text env.waits sent)
      ∙ take_result_text (result env) _
      ∙ ap (λ text. (awaited (result env), record written { to_client = text }))
          (request_lines_text w.to_client)

  -- With a result the session goes on from there, without one it does not.
  pub await_reply_found :
      (answer : Bool) (username : Str) (w : World fl)
      → result env ≡ some answer
      → await_reply fl env username w ≡ (value tt, asked username w)
  unfolding awaited
  await_reply_found answer username w e =
      await_reply_text username w ∙ ap (λ found. (awaited found, asked username w)) e

  pub await_reply_never :
      (username : Str) (w : World fl)
      → result env ≡ none
      → await_reply fl env username w ≡ (error still_waiting, asked username w)
  unfolding awaited
  await_reply_never username w e =
      await_reply_text username w ∙ ap (λ found. (awaited found, asked username w)) e
