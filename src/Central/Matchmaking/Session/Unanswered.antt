-- ===== src/Central/Matchmaking/Session/Unanswered.antt =====
-- A session whose other client does not reply.
use distributed_matchmaking.Base.{
  joined, ap, ◌≡◌, refl, ◌∙◌, ◌∷◌, ◌++◌, true, Str, bytes, replicate,
}
use distributed_matchmaking.Base.Actions.{value, error, bind-value, bind-error}
use distributed_matchmaking.Central.Matchmaking.Optimal.{Floats}
use distributed_matchmaking.Central.Matchmaking.Session.{
  Surroundings, World, never, accepts, still_waiting, open_request, await_reply, assign_room,
  handle_connection,
}
use mathlib.Core.List.{append-nil}
use distributed_matchmaking.Central.Matchmaking.Session.Protocol.{request_lines}
use distributed_matchmaking.Central.Matchmaking.Session.Request.{asked, await_reply_never}

module _ {fl : Floats} (env : Surroundings fl) where
  -- What both clients have been sent while the session waits.
  abbrev pub unanswered : Str → World fl → World fl
  unanswered username w = record w {
    to_client =
        w.to_client ++ joined 0x0A (bytes "REQ_SENT" ∷ replicate env.waits (bytes "AWAITING_REQ"));
    to_peer = w.to_peer ++ (username ++ bytes "\n");
  }

  asked-unanswered :
      (username : Str) (w : World fl)
      → env.request_written ≡ true
      → env.reply ≡ never
      → asked env username w ≡ unanswered username w
  unfolding request_lines accepts
  asked-unanswered username w written silent =
      rw (written, silent, append-nil (replicate env.waits (bytes "AWAITING_REQ"))) refl

  -- If the client that was asked is sent the request and its read never returns, then a session
  -- that has come to the request never ends: however often its loop goes round, it still waits, has
  -- sent the asking client a line for each turn and the other nothing but the request, and the
  -- store is left as the request found it, without a chat instance.
  pub handle_connection-unanswered :
      (w w' : World fl) (username req_user : Str)
      → env.request_written ≡ true
      → env.reply ≡ never
      → open_request fl env w ≡ (value (username, req_user), w')
      → handle_connection fl env w ≡ (error still_waiting, unanswered username w')
  unfolding handle_connection accepts
  handle_connection-unanswered w w' username req_user written silent opened =
      bind-value (open_request fl env) _ opened
      ∙ bind-error (await_reply fl env username) (λ _. assign_room fl env username req_user)
          (await_reply_never env username w' (rw (written, silent) refl))
      ∙ ap (λ v. (error still_waiting, v)) (asked-unanswered username w' written silent)
