-- ===== src/Client/Startup/Reports.antt =====
-- What `startup` of Client/runner/client_runner.go makes of the reports of `Register` and
-- `Initialize` of Client/client/client.go.
use distributed_matchmaking.Base.{
  ℕ, zero, suc, ◌≤◌, ◌≡◌, ◌≢◌, All, refl, List, [], ◌∷◌, ◌++◌, Option, none, some, true, false,
  arith, Str, bytes, Map, ◌==◌,
}
use distributed_matchmaking.Base.Actions.{value}
use distributed_matchmaking.Client.Requests.{Accepted, message_request_listener}
use distributed_matchmaking.Client.Requests.Inbox.{Readable, message_request_listener_lem}
use distributed_matchmaking.Client.Runner.Pages.{
  Event, nothing_yet, received, closed, returned_nil, more_dots, show_loading_bar,
}
use distributed_matchmaking.Client.Startup.{
  Report, sends_error, sends_nil, exits, events, await_initialized, startup, Response, register,
  initialize,
}

more_dots_bounded : (dots : ℕ) → dots ≤ 3 → more_dots dots ≤ 3
unfolding more_dots
more_dots_bounded dots h = ground arith

-- However long it waits, the loading bar has three dots at most.
pub loading_bounded :
    (events : List Event) (dots : ℕ) → dots ≤ 3 → (show_loading_bar dots events).0 ≤ 3
unfolding show_loading_bar
loading_bounded [] dots h = h
loading_bounded (nothing_yet ∷ events) dots h =
    loading_bounded events (more_dots dots) (more_dots_bounded dots h)
loading_bounded (received is_error ∷ events) dots h = h
loading_bounded (closed ∷ events) dots h = h

received_any :
    (turns dots : ℕ) (report : Report)
    → report ≢ exits
    → (show_loading_bar dots (events turns report)).1 ≡ returned_nil
unfolding show_loading_bar events
received_any zero dots sends_error h = refl
received_any zero dots sends_nil h = refl
received_any turns dots exits h = absurd (h refl)
received_any (suc turns) dots sends_error h = received_any turns (more_dots dots) sends_error h
received_any (suc turns) dots sends_nil h = received_any turns (more_dots dots) sends_nil h

initialized_received :
    (turns : ℕ) (initialized : Report)
    → initialized ≢ exits
    → await_initialized turns initialized ≡ some true
unfolding await_initialized
initialized_received turns exits k = absurd (k refl)
initialized_received turns sends_error k =
    rw (received_any turns 0 sends_error k, await_initialized)
initialized_received turns sends_nil k = rw (received_any turns 0 sends_nil k, await_initialized)

reports_received :
    (turns turns' : ℕ) (registered initialized : Report)
    → registered ≢ exits
    → initialized ≢ exits
    → startup turns registered turns' initialized ≡ some true
unfolding startup
reports_received turns turns' exits initialized h k = absurd (h refl)
reports_received turns turns' sends_error initialized h k =
    rw (received_any turns 0 sends_error h, startup) (initialized_received turns' initialized k)
reports_received turns turns' sends_nil initialized h k =
    rw (received_any turns 0 sends_nil h, startup) (initialized_received turns' initialized k)

-- The status of the answer is another than 201.
unfoldable pub IsRefused : Option Response → Type 0
IsRefused none = ⊥
IsRefused (some resp) = (resp.status_code == 201) ≡ false

register-exits :
    (marshal : Str → Option Str) (post : Str → Str → Option Response) (url user_name payload : Str)
    (answer : Option Response)
    → marshal user_name ≡ some payload
    → post (url ++ bytes "/clients") payload ≡ answer
    → ¬ IsRefused answer
    → register marshal post url user_name ≢ exits
unfolding register IsRefused
register-exits marshal post url user_name payload none m p h e = ground arith
register-exits marshal post url user_name payload (some resp) m p h e = ground arith

module _ {ℓ} {F : Type ℓ} where
  initialize-sends :
      (max_float32 : F) (chat_requests : Map ℕ) (servers : Option (List Str)) (registry : Map F)
      → (initialize max_float32 (value chat_requests) servers registry).2 ≢ exits
  unfolding initialize
  initialize-sends max_float32 chat_requests none registry h = cc
  initialize-sends max_float32 chat_requests (some servers) registry h = cc

  -- If the JSON of the registration can be made and Central does not refuse it with another status
  -- than 201, if port 3001 is to be had, and if no read of a request for a chat that arrives
  -- meanwhile fails, then the client goes on to its menu, however long it takes: also if the request to register fails, so that it is not
  -- registered, and whatever comes of the request for the servers.
  pub startup-continues :
      (turns turns' : ℕ) (marshal : Str → Option Str) (post : Str → Str → Option Response)
      (url user_name payload : Str) (max_float32 : F) (accepted : List Accepted)
      (chat_requests : Map ℕ) (servers : Option (List Str)) (registry : Map F)
      → marshal user_name ≡ some payload
      → ¬ IsRefused (post (url ++ bytes "/clients") payload)
      → All Readable accepted
      → startup turns
          (register marshal post url user_name)
          turns'
          (initialize max_float32
            (message_request_listener true accepted chat_requests)
            servers
            registry).2
        ≡ some true
  startup-continues turns turns' marshal post url user_name payload max_float32 accepted
        chat_requests servers registry m h readable =
      let (filed, e, _) = message_request_listener_lem [] accepted chat_requests readable in
      rw e (
        reports_received turns turns' (register marshal post url user_name)
          (initialize max_float32 (value filed) servers registry).2
          (register-exits marshal post url user_name payload _ m refl h)
          (initialize-sends max_float32 filed servers registry))
