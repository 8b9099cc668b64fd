-- ===== src/Client/Startup.antt =====
-- The start of the client: `Register`, `Initialize` and `updateServerDelays` of
-- Client/client/client.go, `GetServers` of Client/service/server_registry_api.go, and `startup` of
-- Client/runner/client_runner.go. JSON and HTTP are arguments.
pub mod Reports
pub mod Delays
pub mod Reporting
use distributed_matchmaking.Base.{
  ℕ, List, [], ◌∷◌, ◌++◌, Option, some, none, Bool, true, false, ◌==◌, if◌then◌else◌, Str, bytes,
  str_eq, Map, insert, keys, replicate, trim_space,
}
use distributed_matchmaking.Base.Actions.{Outcome, value, error, panic}
use distributed_matchmaking.Client.Requests.{Exit, exit}
use distributed_matchmaking.Client.Runner.Pages.{
  Event, nothing_yet, received, closed, Loading, still_loading, returned_nil, exited,
  show_loading_bar,
}

-- `readConfig`, on what the file holds; its errors are `none`.
unfoldable pub read_config : Option Str → Option Str
read_config none = none
read_config (some contents) = elim (trim_space contents) [ [] ↦ none | c ∷ cs ↦ some (c ∷ cs) ]

-- `GetClient`, with the instance that there may be already.
unfoldable pub get_client_instance {ℓ} : {C : Type ℓ} → (Str → C) → Option Str → Option C → Option C
unfolding read_config
get_client_instance new contents (some client) = some client
get_client_instance new contents none = elim (read_config contents) [
  | none ↦ none
  | some url ↦ some (new url)
]

-- What a request sends back: a failure of the transport, or a status and a body, whose reading may
-- fail.
pub record Response : Type 0 where
  pub status_code : ℕ
  pub body : Option Str

module _ (unmarshal : Str → Option (List Str)) where
  -- `GetServers`; the error texts are left out.
  unfoldable pub get_servers : (Str → Option Response) → Str → Option (List Str)
  get_servers get server_url = elim (get (server_url ++ bytes "/services")) [
    | none ↦ none
    | some resp ↦ elim (resp.status_code == 200) [
      | false ↦ none
      | true ↦ elim resp.body [ none ↦ none | some body ↦ unmarshal body ]
    ]
  ]

-- What the goroutine of `Register` does with its channel before it closes it: it sends an error or
-- `nil`, or leaves the program.
pub data Report : Type 0 where
  sends_error sends_nil exits : Report

unfoldable pub register : (Str → Option Str) → (Str → Str → Option Response) → Str → Str → Report
register marshal post url user_name = elim (marshal user_name) [
  | none ↦ sends_error
  | some json_payload ↦ elim (post (url ++ bytes "/clients") json_payload) [
    | none ↦ sends_error
    | some resp ↦ elim (resp.status_code == 201) [ true ↦ sends_nil | false ↦ exits ]
  ]
]

module _ {ℓ} {F : Type ℓ} (max_float32 : F) where
  -- `registry[server] = math.MaxFloat32` for each server.
  unfoldable pub unreached : List Str → Map F → Map F
  unreached [] registry = registry
  unreached (server ∷ servers) registry = unreached servers (insert server max_float32 registry)

  -- `Initialize`: the registry, whether the ping job is started, and the report of its goroutine.
  -- It starts messageRequestListener first, which may leave the program before that: the first
  -- argument is what the listener comes to as long as the client starts.
  unfoldable pub initialize :
      Outcome Exit (Map ℕ) → Option (List Str) → Map F → Map F × Bool × Report
  unfolding unreached
  initialize (error exit) servers registry = (registry, false, exits)
  initialize panic servers registry = (registry, false, exits)
  initialize (value chat_requests) none registry = (registry, false, sends_error)
  initialize (value chat_requests) (some servers) registry =
      (unreached servers registry, true, sends_nil)

  -- `pingServer`, for the delay in milliseconds that a dial takes, if it succeeds in time.
  unfoldable pub ping_server : (Str → Option F) → Str → Option F
  ping_server dial server_ip =
      dial
        ((if str_eq server_ip (bytes "::1") then bytes "localhost" else server_ip) ++ bytes ":3000")

  -- A server that does not answer is as far as can be.
  unfoldable pub delay_of : (Str → Option F) → Str → F
  unfolding ping_server
  delay_of dial server_ip = elim (ping_server dial server_ip) [ none ↦ max_float32 | some ms ↦ ms ]

  -- The second loop of `updateServerDelays` over the servers: the registry, and what
  -- `reportDelaysToCentral` reports after each.
  unfoldable pub ping_loop : (Str → Option F) → List Str → Map F → Map F × List (Map F)
  unfolding delay_of
  ping_loop dial [] registry = (registry, [])
  ping_loop dial (server_ip ∷ servers) registry =
      let registry' = insert server_ip (delay_of dial server_ip) registry in
      let (last, reports) = ping_loop dial servers registry' in (last, registry' ∷ reports)

  -- `updateServerDelays` on what `GetServers` returns.
  unfoldable pub update_server_delays :
      (Str → Option F) → Option (List Str) → Map F → Map F × List (Map F)
  unfolding unreached ping_loop
  update_server_delays dial none registry = (registry, [])
  update_server_delays dial (some servers) registry =
      let new_server_map = unreached servers [] in
      ping_loop dial (keys new_server_map) new_server_map

-- What the loading bar receives of a report, after some turns of its loop.
unfoldable pub events : ℕ → Report → List Event
events turns sends_error = replicate turns nothing_yet ++ received true ∷ closed ∷ []
events turns sends_nil = replicate turns nothing_yet ++ received false ∷ closed ∷ []
events turns exits = replicate turns nothing_yet

-- The second half of `startup`.
unfoldable pub await_initialized : ℕ → Report → Option Bool
unfolding events show_loading_bar
await_initialized turns exits = none
await_initialized turns initialized = elim (show_loading_bar 0 (events turns initialized)).1 [
  | exited ↦ none
  | still_loading ↦ some false
  | returned_nil ↦ some true
]

-- `startup` after the username is read: `none` for an `os.Exit`, else whether the menu is drawn.
unfoldable pub startup : ℕ → Report → ℕ → Report → Option Bool
unfolding await_initialized
startup turns exits turns' initialized = none
startup turns registered turns' initialized =
    elim (show_loading_bar 0 (events turns registered)).1 [
      | exited ↦ none
      | still_loading ↦ some false
      | returned_nil ↦ await_initialized turns' initialized
    ]
