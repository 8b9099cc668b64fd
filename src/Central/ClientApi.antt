-- ===== src/Central/ClientApi.antt =====
-- Central/internal/client/api.go: the handlers of the clients' requests. `client_ip` is what
-- `c.ClientIP()` of gin answers, and a request is what `ShouldBindJSON` makes of the body, `none`
-- where it fails.
pub mod Sessions
use distributed_matchmaking.Base.{ℕ, List, [], ◌∷◌, Option, some, none, Str, bytes, Map, ok, err}
use distributed_matchmaking.Central.Responses.{
  Response, respond, message, fields, store_failure, failure, status_ok, status_created,
  status_bad_request, status_not_found, status_conflict,
}
use distributed_matchmaking.Central.ClientStore.{
  ClientStore, StoreError, create, read, read_by_username, delete_client, update_delay_list,
}

abbrev pub client_fields : Str → Str → List (Str × Str)
client_fields ip username = (bytes "ip", ip) ∷ (bytes "username", username) ∷ []

module _ {F : Type 0} where
  unfoldable pub register_client :
      ClientStore F → Str → Option Str → ClientStore F × Response StoreError
  register_client s client_ip none =
      (s, respond status_bad_request (failure (bytes "Invalid JSON payload")))
  register_client s client_ip (some username) =
      let (s', result) = create s client_ip username in
      (
        s',
        elim result [
          | err e ↦ respond status_conflict (store_failure e)
          | ok _ ↦
              respond status_created
                (message (bytes "Client registered") (client_fields client_ip username))
        ],
      )

  unfoldable pub get_client : ClientStore F → Str → Response StoreError
  get_client s client_ip = elim (read s client_ip) [
    | err e ↦ respond status_not_found (store_failure e)
    | ok username ↦ respond status_ok (fields (client_fields client_ip username))
  ]

  unfoldable pub get_client_by_username : ClientStore F → Str → Response StoreError
  get_client_by_username s username = elim (read_by_username s username) [
    | err e ↦ respond status_not_found (store_failure e)
    | ok client_ip ↦ respond status_ok (fields (client_fields client_ip username))
  ]

  unfoldable pub delete_client_handler : ClientStore F → Str → ClientStore F × Response StoreError
  delete_client_handler s client_ip =
      let (s', result) = delete_client s client_ip in
      (
        s',
        elim result [
          | err e ↦ respond status_not_found (store_failure e)
          | ok _ ↦
              respond status_ok (message (bytes "Client deleted") ((bytes "ip", client_ip) ∷ []))
        ],
      )

  -- The store's own method never fails.
  unfoldable pub update_delay_list_handler :
      ClientStore F → Option (Str × Map F) → ClientStore F × Response StoreError
  update_delay_list_handler s none =
      (s, respond status_bad_request (failure (bytes "Invalid request format")))
  update_delay_list_handler s (some (username, delays)) = (
    update_delay_list s username delays,
    respond status_ok (message (bytes "Delay list updated successfully") []),
  )
