-- ===== src/Central/ServiceApi.antt =====
-- Central/internal/service/api.go: the handlers of the chat servers' requests. `client_ip` is what
-- `c.ClientIP()` of gin answers, `now` what `time.Now` does.
use distributed_matchmaking.Base.{ℕ, [], ◌∷◌, Str, bytes, ok, err}
use distributed_matchmaking.Central.Responses.{
  Response, respond, message, services, store_failure, status_ok, status_created, status_not_found,
  status_conflict,
}
use distributed_matchmaking.Central.ServiceStore.{
  ServiceStore, ServiceError, create, read, patch, delete_service,
}

unfoldable pub register_service : ServiceStore → ℕ → Str → ServiceStore × Response ServiceError
register_service s now client_ip = (
  create s now client_ip,
  respond status_created (message (bytes "Service registered") ((bytes "ip", client_ip) ∷ [])),
)

unfoldable pub get_services : ServiceStore → ℕ → Response ServiceError
get_services s now = respond status_ok (services (read s now))

-- An unregistered server is registered first, so that the patch finds it.
unfoldable pub patch_service : ServiceStore → ℕ → Str → ServiceStore × Response ServiceError
patch_service s now client_ip =
    let (s', result) = patch (create s now client_ip) now client_ip in
    (
      s',
      elim result [
        | err e ↦ respond status_conflict (store_failure e)
        | ok _ ↦
            respond status_ok (message (bytes "Service patched") ((bytes "ip", client_ip) ∷ []))
      ],
    )

unfoldable pub delete_service_handler :
    ServiceStore → ℕ → Str → ServiceStore × Response ServiceError
delete_service_handler s now client_ip =
    let (s', result) = delete_service s now client_ip in
    (
      s',
      elim result [
        | err e ↦ respond status_not_found (store_failure e)
        | ok _ ↦
            respond status_ok (message (bytes "Service deleted") ((bytes "ip", client_ip) ∷ []))
      ],
    )
