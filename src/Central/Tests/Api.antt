-- ===== src/Central/Tests/Api.antt =====
-- The handlers of Central on a concrete store.
use distributed_matchmaking.Base.{
  ℕ, ◌≡◌, ◌≢◌, if◌then◌else◌, ok, refl, arith, ◌⊎◌, [], ◌∷◌, some, Str, bytes, lookup, str_eq,
}
use distributed_matchmaking.Central.Responses.{
  respond, fields, store_failure, status_ok, status_created, status_conflict,
}
use distributed_matchmaking.Central.ClientStore.{ClientStore, username_taken, read}
use distributed_matchmaking.Central.ClientStore.Registry.{IsRegistry}
use distributed_matchmaking.Central.ClientApi.{
  client_fields, register_client, get_client, get_client_by_username,
}
use distributed_matchmaking.Central.ClientApi.Sessions.{register_client_lem}

abbrev home : Str
home = bytes "10.0.0.1"

abbrev registered : ClientStore ℕ
registered = record {
  client_data = (bytes "10.0.0.2", bytes "ann") ∷ [];
  delay_lists = [];
  chat_instances = record { arr = 0; len = 0 };
  heap = [] ∷ [];
}

registered-IsRegistry : IsRegistry registered.client_data
unfolding lookup str_eq
registered-IsRegistry = record { distinct = (refl, tt); unique = λ i j u p q. ground arith }

register_client_lem_example :
    ((owner : Str) × (read registered owner ≡ ok (bytes "bob"))
      × (register_client registered home (some (bytes "bob")) ≡ (
        registered,
        respond status_conflict (store_failure (username_taken (bytes "bob") owner)),
      )))
    ⊎ (((owner : Str) → read registered owner ≢ ok (bytes "bob"))
        × ((other : Str)
            → read (register_client registered home (some (bytes "bob"))).0 other
              ≡ (if str_eq home other then ok (bytes "bob") else read registered other))
        × ((register_client registered home (some (bytes "bob"))).1.status ≡ status_created)
        × (get_client (register_client registered home (some (bytes "bob"))).0 home
            ≡ respond status_ok (fields (client_fields home (bytes "bob"))))
        × (get_client_by_username
              (register_client registered home (some (bytes "bob"))).0
              (bytes "bob")
            ≡ respond status_ok (fields (client_fields home (bytes "bob")))))
register_client_lem_example =
    register_client_lem registered home (bytes "bob") registered-IsRegistry
