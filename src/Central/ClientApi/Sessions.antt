-- ===== src/Central/ClientApi/Sessions.antt =====
-- A client through its requests: registered, found, deleted.
use distributed_matchmaking.Base.{
  ◌≡◌, ◌≢◌, if◌then◌else◌, str_eq, refl, ◌∙◌, ◌⊎◌, inl, inr, some, Str, str_eq_refl, ok,
}
use distributed_matchmaking.Central.Responses.{
  respond, fields, store_failure, status_ok, status_created, status_conflict,
}
use distributed_matchmaking.Central.ClientStore.{
  ClientStore, username_taken, create, read, read_by_username,
}
use distributed_matchmaking.Central.ClientStore.Registry.{
  IsRegistry, create_lem, create-IsRegistry, read_by_username_iff,
}
use distributed_matchmaking.Central.ClientApi.{
  client_fields, register_client, get_client, get_client_by_username,
}

module _ {F : Type 0} where
  -- In a valid registry, a registration is answered either 409, where some IP reads as the username,
  -- with this IP, and changes nothing; or 201, where no IP reads as it, and then the IP reads as the
  -- username and every other IP as before, and GetClient for the IP and GetClientByUsername for the
  -- username both answer 200 with this pair.
  pub register_client_lem :
      (s : ClientStore F) (ip username : Str)
      → IsRegistry s.client_data
      → ((owner : Str) × (read s owner ≡ ok username)
          × (register_client s ip (some username)
              ≡ (s, respond status_conflict (store_failure (username_taken username owner)))))
        ⊎ (((owner : Str) → read s owner ≢ ok username)
            × ((other : Str)
                → read (register_client s ip (some username)).0 other
                  ≡ (if str_eq ip other then ok username else read s other))
            × ((register_client s ip (some username)).1.status ≡ status_created)
            × (get_client (register_client s ip (some username)).0 ip
                ≡ respond status_ok (fields (client_fields ip username)))
            × (get_client_by_username (register_client s ip (some username)).0 username
                ≡ respond status_ok (fields (client_fields ip username))))
  unfolding register_client get_client get_client_by_username
  register_client_lem s ip username v = elim (create_lem s ip username v) [
    | inl (owner, has, e) ↦ inl (owner, has, rw (e, register_client))
    | inr (free, done, after) ↦
        let now : read (create s ip username).0 ip ≡ ok username =
          after ip ∙ rw (str_eq_refl ip) refl in
        let found : read_by_username (create s ip username).0 username ≡ ok ip =
          (read_by_username_iff (create s ip username).0 ip username
              (create-IsRegistry s ip username v)).1
            now in
        inr (
          free,
          after,
          rw (done, register_client),
          rw (now, get_client),
          rw (found, get_client_by_username),
        )
  ]
