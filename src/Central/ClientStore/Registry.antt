-- ===== src/Central/ClientStore/Registry.antt =====
-- The registered clients: the two directions of lookup, registration and deletion.
use distributed_matchmaking.Base.{
  ◌≡◌, ◌≢◌, ◌⊎◌, inl, inr, ◌↔◌, [], ◌∷◌, some, none, if◌then◌else◌, arith, Str, str_eq, str_eq_iff,
  Map, lookup, insert, delete, lookup-insert, lookup-delete, Distinct, insert-Distinct,
  delete-Distinct, ok, err, Option-cases,
}
use distributed_matchmaking.Central.ClientStore.{
  ClientStore, username_taken, ip_not_found, ip_of, create, read, read_by_username, delete_client,
}

-- No two IPs are registered under one username.
abbrev pub IsUnique : Map Str → Type 0
IsUnique m = (i j u : Str) → lookup i m ≡ some u → lookup j m ≡ some u → i ≡ j

pub record IsRegistry (m : Map Str) : Type 0 where
  pub distinct : Distinct m
  pub unique : IsUnique m

ip_of-eq-none : (u i : Str) (m : Map Str) → ip_of u m ≡ none → lookup i m ≢ some u
unfolding ip_of lookup
ip_of-eq-none u i [] h = ground arith
ip_of-eq-none u i ((j, v) ∷ m) h = ground (arith, str_eq_iff v u, ip_of-eq-none u i m)

ip_of-eq-some : (u i : Str) (m : Map Str) → Distinct m → ip_of u m ≡ some i → lookup i m ≡ some u
unfolding ip_of lookup
ip_of-eq-some u i [] d h = ground arith
ip_of-eq-some u i ((j, v) ∷ m) d h =
    ground (arith, str_eq_iff v u, str_eq_iff j i, ip_of-eq-some u i m d.1)

insert-IsUnique :
    (i u : Str) (m : Map Str) → ip_of u m ≡ none → IsUnique m → IsUnique (insert i u m)
insert-IsUnique i u m fresh q a b v ha hb = ground (
  arith,
  lookup-insert i a u m,
  lookup-insert i b u m,
  str_eq_iff i a,
  str_eq_iff i b,
  ip_of-eq-none u a m fresh,
  ip_of-eq-none u b m fresh,
  q a b v,
)

delete-IsUnique : (i : Str) (m : Map Str) → IsUnique m → IsUnique (delete i m)
delete-IsUnique i m q a b v ha hb =
    ground (arith, lookup-delete i a m, lookup-delete i b m, q a b v)

module _ {F : Type 0} where
  -- Registering a client keeps IPs distinct and usernames unique, whatever the outcome.
  pub create-IsRegistry :
      (s : ClientStore F) (ip username : Str)
      → IsRegistry s.client_data
      → IsRegistry (create s ip username).0.client_data
  unfolding create
  create-IsRegistry s ip username v = elim (Option-cases (ip_of username s.client_data)) [
    | inl e ↦
        rw (e, create)
          (record {
            distinct = insert-Distinct ip username s.client_data v.distinct;
            unique = insert-IsUnique ip username s.client_data e v.unique;
          })
    | inr (_, e) ↦ rw (e, create) v
  ]

  -- Deleting a client keeps IPs distinct and usernames unique, whatever the outcome.
  pub delete_client-IsRegistry :
      (s : ClientStore F) (ip : Str)
      → IsRegistry s.client_data
      → IsRegistry (delete_client s ip).0.client_data
  unfolding delete_client
  delete_client-IsRegistry s ip v = elim (Option-cases (lookup ip s.client_data)) [
    | inl e ↦ rw (e, delete_client) v
    | inr (_, e) ↦
        rw (e, delete_client)
          (record {
            distinct = delete-Distinct ip s.client_data v.distinct;
            unique = delete-IsUnique ip s.client_data v.unique;
          })
  ]

  -- In a valid registry the two lookups are inverse to one another: an IP is found for a username
  -- exactly when that username is found for the IP, in whatever order the map is iterated.
  pub read_by_username_iff :
      (s : ClientStore F) (ip username : Str)
      → IsRegistry s.client_data
      → (read_by_username s username ≡ ok ip) ↔ (read s ip ≡ ok username)
  unfolding read_by_username read
  read_by_username_iff s ip username v = elim (Option-cases (ip_of username m)) [
    | inl e ↦ (ground arith, ground (arith, ip_of-eq-none username ip m e))
    | inr (j, e) ↦
        let here = ip_of-eq-some username j m v.distinct e in
        (ground arith, ground (arith, v.unique j ip username here))
  ]
    where
      m : Map Str
      m = s.client_data

  -- In a valid registry, registering a username either fails with the IP that has it and changes
  -- nothing, or, when no IP has it, succeeds: the IP then reads as the username, whatever it was
  -- registered as before, and every other IP as before.
  pub create_lem :
      (s : ClientStore F) (ip username : Str)
      → IsRegistry s.client_data
      → ((owner : Str) × (read s owner ≡ ok username)
          × (create s ip username ≡ (s, err (username_taken username owner))))
        ⊎ (((owner : Str) → read s owner ≢ ok username)
            × ((create s ip username).1 ≡ ok tt)
            × ((other : Str)
                → read (create s ip username).0 other
                  ≡ (if str_eq ip other then ok username else read s other)))
  unfolding create read
  create_lem s ip username v = elim (Option-cases (ip_of username s.client_data)) [
    | inl e ↦ inr (
      λ owner. ground (arith, ip_of-eq-none username owner s.client_data e),
      ground arith,
      λ other. ground (arith, lookup-insert ip other username s.client_data),
    )
    | inr (owner, e) ↦ inl (
      owner,
      ground (arith, ip_of-eq-some username owner s.client_data v.distinct e),
      ground arith,
    )
  ]

  -- Deleting an IP either fails and changes nothing, when the IP is not registered, or succeeds:
  -- the IP is then not found and every other IP reads as before.
  pub delete_client_lem :
      (s : ClientStore F) (ip : Str)
      → (((username : Str) → read s ip ≢ ok username)
          × (delete_client s ip ≡ (s, err (ip_not_found ip))))
        ⊎ ((username : Str) × (read s ip ≡ ok username)
            × ((delete_client s ip).1 ≡ ok tt)
            × ((other : Str)
                → read (delete_client s ip).0 other
                  ≡ (if str_eq ip other then err (ip_not_found other) else read s other)))
  unfolding delete_client read
  delete_client_lem s ip = elim (Option-cases (lookup ip s.client_data)) [
    | inl e ↦ inl (λ username. ground arith, ground arith)
    | inr (username, e) ↦ inr (
      username,
      ground arith,
      ground arith,
      λ other. ground (arith, lookup-delete ip other s.client_data),
    )
  ]
