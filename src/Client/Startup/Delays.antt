-- ===== src/Client/Startup/Delays.antt =====
-- `updateServerDelays` of Client/client/client.go: the registry that it leaves and its reports.
use distributed_matchmaking.Base.{
  ◌≡◌, refl, ◌∙◌, List, [], ◌∷◌, Option, some, none, false, if◌then◌else◌, Str, str_eq_iff, member,
  Map, lookup, insert, lookup-insert, keys, member-keys, arith, Option-cases, inl, inr,
}
use distributed_matchmaking.Client.Startup.{unreached, delay_of, ping_loop, update_server_delays}

module _ {ℓ} {F : Type ℓ} (max_float32 : F) (dial : Str → Option F) where
  absent-keys : (k : Str) (m : Map F) → lookup k m ≡ none → member k (keys m) ≡ false
  unfolding lookup member
  absent-keys k [] h = refl
  absent-keys k ((j, v) ∷ m) h = ground (arith, absent-keys k m)

  lookup-unreached :
      (k : Str) (servers : List Str) (registry : Map F)
      → lookup k (unreached max_float32 servers registry)
        ≡ (if member k servers then some max_float32 else lookup k registry)
  unfolding unreached member
  lookup-unreached k [] registry = refl
  lookup-unreached k (server ∷ servers) registry =
      lookup-unreached k servers (insert server max_float32 registry)
      ∙ rw (lookup-insert server k max_float32 registry) (ground arith)

  lookup-ping_loop :
      (k : Str) (servers : List Str) (registry : Map F)
      → lookup k (ping_loop max_float32 dial servers registry).0
        ≡ (if member k servers then some (delay_of max_float32 dial k) else lookup k registry)
  unfolding ping_loop member
  lookup-ping_loop k [] registry = refl
  lookup-ping_loop k (server ∷ servers) registry =
      lookup-ping_loop k servers (insert server (delay_of max_float32 dial server) registry)
      ∙ rw (lookup-insert server k (delay_of max_float32 dial server) registry)
          (ground (arith, str_eq_iff server k))

  pub member-unreached :
      (k : Str) (servers : List Str)
      → member k (keys (unreached max_float32 servers [])) ≡ member k servers
  unfolding lookup
  member-unreached k servers =
      let m = unreached max_float32 servers [] in
      let found = lookup-unreached k servers [] in
      elim (Option-cases (lookup k m)) [
        | inl e ↦ ground (arith, found, e, absent-keys k m e)
        | inr (v, e) ↦ ground (arith, found, e, member-keys k v m e)
      ]

  -- After an update with the list of servers at hand, the registry has the measured delay of each
  -- listed server, the largest float for one that does not answer, and no other server.
  pub lookup-update_server_delays :
      (k : Str) (servers : List Str) (registry : Map F)
      → lookup k (update_server_delays max_float32 dial (some servers) registry).0
        ≡ (if member k servers then some (delay_of max_float32 dial k) else none)
  unfolding update_server_delays lookup
  lookup-update_server_delays k servers registry =
      lookup-ping_loop k (keys (unreached max_float32 servers []))
        (unreached max_float32 servers [])
      ∙ rw (member-unreached k servers, lookup-unreached k servers []) (ground arith)
