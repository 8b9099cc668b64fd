-- ===== src/Central/Matchmaking/Rerouting/Moves.antt =====
-- What the analysis of one instance makes of the list of instances.
use distributed_matchmaking.Base.{
  ℕ, ◌<◌, ◌≡◌, ◌≢◌, ◌⊎◌, inl, inr, refl, ◌∙◌, ap, List, [], ◌∷◌, ◌++◌, some, Bool, true, Bool-cases,
  Str, str_eq, str_eq_iff, Map, Result, ok, err, arith,
}
use distributed_matchmaking.Central.Slices.{IsSlice}
use distributed_matchmaking.Central.ClientStore.{
  ChatInstance, ClientStore, StoreError, has_user, instances, insert_chat_instance,
}
use distributed_matchmaking.Central.ClientStore.Instances.{
  Shows, remove_first, remove_chat_instances_for_user_lem, insert_chat_instance_lem,
}
use distributed_matchmaking.Central.Matchmaking.Optimal.{Floats, MatchError}
use distributed_matchmaking.Central.Matchmaking.Optimal.Choice.{some_choice}
use distributed_matchmaking.Central.Matchmaking.Rerouting.{
  move_room, redirects, reroute, compare_servers, analyse,
}

-- The list without the first chat of a user.
abbrev pub without : Str → List ChatInstance → List ChatInstance
without user xs = remove_first (λ c. has_user user c.users) xs

abbrev pub at_server : Str → Str → Str → Str → ChatInstance
at_server room_id client1 client2 server_ip = record {
  chat_server = server_ip;
  users = client1 ∷ client2 ∷ [];
  room_id = room_id;
  active = true;
}

-- The list with a room of two clients at another server: the first chat of each goes, and the room
-- comes last.
unfoldable pub moved : Str → Str → Str → Str → List ChatInstance → List ChatInstance
moved room_id client1 client2 server_ip xs =
    without client2 (without client1 xs) ++ at_server room_id client1 client2 server_ip ∷ []

module _ (fl : Floats) (grow intn : ℕ → ℕ) (dial : Str → Bool) where
  open fl use {F32}

  move_room-Shows :
      (s : ClientStore F32)
      → IsSlice s.heap s.chat_instances
      → (room_id client1 client2 server_ip : Str)
      → (s' : ClientStore F32) × (move_room fl grow intn dial s room_id client1 client2 server_ip
          ≡ some s')
        × Shows s s' (moved room_id client1 client2 server_ip (instances s))
  unfolding move_room moved
  move_room-Shows s v room_id client1 client2 server_ip =
      let (s1, e1, w1) = remove_chat_instances_for_user_lem s v client1 in
      let (s2, e2, w2) = remove_chat_instances_for_user_lem s1 w1.is_slice client2 in
      let (w3, _) =
        insert_chat_instance_lem s2 w2.is_slice grow room_id server_ip (client1 ∷ client2 ∷ []) in
      (
        (insert_chat_instance grow s2 room_id server_ip (client1 ∷ client2 ∷ [])).0,
        rw (e1, e2, move_room),
        record {
          is_slice = w3.is_slice;
          shown =
              w3.shown
              ∙ ap (λ xs. xs ++ at_server room_id client1 client2 server_ip ∷ [])
                  (w2.shown ∙ ap (without client2) w1.shown);
          same_clients = w3.same_clients ∙ w2.same_clients ∙ w1.same_clients;
          same_delays = w3.same_delays ∙ w2.same_delays ∙ w1.same_delays;
        },
      )

  -- Either nothing happens, or the room of the instance goes to the best server, which is another.
  unfoldable pub Outcomes :
      ClientStore F32 → ChatInstance → Str → Str → ClientStore F32 × List (Str × Str) → Type 0
  Outcomes s c client1 client2 (s', sent) =
      ((s' ≡ s) × (sent ≡ []))
      ⊎ ((server : Str) × (server ≢ c.chat_server)
          × Shows s s' (moved c.room_id client1 client2 server (instances s))
          × (sent ≡ redirects fl grow intn dial s' client1 client2 server))

  reroute_lem :
      (s : ClientStore F32)
      → IsSlice s.heap s.chat_instances
      → (c : ChatInstance) (client1 client2 : Str) (result : Result MatchError Str)
      → (after : ClientStore F32 × List (Str × Str)) × (reroute fl grow intn dial s c client1
            client2
            (some result)
          ≡ some after)
        × Outcomes s c client1 client2 after
  unfolding reroute Outcomes
  reroute_lem s v c client1 client2 (err e) = ((s, []), refl, inl (refl, refl))
  reroute_lem s v c client1 client2 (ok server) = elim (Bool-cases (str_eq server c.chat_server)) [
    | inl same ↦ ((s, []), rw (same, reroute), inl (refl, refl))
    | inr other ↦
        let (s', e, w) = move_room-Shows s v c.room_id client1 client2 server in
        (
          (s', redirects fl grow intn dial s' client1 client2 server),
          rw (other, e, reroute),
          inr (server, λ q. ground (arith, other, (str_eq_iff server c.chat_server).1 q), w, refl),
        )
  ]

  compare_servers_lem :
      (s : ClientStore F32)
      → IsSlice s.heap s.chat_instances
      → ((n : ℕ) → 0 < n → intn n < n)
      → (c : ChatInstance) (client1 client2 : Str) (r1 r2 : Result StoreError (Map F32))
      → (after : ClientStore F32 × List (Str × Str)) × (compare_servers fl grow intn dial s c
            client1 client2 r1 r2
          ≡ some after)
        × Outcomes s c client1 client2 after
  unfolding compare_servers Outcomes
  compare_servers_lem s v below c client1 client2 (err e) r2 = ((s, []), refl, inl (refl, refl))
  compare_servers_lem s v below c client1 client2 (ok d1) (err e) =
      ((s, []), refl, inl (refl, refl))
  compare_servers_lem s v below c client1 client2 (ok d1) (ok d2) =
      let (result, e) = some_choice fl d1 d2 intn below in
      rw e (reroute_lem s v c client1 client2 result)

  -- On a well-formed slice, with a random index below its bound, the analysis of an instance with
  -- two clients or more does not panic. It either changes and sends nothing, or takes out the first
  -- chat of its first client and then the first of its second, puts the room with these two at the
  -- end on a server other than before, leaves clients and delays alone, and sends the redirections.
  pub analyse_lem :
      (s : ClientStore F32)
      → IsSlice s.heap s.chat_instances
      → ((n : ℕ) → 0 < n → intn n < n)
      → (c : ChatInstance) (client1 client2 : Str) (more : List Str)
      → (after : ClientStore F32 × List (Str × Str)) × (analyse fl grow intn dial s c
            (client1 ∷ client2 ∷ more)
          ≡ some after)
        × Outcomes s c client1 client2 after
  unfolding analyse
  analyse_lem s v below c client1 client2 more = compare_servers_lem s v below c client1 client2 _ _
