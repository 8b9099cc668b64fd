-- ===== src/Central/Matchmaking/Session/Effect.antt =====
-- What a session (`handleConnection` of Central/internal/matchmaking/matchmaking.go) itself does to
-- the client store, next to what the other goroutines do.
use distributed_matchmaking.Base.{
  zero, suc, ℕ, [], ◌∷◌, ◌++◌, Option, some, none, Bool, true, false, Bool-cases, inl, inr, ◌∙◌,
  Str, bytes, Map, Result, ok, err, ◌≡◌, refl,
}
use mathlib.Core.Path.{subst}
use distributed_matchmaking.Base.Actions.{Outcome, value, error, panic, after, check}
use distributed_matchmaking.Central.ClientStore.{
  ClientStore, StoreError, read, read_by_username, get_delay_list, insert_chat_instance,
}
use distributed_matchmaking.Central.Matchmaking.Optimal.{Floats, compute_optimal_server}
use distributed_matchmaking.Central.Matchmaking.Session.{
  Stop, Surroundings, World, Session, write_client, write_peer, ask_store, look, authorize, want,
  locate, dial_peer, dial_failed, find_peer, open_request, request_match, awaiting, take_result,
  await_reply, server_error, get_requested_username, client_ip, generate_room_id,
}

-- `R` holds between two stores if the other goroutines may lead from one to the other.
module _ {fl : Floats} (env : Surroundings fl)
    (R : ClientStore (fl.F32) → ClientStore (fl.F32) → Type 0) where
  open fl use {F32}

  -- What a session that has ended well has done, when it began in the store `s`: the user that the
  -- client's address is registered for, the user that it has asked for, whose address is known, a
  -- server that is optimal for the delay lists of the two, and a room, of which it has inserted an
  -- instance.
  pub record Inserted (s store : ClientStore F32) : Type 0 where
    pub username : Str
    pub req_user_ip : Str
    pub server_ip : Str
    pub room_id : Str
    pub client1_delay : Map F32
    pub client2_delay : Map F32
    -- The stores that its calls find.
    pub at_authorize : ClientStore F32
    pub at_locate : ClientStore F32
    pub at_delay1 : ClientStore F32
    pub at_delay2 : ClientStore F32
    pub at_insert : ClientStore F32
    pub led : R s at_authorize × R s at_locate × R s at_delay1 × R s at_delay2 × R s at_insert
    pub authorized : read at_authorize (client_ip env.remote_addr) ≡ ok username
    pub located :
        read_by_username at_locate (get_requested_username env.first_read) ≡ ok req_user_ip
    pub delay1 : get_delay_list at_delay1 username ≡ ok client1_delay
    pub delay2 : get_delay_list at_delay2 (get_requested_username env.first_read) ≡ ok client2_delay
    pub chosen :
        compute_optimal_server fl client1_delay client2_delay env.intn ≡ some (ok server_ip)
    pub drawn : generate_room_id env.current_time env.random_bytes ≡ some room_id
    pub inserted :
        store
        ≡ (insert_chat_instance env.grow at_insert room_id server_ip
            (username ∷ get_requested_username env.first_read ∷ [])).0

  -- A session that does not end well does nothing to the store itself.
  unfoldable pub Inserts : ClientStore F32 → Outcome Stop (Unit {0}) × World fl → Type 0
  Inserts s (value _, w) = Inserted s w.store
  Inserts s (error _, w) = R s w.store
  Inserts s (panic, w) = R s w.store

  -- A part of the session, which began in the store `s`: it does nothing to the store, and `Q` holds
  -- of what it returns.
  unfoldable pub Keeps :
      {A : Type 0} → ClientStore F32 → (A → Type 0) → Outcome Stop A × World fl → Type 0
  Keeps s Q (value a, w) = R s w.store × Q a
  Keeps s Q (error _, w) = R s w.store
  Keeps s Q (panic, w) = R s w.store

  pub then_Inserts :
      {A : Type 0} (s : ClientStore F32) (Q : A → Type 0) (f : A → Session fl (Unit {0}))
      (r : Outcome Stop A) (w : World fl)
      → Keeps s Q (r, w)
      → ((a : A) (w : World fl) → R s w.store → Q a → Inserts s (f a w))
      → Inserts s (after f r w)
  unfolding Keeps Inserts
  then_Inserts s Q f (value a) w (h, q) next = next a w h q
  then_Inserts s Q f (error e) w h next = h
  then_Inserts s Q f panic w h next = h

  weaken_Keeps :
      {A : Type 0} (s : ClientStore F32) (Q P : A → Type 0) (r : Outcome Stop A) (w : World fl)
      → Keeps s Q (r, w)
      → ((a : A) → Q a → P a)
      → Keeps s P (r, w)
  unfolding Keeps
  weaken_Keeps s Q P (value a) w (h, q) f = (h, f a q)
  weaken_Keeps s Q P (error e) w h f = h
  weaken_Keeps s Q P panic w h f = h

  then_Keeps :
      {A B : Type 0} (s : ClientStore F32) (Q : A → Type 0) (P : B → Type 0) (f : A → Session fl B)
      (r : Outcome Stop A) (w : World fl)
      → Keeps s Q (r, w)
      → ((a : A) (w : World fl) → R s w.store → Q a → Keeps s P (f a w))
      → Keeps s P (after f r w)
  unfolding Keeps
  then_Keeps s Q P f (value a) w (h, q) next = next a w h q
  then_Keeps s Q P f (error e) w h next = h
  then_Keeps s Q P f panic w h next = h

  module _ (s : ClientStore F32) (w : World fl) (here : R s w.store) where
    authorize-Keeps :
        (found : Result StoreError Str)
        → Keeps s (λ username. found ≡ ok username) (authorize fl found w)
    unfolding authorize write_client Keeps
    authorize-Keeps (err e) = here
    authorize-Keeps (ok []) = here
    authorize-Keeps (ok (c ∷ cs)) = (here, refl)

    want-Keeps : (wanted : Str) → Keeps s (λ user. wanted ≡ user) (want fl wanted w)
    unfolding want write_client Keeps
    want-Keeps [] = here
    want-Keeps (c ∷ cs) = (here, refl)

    locate-Keeps :
        (found : Result StoreError Str)
        → Keeps s (λ _. (ip : Str) × (found ≡ ok ip)) (locate fl found w)
    unfolding locate write_client Keeps
    locate-Keeps (err e) = here
    locate-Keeps (ok ip) = (here, (ip, refl))

    dial_peer-Keeps :
        (username req_user ip : Str)
        → Keeps s (λ users. (username, req_user) ≡ users) (dial_peer fl env username req_user ip w)
    unfolding dial_peer Keeps
    dial_peer-Keeps username req_user ip = dialled (env.dial (ip ++ bytes ":3001"))
      where
        dialled :
            (answers : Bool)
            → Keeps {A = Str × Str} s
                (λ users. (username, req_user) ≡ users)
                (after
                  (λ _ w. (value (username, req_user), w))
                  (check answers dial_failed w).0
                  (check answers dial_failed w).1)
        dialled true = (here, refl)
        dialled false = here

    take_result-Keeps : (found : Option Bool) → Keeps s (λ _. Unit {0}) (take_result fl env found w)
    unfolding take_result write_client Keeps
    take_result-Keeps none = here
    take_result-Keeps (some true) = (here, tt)
    take_result-Keeps (some false) = (here, tt)

    request_match-Keeps :
        (username : Str) → Keeps s (λ _. Unit {0}) (request_match fl env username w)
    unfolding request_match write_peer Keeps
    request_match-Keeps username = elim (Bool-cases env.request_written) [
      | inl e ↦ rw (e, request_match) (here, tt)
      | inr e ↦ rw (e, request_match) (here, tt)
    ]

    pub server_error-Inserts : (stop : Stop) → Inserts s (server_error fl env stop w)
    unfolding server_error write_client write_peer Inserts
    server_error-Inserts stop = here

  awaiting-Keeps :
      (s : ClientStore F32) (n : ℕ) (w : World fl)
      → R s w.store
      → Keeps s (λ _. Unit {0}) (awaiting fl env n w)
  unfolding awaiting write_client Keeps
  awaiting-Keeps s zero w here = (here, tt)
  awaiting-Keeps s (suc n) w here =
      awaiting-Keeps s n (record w { to_client = w.to_client ++ bytes "AWAITING_REQ\n" }) here

  module _ (here : (s : ClientStore F32) → R s s)
      (onward : (s t u : ClientStore F32) → R s t → R t u → R s u)
      (others : (n : ℕ) (s : ClientStore F32) → R s (env.others n s)) where
    -- A question to the store is answered in a store that the other goroutines lead to.
    pub look-Keeps :
        {A : Type 0} (s : ClientStore F32) (question : ClientStore F32 → A) (w : World fl)
        → R s w.store
        → Keeps s
            (λ answer. (t : ClientStore F32) × R s t × (question t ≡ answer))
            (look fl env question w)
    unfolding ask_store Keeps
    look-Keeps s question w r =
        let t = env.others w.uses w.store in
        let led = onward s w.store t r (others w.uses w.store) in (led, (t, led, refl))

    -- The address of the user that is asked for is known.
    abbrev pub Located : ClientStore F32 → Str → Type 0
    Located s req_user =
        (t : ClientStore F32) × (ip : Str) × R s t × (read_by_username t req_user ≡ ok ip)

    find_peer-Keeps :
        (s : ClientStore F32) (username req_user : Str) (w : World fl)
        → R s w.store
        → Keeps s
            (λ users. ((username, req_user) ≡ users) × Located s req_user)
            (find_peer fl env username req_user w)
    unfolding find_peer write_client
    find_peer-Keeps s username req_user w r =
        then_Keeps s _ _ _ _ _
          (look-Keeps s (λ t. read_by_username t req_user)
            (record w { to_client = w.to_client ++ bytes "ACK\n" }) r)
          (λ peer w1 r1 (t, led, e).
            then_Keeps s _ _ _ _ _ (locate-Keeps s w1 r1 peer) (λ ip w2 r2 (known, found).
              weaken_Keeps s _ _ _ _ (dial_peer-Keeps s w2 r2 username req_user ip)
                (λ users same. (same, (t, known, led, e ∙ found)))))

    -- What the first part of the session has found out.
    abbrev pub Found : ClientStore F32 → Str × Str → Type 0
    Found s users =
        ((t : ClientStore F32) × R s t × (read t (client_ip env.remote_addr) ≡ ok users.0))
        × (get_requested_username env.first_read ≡ users.1)
        × Located s users.1

    pub open_request-Keeps : (w : World fl) → Keeps w.store (Found w.store) (open_request fl env w)
    unfolding open_request
    open_request-Keeps w =
        then_Keeps w.store _ _ _ _ _
          (look-Keeps w.store (λ t. read t (client_ip env.remote_addr)) w (here w.store))
          (λ found w1 r1 (t, led, e).
            then_Keeps w.store _ _ _ _ _ (authorize-Keeps w.store w1 r1 found)
              (λ username w2 r2 known.
                then_Keeps w.store _ _ _ _ _
                  (want-Keeps w.store w2 r2 (get_requested_username env.first_read))
                  (λ req_user w3 r3 wanted.
                    weaken_Keeps w.store _ _ _ _ (find_peer-Keeps w.store username req_user w3 r3)
                      (λ users (same, located).
                        subst (Found w.store) same ((t, led, e ∙ known), wanted, located)))))

    pub await_reply-Keeps :
        (s : ClientStore F32) (username : Str) (w : World fl)
        → R s w.store
        → Keeps s (λ _. Unit {0}) (await_reply fl env username w)
    unfolding await_reply write_client
    await_reply-Keeps s username w r =
        then_Keeps s _ _ _ _ _ (request_match-Keeps s w r username) (λ found w1 r1 _.
          then_Keeps s _ _ _ _ _
            (awaiting-Keeps s env.waits
              (record w1 { to_client = w1.to_client ++ bytes "REQ_SENT\n" }) r1)
            (λ _ w2 r2 _. take_result-Keeps s w2 r2 found))
