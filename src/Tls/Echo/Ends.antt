-- ===== src/Tls/Echo/Ends.antt =====
-- How the loop of the server of TLS/server.go ends.
use distributed_matchmaking.Base.{
  ℕ, zero, suc, ◌+◌, ◌≤◌, ◌<◌, ◌≡◌, ◌≢◌, ◌⊎◌, inl, inr, refl, List, Bool, true, false, arith,
  length, Str,
}
use distributed_matchmaking.Base.Actions.{Outcome, value, error, panic, check, pure, ◌>>◌, or_panic}
use distributed_matchmaking.Tls.Cipher.{CipherError, block_size, seal, unseal}
use distributed_matchmaking.Tls.Connection.{
  Conn, TlsConnection, TlsError, out_of_fuel, from_outcome, read, write, read_tls_content,
  write_tls_content, application_data, encrypt_content, decrypt_content, rand_read, encrypt_failed,
}
use distributed_matchmaking.Tls.Connection.Usage.{
  Uses, bind-Uses, value-Uses, or_panic-Uses, read_tls_content-Uses,
}
use distributed_matchmaking.Tls.Crypto.{Crypto}
use distributed_matchmaking.Tls.Echo.{
  Talk, Ending, stopped, crashed, fresh_buffer, server_round, server_loop, on_round,
}

-- An ending by the error of a call, or by a panic.
abbrev pub HasFailed : Ending → Type 0
HasFailed ending = ((e : TlsError) × (ending ≡ stopped e) × (e ≢ out_of_fuel)) ⊎ (ending ≡ crashed)

module _ {C K : Type 0} where
  from_outcome-Uses :
      (r : Outcome CipherError (List ℕ)) (c : TlsConnection C K) (k n : ℕ)
      → length c.incoming + k ≤ n
      → Uses k n (from_outcome r c)
  unfolding Uses
  from_outcome-Uses r c k n h = ground arith

  write_tls_content-Uses :
      (t : ℕ) (payload : List ℕ) (c : TlsConnection C K) (k n : ℕ)
      → length c.incoming + k ≤ n
      → Uses k n (write_tls_content t payload c)
  unfolding write_tls_content Uses
  write_tls_content-Uses t payload c k n h = ground arith

  sealed-Uses :
      (test : Bool) (sealed : List ℕ) (c : TlsConnection C K) (n : ℕ)
      → length c.incoming + 5 ≤ n
      → Uses 5 n ((check test encrypt_failed >> pure sealed) c)
  unfolding Uses
  sealed-Uses true sealed c n h = h
  sealed-Uses false sealed c n h = ground arith

module _ (cr : Crypto) (rand : ℕ → ℕ → List ℕ) where
  open cr use {rand_succeeds, aes_encrypt, aes_decrypt}

  read-Uses :
      (buffer : List ℕ) (c : Conn cr rand) (n : ℕ)
      → length c.incoming ≤ n
      → Uses 5 n (read cr rand buffer c)
  unfolding read decrypt_content
  read-Uses buffer c n h =
      bind-Uses read_tls_content _ c 5 5 n (read_tls_content-Uses c n h) (λ ct d hd.
        bind-Uses (decrypt_content cr rand ct.payload) _ d 5 5 n
          (bind-Uses (or_panic d.mat_block.decrypt_cipher) _ d 5 5 n (or_panic-Uses _ d 5 n hd)
            (λ key e he. from_outcome-Uses (unseal (aes_decrypt key) ct.payload) e 5 n he))
          (λ content e he. value-Uses _ e 0 5 n he))

  write-Uses :
      (content : List ℕ) (c : Conn cr rand) (n : ℕ)
      → length c.incoming + 5 ≤ n
      → Uses 5 n (write cr rand content c)
  unfolding write encrypt_content rand_read
  write-Uses content c n h =
      bind-Uses (encrypt_content cr rand content) _ c 5 5 n
        (bind-Uses (or_panic c.mat_block.encrypt_cipher) _ c 5 5 n (or_panic-Uses _ c 5 n h)
          (λ key d hd.
            sealed-Uses (rand_succeeds c.draws)
              (seal (aes_encrypt key) (rand d.draws block_size) content)
              (record d { draws = suc d.draws }) n hd))
        (λ encrypted d hd.
          bind-Uses (write_tls_content application_data encrypted) _ d 5 5 n
            (write_tls_content-Uses application_data encrypted d 5 n hd)
            (λ _ e he. value-Uses _ e 0 5 n he))

  server_round-Uses :
      (c : Conn cr rand) (n : ℕ) → length c.incoming ≤ n → Uses 5 n (server_round cr rand c)
  unfolding server_round
  server_round-Uses c n h =
      bind-Uses (read cr rand fresh_buffer) _ c 5 5 n (read-Uses fresh_buffer c n h)
        (λ (size, buf) d hd.
          bind-Uses (write cr rand _) _ d 5 5 n (write-Uses _ d n hd)
            (λ _ e he. value-Uses _ e 0 5 n he))

  round-ends :
      (more : Conn cr rand → Talk cr rand) (r : Outcome TlsError Str) (c : Conn cr rand) (n : ℕ)
      → Uses 5 n (r, c)
      → ((d : Conn cr rand) → length d.incoming + 5 ≤ n → HasFailed (more d).1)
      → HasFailed (on_round cr rand more (r, c)).1
  unfolding Uses
  round-ends more (value received) c n u g = g c u
  round-ends more (error e) c n u g = inl (e, refl, u)
  round-ends more panic c n u g = inr refl

  loop-ends :
      (fuel : ℕ) (c : Conn cr rand)
      → length c.incoming < fuel
      → HasFailed (server_loop cr rand fuel c).1
  unfolding server_loop
  loop-ends zero c small = elim small [ ]
  loop-ends (suc fuel) c small =
      round-ends (server_loop cr rand fuel) _ _ (length c.incoming)
        (server_round-Uses c (length c.incoming) (omega arith))
        (λ d hd. loop-ends fuel d (omega arith))

  -- Whatever bytes are left and whatever keys are held, the loop of the server ends within the
  -- rounds that it is given: by the error of one of its calls or by a panic.
  pub server_loop-ends :
      (c : Conn cr rand)
      → let (shown, ending, c') = server_loop cr rand (suc (length c.incoming)) c in
        ((e : TlsError) × (ending ≡ stopped e) × (e ≢ out_of_fuel)) ⊎ (ending ≡ crashed)
  server_loop-ends c = loop-ends (suc (length c.incoming)) c (omega arith)
