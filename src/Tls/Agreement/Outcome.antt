-- ===== src/Tls/Agreement/Outcome.antt =====
-- What a whole handshake leaves at both ends.
use distributed_matchmaking.Base.{ℕ, ◌≡◌, refl, List, [], ◌++◌, some, length}
use distributed_matchmaking.Base.Actions.{Outcome, value}
use distributed_matchmaking.Tls.Agreement.{
  Lawful, Prepared, from_client, from_server, master, client_cipher, server_cipher,
}
use distributed_matchmaking.Tls.Agreement.Runs.{client_run, server_run}
use distributed_matchmaking.Tls.ClientFsm.{handshake_client_controller}
use distributed_matchmaking.Tls.ServerFsm.{handshake_server_controller}
use distributed_matchmaking.Tls.Connection.{Conn, TlsError}
use distributed_matchmaking.Tls.Crypto.{Crypto}
use mathlib.Core.List.{append_assoc, append-nil}

regrouped_client :
    (o a b c d e f : List ℕ)
    → (((((o ++ a) ++ b) ++ c) ++ d) ++ e) ++ f ≡ o ++ (a ++ (b ++ (c ++ (d ++ (e ++ (f ++ []))))))
regrouped_client o a b c d e f = simp (append_assoc, append-nil) refl

regrouped_server : (o a b c : List ℕ) → ((o ++ a) ++ b) ++ c ≡ o ++ (a ++ (b ++ (c ++ [])))
regrouped_server o a b c = simp (append_assoc, append-nil) refl

module _ (cr : Crypto) (rand : ℕ → ℕ → List ℕ) where
  -- Both ends have come through: what each has written and has left to read, one master secret,
  -- the certificate of the other, and one key for each direction.
  unfoldable pub Agrees :
      Conn cr rand
      → Conn cr rand
      → List ℕ
      → List ℕ
      → List ℕ
      → List ℕ
      → Outcome TlsError (Unit {0}) × Conn cr rand
      → Outcome TlsError (Unit {0}) × Conn cr rand
      → Type 0
  Agrees c d sent sent' rest rest' (r, c') (r', d') =
      (r ≡ value tt)
      × (r' ≡ value tt)
      × (c'.outgoing ≡ c.outgoing ++ sent)
      × (d'.outgoing ≡ d.outgoing ++ sent')
      × (c'.incoming ≡ rest)
      × (d'.incoming ≡ rest')
      × (c'.master_secret ≡ d'.master_secret)
      × (length c'.master_secret ≡ 48)
      × (c'.remote_certificate ≡ some d.certificate)
      × (d'.remote_certificate ≡ some c.certificate)
      × (c'.msg_history ≡ d'.msg_history)
      × (client_key server_key : List ℕ) × (c'.mat_block.encrypt_cipher ≡ some client_key)
      × (d'.mat_block.decrypt_cipher ≡ some client_key)
      × (d'.mat_block.encrypt_cipher ≡ some server_key)
      × (c'.mat_block.decrypt_cipher ≡ some server_key)

  -- Let the crypto library be lawful, let both ends be able to write, start from one history and
  -- have an RSA certificate that the other can parse, with its private key, let the encryption of
  -- the secret and the signature succeed, and let each read what the other sends, before anything
  -- else. Then both controllers return without an error, each having sent exactly what the other
  -- has read and leaving what follows. Both hold the same master secret of 48 bytes and the
  -- certificate of the other, and have noted the same messages; what each encrypts with is what
  -- the other decrypts with.
  pub handshake-Agrees :
      (c d : Conn cr rand) (laws : Lawful cr rand) (p : Prepared cr rand c d) (rest rest' : List ℕ)
      → c.incoming ≡ from_server cr rand c d laws p rest
      → d.incoming ≡ from_client cr rand c d laws p rest'
      → Agrees c d
          (from_client cr rand c d laws p [])
          (from_server cr rand c d laws p [])
          rest
          rest'
          (handshake_client_controller cr rand c)
          (handshake_server_controller cr rand d)
  unfolding Agrees
  handshake-Agrees c d laws p rest rest' hc hd =
      rw
        (
          client_run cr rand c d laws p rest rest' hc hd,
          server_run cr rand c d laws p rest rest' hc hd,
        )
        (
          refl,
          refl,
          regrouped_client c.outgoing _ _ _ _ _ _,
          regrouped_server d.outgoing _ _ _,
          refl,
          refl,
          refl,
          (master cr rand c d laws p).2,
          refl,
          refl,
          rw p.same_history refl,
          client_cipher cr rand c d laws p,
          server_cipher cr rand c d laws p,
          refl,
          refl,
          refl,
          refl,
        )
