-- ===== src/Tls/KeyExchange.antt =====
-- The pre-master secret on its way from the client to the server.
use distributed_matchmaking.Base.{
  ℕ, suc, ◌<◌, ◌≡◌, refl, ◌∙◌, List, ◌++◌, some, true, arith, length,
}
use distributed_matchmaking.Base.Actions.{value, or_panic, or_fail, bind-value}
use distributed_matchmaking.Tls.Bytes.{put_uint16}
use distributed_matchmaking.Tls.ClientFsm.{send_client_key_exchange}
use distributed_matchmaking.Tls.Connection.{
  Conn, handshake, client_key_exchange, key_encrypt_failed, record_bytes, rand_read,
}
use distributed_matchmaking.Tls.Crypto.{Crypto}
use distributed_matchmaking.Tls.Handshake.{
  append_history, from_result, send_message, expect_message,
}
use distributed_matchmaking.Tls.Handshake.Steps.{arrived, sent, send_message-expect_message}
use distributed_matchmaking.Tls.Messages.{
  handshake_message, key_exchange_payload, with_length, pre_master, key_exchange_secret,
}
use distributed_matchmaking.Tls.Messages.Parsing.{key_exchange_secret-key_exchange_payload}
use distributed_matchmaking.Tls.ServerFsm.{receive_client_key_exchange}

module _ (cr : Crypto) (rand : ℕ → ℕ → List ℕ) where
  open cr use {Certificate, PublicKey, rsa_public_key, rsa_encrypt, rsa_decrypt}

  -- The secret that the client makes up at this point.
  abbrev pub secret : Conn cr rand → List ℕ
  secret c = pre_master (rand c.draws 46)

  abbrev pub drawn : Conn cr rand → Conn cr rand
  drawn c = record c { draws = suc (suc c.draws) }

  module _ (c d : Conn cr rand) (cert : Certificate) (key : PublicKey) (encrypted rest : List ℕ)
      (w : c.writable ≡ true) (known : c.remote_certificate ≡ some cert)
      (rsa : rsa_public_key cert ≡ some key)
      (enciphers : rsa_encrypt (rand (suc c.draws)) key (secret c) ≡ some encrypted)
      (short : length encrypted < 65000)
      (h : d.incoming ≡ record_bytes handshake (key_exchange_payload encrypted) ++ rest) where
    message : List ℕ
    message = key_exchange_payload encrypted

    steps :
        (send_message message (drawn c) ≡ (value tt, sent message (drawn c)))
        × (expect_message client_key_exchange d ≡ (value message, arrived rest d))
    unfolding message key_exchange_payload handshake_message with_length put_uint16
    steps = send_message-expect_message (drawn c) d client_key_exchange _ rest w (omega arith) h

    sends : send_client_key_exchange cr rand c ≡ (value (secret c), sent message (drawn c))
    unfolding send_client_key_exchange rand_read key_exchange_payload message
    sends =
        let c' : Conn cr rand = record c { draws = suc c.draws } in
        bind-value (or_panic c.remote_certificate) _ {t = c'} {a = cert} (rw known refl)
        ∙ bind-value (or_panic (rsa_public_key cert)) _ {t = c'} {a = key} (rw rsa refl)
        ∙ bind-value (or_fail key_encrypt_failed (rsa_encrypt (rand (suc c.draws)) key (secret c)))
            _ {t = drawn c} {a = encrypted} (rw enciphers refl)
        ∙ bind-value (send_message message) _ (unfold message in steps.0)

    receives :
        rsa_decrypt d.certificate_private_key encrypted ≡ some (secret c)
        → receive_client_key_exchange cr rand d
          ≡ (value (secret c), append_history message (arrived rest d))
    unfolding receive_client_key_exchange
    receives deciphers =
        bind-value (expect_message client_key_exchange) _ (steps.1)
        ∙ bind-value (from_result (key_exchange_secret message)) _
            {t = append_history message (arrived rest d)} {a = encrypted}
            (unfold message in rw (key_exchange_secret-key_exchange_payload encrypted) refl)
        ∙ rw deciphers refl

  -- A client that can write and holds a certificate with an RSA key sends the enciphered
  -- pre-master secret, and a server on which this record is next gets from it exactly the secret
  -- that the client keeps, if its private key deciphers what the client enciphered, which has
  -- fewer than 65,000 bytes. Both note the same message in their histories.
  pub send_client_key_exchange-receive_client_key_exchange :
      (c d : Conn cr rand) (cert : Certificate) (key : PublicKey) (encrypted rest : List ℕ)
      → c.writable ≡ true
      → c.remote_certificate ≡ some cert
      → rsa_public_key cert ≡ some key
      → rsa_encrypt (rand (suc c.draws)) key (secret c) ≡ some encrypted
      → rsa_decrypt d.certificate_private_key encrypted ≡ some (secret c)
      → length encrypted < 65000
      → d.incoming ≡ record_bytes handshake (key_exchange_payload encrypted) ++ rest
      → (send_client_key_exchange cr rand c
          ≡ (value (secret c), sent (key_exchange_payload encrypted) (drawn c)))
        × (receive_client_key_exchange cr rand d
            ≡ (value (secret c), append_history (key_exchange_payload encrypted) (arrived rest d)))
  unfolding message
  send_client_key_exchange-receive_client_key_exchange c d cert key encrypted rest w known rsa
        enciphers deciphers short h =
      (
        sends c d cert key encrypted rest w known rsa enciphers short h,
        receives c d cert key encrypted rest w known rsa enciphers short h deciphers,
      )
