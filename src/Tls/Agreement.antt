-- ===== src/Tls/Agreement.antt =====
-- A whole handshake between `HandshakeClientController` of TLS/tls/tls-client-fsm.go and
-- `HandshakeServerController` of TLS/tls/tls-server-fsm.go: what is assumed of the two ends, the
-- messages, and the states of both.
pub mod Ciphers
pub mod Runs
pub mod Outcome
use distributed_matchmaking.Base.{ℕ, suc, ◌<◌, ◌≡◌, List, [], ◌++◌, some, true, length}
use distributed_matchmaking.Tls.Cipher.RoundTrip.{AreBytes, IsBlockCipher}
use distributed_matchmaking.Tls.Connection.{Conn, handshake, change_cipher_spec, record_bytes}
use distributed_matchmaking.Tls.Crypto.{Crypto}
use distributed_matchmaking.Tls.Finish.{finished_record, cipher_changed, has_finished}
use distributed_matchmaking.Tls.Flight.{flight, informed, answered, noted}
use distributed_matchmaking.Tls.Handshake.{
  with_client_random, with_remote_certificate, with_master_secret, key_part,
}
use distributed_matchmaking.Tls.Handshake.Steps.{arrived, sent}
use distributed_matchmaking.Tls.Hello.{greeting}
use distributed_matchmaking.Tls.KeyExchange.{drawn}
use distributed_matchmaking.Tls.Keys.{block_of, filled}
use distributed_matchmaking.Tls.Messages.{
  client_hello_payload, certificate_payload, key_exchange_payload, pre_master,
  certificate_verify_payload, change_cipher_spec_payload,
}
use distributed_matchmaking.Tls.Prf.{generate_master_secret, generate_master_secret-length}

module _ (cr : Crypto) (rand : ℕ → ℕ → List ℕ) where
  open cr use {
    rand_succeeds, PublicKey, raw, parse_certificate, rsa_public_key, rsa_encrypt, rsa_decrypt,
    rsa_sign, rsa_verify, sha256, hmac_sha256, aes_encrypt, aes_decrypt,
  }

  -- The sizes of digests and of random bytes, that random bytes can be read, and that AES deciphers
  -- what it enciphers.
  pub record Lawful : Type 0 where
    pub digest_size : (key message : List ℕ) → length (hmac_sha256 key message) ≡ 32
    pub digest_bytes : (message : List ℕ) → AreBytes (sha256 message)
    pub block_cipher :
        (key : List ℕ) → length key ≡ 16 → IsBlockCipher (aes_encrypt key) (aes_decrypt key)
    pub rand_works : (i : ℕ) → rand_succeeds i ≡ true
    pub fresh : (i n : ℕ) → (length (rand i n) ≡ n) × AreBytes (rand i n)

  module _ (c d : Conn cr rand) where
    -- The client's secret: its first draw is the random of the hello.
    abbrev pub agreed_secret : List ℕ
    agreed_secret = pre_master (rand (suc c.draws) 46)

    -- The messages before the client's signature.
    abbrev pub signed_history : List ℕ → List ℕ
    signed_history encrypted =
        let greeted =
          (answered cr rand (record d {
            msg_history = c.msg_history ++ client_hello_payload (rand c.draws 32);
          })).msg_history in
        (greeted ++ certificate_payload (raw c.certificate)) ++ key_exchange_payload encrypted

    -- Two ends that can write and start from one history, each with an RSA certificate that the
    -- other can parse and with the private key of it.
    pub record Prepared : Type 0 where
      pub client_writes : c.writable ≡ true
      pub server_writes : d.writable ≡ true
      pub same_history : d.msg_history ≡ c.msg_history
      pub client_cert_short : length (raw c.certificate) < 65000
      pub client_cert_parses : parse_certificate (raw c.certificate) ≡ some c.certificate
      pub client_key : PublicKey
      pub client_cert_key : rsa_public_key c.certificate ≡ some client_key
      pub server_cert_short : length (raw d.certificate) < 65000
      pub server_cert_parses : parse_certificate (raw d.certificate) ≡ some d.certificate
      pub server_key : PublicKey
      pub server_cert_key : rsa_public_key d.certificate ≡ some server_key
      pub encrypted : List ℕ
      pub enciphers :
          rsa_encrypt (rand (suc (suc c.draws))) server_key agreed_secret ≡ some encrypted
      pub encrypted_short : length encrypted < 65000
      pub deciphers :
          (random : ℕ → List ℕ) (plain enciphered : List ℕ)
          → rsa_encrypt random server_key plain ≡ some enciphered
          → rsa_decrypt d.certificate_private_key enciphered ≡ some plain
      pub signature : List ℕ
      pub signs :
          rsa_sign c.certificate_private_key (sha256 (signed_history encrypted)) ≡ some signature
      pub signature_short : length signature < 65000
      pub verifies :
          (digest s : List ℕ)
          → rsa_sign c.certificate_private_key digest ≡ some s
          → rsa_verify client_key digest s ≡ true

    module _ (laws : Lawful) (p : Prepared) where
      abbrev pub client_random : List ℕ
      client_random = rand c.draws 32

      abbrev pub server_random : List ℕ
      server_random = rand d.draws 32

      -- The master secret and the keys of both ends.
      abbrev pub master :
          (secret : List ℕ) × (generate_master_secret hmac_sha256 client_random server_random
              agreed_secret
            ≡ some secret)
          × (length secret ≡ 48)
      master =
          generate_master_secret-length hmac_sha256 laws.digest_size client_random server_random
            agreed_secret

      unfoldable pub agreed_block : List ℕ
      agreed_block = block_of cr rand laws.digest_size (master.0) server_random client_random

      abbrev pub client_cipher : List ℕ
      client_cipher = key_part 40 16 agreed_block

      abbrev pub server_cipher : List ℕ
      server_cipher = key_part 56 16 agreed_block

      -- The client, from its hello to its keys; `rest` is what is still to come from the server.
      abbrev pub client1 : Conn cr rand
      client1 = sent (client_hello_payload client_random) (greeting cr rand c)

      abbrev pub client2 : List ℕ → Conn cr rand
      client2 rest = informed cr rand server_random d.certificate rest client1

      abbrev pub client3 : List ℕ → Conn cr rand
      client3 rest = sent (certificate_payload (raw c.certificate)) (client2 rest)

      abbrev pub client4 : List ℕ → Conn cr rand
      client4 rest = sent (key_exchange_payload p.encrypted) (drawn cr rand (client3 rest))

      abbrev pub client5 : List ℕ → Conn cr rand
      client5 rest = sent (certificate_verify_payload p.signature) (client4 rest)

      abbrev pub client6 : List ℕ → Conn cr rand
      client6 rest =
          filled cr rand laws.digest_size agreed_block (some client_cipher) (some server_cipher)
            (with_master_secret (master.0) (client5 rest))

      abbrev pub client7 : List ℕ → Conn cr rand
      client7 rest = has_finished cr rand client_cipher (cipher_changed cr rand (client6 rest))

      -- The server likewise.
      abbrev pub server1 : List ℕ → Conn cr rand
      server1 rest =
          with_client_random client_random
            (noted cr rand (client_hello_payload client_random) rest d)

      abbrev pub server2 : List ℕ → Conn cr rand
      server2 rest = answered cr rand (server1 rest)

      abbrev pub server3 : List ℕ → Conn cr rand
      server3 rest =
          with_remote_certificate c.certificate
            (noted cr rand (certificate_payload (raw c.certificate)) rest (server2 rest))

      abbrev pub server4 : List ℕ → Conn cr rand
      server4 rest = noted cr rand (key_exchange_payload p.encrypted) rest (server3 rest)

      abbrev pub server5 : List ℕ → Conn cr rand
      server5 rest = noted cr rand (certificate_verify_payload p.signature) rest (server4 rest)

      abbrev pub server6 : List ℕ → Conn cr rand
      server6 rest =
          filled cr rand laws.digest_size agreed_block (some server_cipher) (some client_cipher)
            (with_master_secret (master.0) (server5 rest))

      abbrev pub server7 : List ℕ → Conn cr rand
      server7 rest = has_finished cr rand server_cipher (cipher_changed cr rand (server6 rest))

      -- What the client sends, and what the server sends, each before some rest.
      abbrev pub changed : List ℕ
      changed = record_bytes change_cipher_spec change_cipher_spec_payload

      abbrev pub client_finished : List ℕ
      client_finished = finished_record cr rand (cipher_changed cr rand (client6 [])) client_cipher

      abbrev pub server_finished : List ℕ
      server_finished = finished_record cr rand (cipher_changed cr rand (server6 [])) server_cipher

      abbrev pub from_client : List ℕ → List ℕ
      from_client rest =
          record_bytes handshake (client_hello_payload client_random)
          ++ (record_bytes handshake (certificate_payload (raw c.certificate))
              ++ (record_bytes handshake (key_exchange_payload p.encrypted)
                  ++ (record_bytes handshake (certificate_verify_payload p.signature)
                      ++ (changed ++ (client_finished ++ rest)))))

      abbrev pub from_server : List ℕ → List ℕ
      from_server rest =
          flight cr rand server_random (raw d.certificate) ++ (changed ++ (server_finished ++ rest))
