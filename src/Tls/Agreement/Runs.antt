-- ===== src/Tls/Agreement/Runs.antt =====
-- The runs of both controllers.
use distributed_matchmaking.Base.{ℕ, ◌≡◌, refl, ◌∙◌, List, [], ◌++◌}
use distributed_matchmaking.Base.Actions.{value, bind-value}
use distributed_matchmaking.Tls.Agreement
use distributed_matchmaking.Tls.Agreement.Ciphers.{
  client_cipher_size, server_cipher_size, client_keys, server_keys,
}
use distributed_matchmaking.Tls.CertificateVerify.{send_certificate_verify-on_certificate_verify}
use distributed_matchmaking.Tls.ClientFsm.{
  send_client_hello, receive_server_messages, send_client_certificate, send_client_key_exchange,
  send_certificate_verify, client_generate_keys, handshake_client_controller,
}
use distributed_matchmaking.Tls.Connection.{Conn, record_bytes, handshake}
use distributed_matchmaking.Tls.Crypto.{Crypto}
use distributed_matchmaking.Tls.Finish.{
  send_change_cipher_spec_lem, send_finished_lem, receive_finished-sent, cipher_changed,
}
use distributed_matchmaking.Tls.Flight.{receive_flight, send_flight}
use distributed_matchmaking.Tls.Handshake.{
  make_master_secret, send_change_cipher_spec, send_finished, receive_finished,
}
use distributed_matchmaking.Tls.Handshake.Steps.{arrived}
use distributed_matchmaking.Tls.Hello.{send_client_hello-receive_client_hello}
use distributed_matchmaking.Tls.KeyExchange.{send_client_key_exchange-receive_client_key_exchange}
use distributed_matchmaking.Tls.Messages.{
  certificate_payload, key_exchange_payload, certificate_verify_payload,
}
use distributed_matchmaking.Tls.Secrets.{
  send_client_certificate_lem, receive_client_certificate_lem, make_master_secret_lem,
  receive_certificate_verify_lem,
}
use distributed_matchmaking.Tls.ServerFsm.{
  receive_client_hello, send_server_messages, receive_client_certificate,
  receive_client_key_exchange, receive_certificate_verify, send_change_cipher_spec_and_finished,
  handshake_server_controller,
}

module _ (cr : Crypto) (rand : ℕ → ℕ → List ℕ) (c d : Conn cr rand)
    (laws : Agreement.Lawful cr rand) (p : Agreement.Prepared cr rand c d) where
  abbrev c1 : Conn cr rand
  c1 = Agreement.client1 cr rand c d laws p

  abbrev c2 : List ℕ → Conn cr rand
  c2 = Agreement.client2 cr rand c d laws p

  abbrev c3 : List ℕ → Conn cr rand
  c3 = Agreement.client3 cr rand c d laws p

  abbrev c4 : List ℕ → Conn cr rand
  c4 = Agreement.client4 cr rand c d laws p

  abbrev c5 : List ℕ → Conn cr rand
  c5 = Agreement.client5 cr rand c d laws p

  abbrev c6 : List ℕ → Conn cr rand
  c6 = Agreement.client6 cr rand c d laws p

  abbrev c7 : List ℕ → Conn cr rand
  c7 = Agreement.client7 cr rand c d laws p

  abbrev d1 : List ℕ → Conn cr rand
  d1 = Agreement.server1 cr rand c d laws p

  abbrev d2 : List ℕ → Conn cr rand
  d2 = Agreement.server2 cr rand c d laws p

  abbrev d3 : List ℕ → Conn cr rand
  d3 = Agreement.server3 cr rand c d laws p

  abbrev d4 : List ℕ → Conn cr rand
  d4 = Agreement.server4 cr rand c d laws p

  abbrev d5 : List ℕ → Conn cr rand
  d5 = Agreement.server5 cr rand c d laws p

  abbrev d6 : List ℕ → Conn cr rand
  d6 = Agreement.server6 cr rand c d laws p

  abbrev d7 : List ℕ → Conn cr rand
  d7 = Agreement.server7 cr rand c d laws p

  abbrev from_client : List ℕ → List ℕ
  from_client = Agreement.from_client cr rand c d laws p

  abbrev from_server : List ℕ → List ℕ
  from_server = Agreement.from_server cr rand c d laws p

  abbrev client_random : List ℕ
  client_random = Agreement.client_random cr rand c d laws p

  abbrev server_random : List ℕ
  server_random = Agreement.server_random cr rand c d laws p

  abbrev client_cipher : List ℕ
  client_cipher = Agreement.client_cipher cr rand c d laws p

  abbrev server_cipher : List ℕ
  server_cipher = Agreement.server_cipher cr rand c d laws p

  abbrev client_finished : List ℕ
  client_finished = Agreement.client_finished cr rand c d laws p

  abbrev server_finished : List ℕ
  server_finished = Agreement.server_finished cr rand c d laws p

  abbrev changed : List ℕ
  changed = Agreement.changed cr rand c d laws p

  -- What follows each message of the client, and the server's flight.
  abbrev w3 : List ℕ → List ℕ
  w3 rest = changed ++ (client_finished ++ rest)

  abbrev w2 : List ℕ → List ℕ
  w2 rest = record_bytes handshake (certificate_verify_payload p.signature) ++ w3 rest

  abbrev w1 : List ℕ → List ℕ
  w1 rest = record_bytes handshake (key_exchange_payload p.encrypted) ++ w2 rest

  abbrev w0 : List ℕ → List ℕ
  w0 rest = record_bytes handshake (certificate_payload (cr.raw c.certificate)) ++ w1 rest

  abbrev v : List ℕ → List ℕ
  v rest = changed ++ (server_finished ++ rest)

  module _ (rest rest' : List ℕ) (hc : c.incoming ≡ from_server rest)
      (hd : d.incoming ≡ from_client rest') where
    hellos :
        (send_client_hello cr rand c ≡ (value tt, c1))
        × (receive_client_hello cr rand d ≡ (value tt, d1 (w0 rest')))
    hellos =
        send_client_hello-receive_client_hello cr rand c d (w0 rest') p.client_writes
          (laws.fresh c.draws 32).0 hd

    flights :
        (receive_server_messages cr rand c1 ≡ (value tt, c2 (v rest)))
        × (send_server_messages cr rand (d1 (w0 rest')) ≡ (value tt, d2 (w0 rest')))
    flights = (
      receive_flight cr rand c1 server_random (v rest) d.certificate (laws.fresh d.draws 32).0
          p.server_cert_short p.server_cert_parses hc,
      send_flight cr rand (d1 (w0 rest')) p.server_writes,
    )

    certificates :
        (send_client_certificate cr rand (c2 (v rest)) ≡ (value tt, c3 (v rest)))
        × (receive_client_certificate cr rand (d2 (w0 rest')) ≡ (value tt, d3 (w1 rest')))
    certificates = (
      send_client_certificate_lem cr rand (c2 (v rest)) p.client_writes,
      receive_client_certificate_lem cr rand (d2 (w0 rest')) c.certificate (w1 rest')
          p.client_cert_short p.client_cert_parses refl,
    )

    secrets :
        (send_client_key_exchange cr rand (c3 (v rest))
          ≡ (value (Agreement.agreed_secret cr rand c d), c4 (v rest)))
        × (receive_client_key_exchange cr rand (d3 (w1 rest'))
            ≡ (value (Agreement.agreed_secret cr rand c d), d4 (w2 rest')))
    secrets =
        send_client_key_exchange-receive_client_key_exchange cr rand (c3 (v rest)) (d3 (w1 rest'))
          d.certificate p.server_key p.encrypted (w2 rest') p.client_writes refl p.server_cert_key
          p.enciphers (p.deciphers _ _ _ p.enciphers) p.encrypted_short refl

    signatures :
        (send_certificate_verify cr rand (c4 (v rest)) ≡ (value tt, c5 (v rest)))
        × (receive_certificate_verify cr rand (Agreement.agreed_secret cr rand c d) (d4 (w2 rest'))
            ≡ (value tt, d6 (w3 rest')))
    signatures =
        let (sends, expects, verifies) =
          send_certificate_verify-on_certificate_verify cr rand (c4 (v rest)) (d4 (w2 rest'))
            c.certificate p.client_key p.signature (w3 rest') p.verifies p.client_writes p.signs
            p.signature_short (rw p.same_history refl) refl p.client_cert_key refl in
        (
          sends,
          receive_certificate_verify_lem cr rand (d4 (w2 rest')) (d6 (w3 rest')) _ _
              (Agreement.master cr rand c d laws p).0 (w3 rest') expects verifies
              (Agreement.master cr rand c d laws p).1 (server_keys cr rand c d laws p (w3 rest')),
        )

    pub client_run : handshake_client_controller cr rand c ≡ (value tt, arrived rest (c7 []))
    unfolding handshake_client_controller
    client_run =
        bind-value (send_client_hello cr rand) _ (hellos.0)
        ∙ bind-value (receive_server_messages cr rand) _ (flights.0)
        ∙ bind-value (send_client_certificate cr rand) _ (certificates.0)
        ∙ bind-value (send_client_key_exchange cr rand) _ (secrets.0)
        ∙ bind-value (send_certificate_verify cr rand) _ (signatures.0)
        ∙ bind-value (make_master_secret cr rand (Agreement.agreed_secret cr rand c d)) _ (
            make_master_secret_lem cr rand (c5 (v rest)) _ _
              (Agreement.master cr rand c d laws p).1)
        ∙ bind-value (client_generate_keys cr rand) _ (client_keys cr rand c d laws p (v rest))
        ∙ bind-value (send_change_cipher_spec cr rand) _
            (send_change_cipher_spec_lem cr rand (c6 (v rest)) p.client_writes)
        ∙ bind-value (send_finished cr rand) _ (
            send_finished_lem cr rand (cipher_changed cr rand (c6 (v rest))) client_cipher
              p.client_writes refl (laws.rand_works _))
        ∙ receive_finished-sent cr rand (cipher_changed cr rand (d6 [])) (c7 (v rest)) server_cipher
            rest (laws.block_cipher server_cipher (server_cipher_size cr rand c d laws p))
            laws.fresh laws.digest_bytes refl refl

    pub server_run : handshake_server_controller cr rand d ≡ (value tt, d7 rest')
    unfolding handshake_server_controller send_change_cipher_spec_and_finished
        send_change_cipher_spec send_finished
    server_run =
        bind-value (receive_client_hello cr rand) _ (hellos.1)
        ∙ bind-value (send_server_messages cr rand) _ (flights.1)
        ∙ bind-value (receive_client_certificate cr rand) _ (certificates.1)
        ∙ bind-value (receive_client_key_exchange cr rand) _ (secrets.1)
        ∙ bind-value (receive_certificate_verify cr rand (Agreement.agreed_secret cr rand c d)) _
            (signatures.1)
        ∙ bind-value (receive_finished cr rand) _ (
            receive_finished-sent cr rand (cipher_changed cr rand (c6 [])) (d6 (w3 rest'))
              client_cipher rest'
              (laws.block_cipher client_cipher (client_cipher_size cr rand c d laws p)) laws.fresh
              laws.digest_bytes refl refl)
        ∙ bind-value (send_change_cipher_spec cr rand) _
            (send_change_cipher_spec_lem cr rand (d6 rest') p.server_writes)
        ∙ send_finished_lem cr rand (cipher_changed cr rand (d6 rest')) server_cipher
            p.server_writes refl (laws.rand_works _)
