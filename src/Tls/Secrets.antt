-- ===== src/Tls/Secrets.antt =====
-- The client's certificate and the master secret, at both ends.
use distributed_matchmaking.Base.{
  ℕ, ◌<◌, ◌%◌, ◌≡◌, refl, ◌∙◌, List, ◌++◌, some, true, arith, length, take-whole,
}
use distributed_matchmaking.Base.Actions.{value, or_panic, bind-value}
use distributed_matchmaking.Tls.Bytes.{put_uint16}
use distributed_matchmaking.Tls.ClientFsm.{send_client_certificate}
use distributed_matchmaking.Tls.ServerFsm.{
  receive_client_certificate, receive_certificate_verify, on_certificate_verify,
  server_generate_keys,
}
use distributed_matchmaking.Tls.Connection.{
  Conn, handshake, certificate_type, certificate_verify, record_bytes,
}
use distributed_matchmaking.Tls.Crypto.{Crypto}
use distributed_matchmaking.Tls.Handshake.{
  append_history, with_remote_certificate, with_master_secret, from_result, expect_message,
  make_master_secret,
}
use distributed_matchmaking.Tls.Handshake.Steps.{
  arrived, sent, send_message_lem, expect_message_lem,
}
use distributed_matchmaking.Tls.Messages.{handshake_message, certificate_payload, read_certificate}
use distributed_matchmaking.Tls.Messages.Parsing.{read_certificate-certificate_payload}
use distributed_matchmaking.Tls.Prf.{generate_master_secret}

module _ (cr : Crypto) (rand : ℕ → ℕ → List ℕ) where
  open cr use {Certificate, raw, parse_certificate, hmac_sha256}

  pub send_client_certificate_lem :
      (c : Conn cr rand)
      → c.writable ≡ true
      → send_client_certificate cr rand c
        ≡ (value tt, sent (certificate_payload (raw c.certificate)) c)
  unfolding send_client_certificate
  send_client_certificate_lem c w = send_message_lem c (certificate_payload (raw c.certificate)) w

  read_whole :
      (cert : Certificate)
      → length (raw cert) < 65000
      → parse_certificate (raw cert) ≡ some cert
      → read_certificate parse_certificate (certificate_payload (raw cert)) ≡ value cert
  read_whole cert small parses =
      let n : length (raw cert) % 65536 ≡ length (raw cert) = omega arith in
      read_certificate-certificate_payload parse_certificate (raw cert)
      ∙ rw (n, take-whole (raw cert) (length (raw cert)) (omega arith), parses) refl

  pub receive_client_certificate_lem :
      (d : Conn cr rand) (cert : Certificate) (rest : List ℕ)
      → length (raw cert) < 65000
      → parse_certificate (raw cert) ≡ some cert
      → d.incoming ≡ record_bytes handshake (certificate_payload (raw cert)) ++ rest
      → receive_client_certificate cr rand d ≡ (
        value tt,
        with_remote_certificate cert
            (append_history (certificate_payload (raw cert)) (arrived rest d)),
      )
  unfolding receive_client_certificate certificate_payload handshake_message put_uint16
  receive_client_certificate_lem d cert rest small parses h =
      let message = certificate_payload (raw cert) in
      let d' = append_history message (arrived rest d) in
      bind-value (expect_message certificate_type) _
        (expect_message_lem d certificate_type _ rest (omega arith) h)
      ∙ bind-value (from_result (read_certificate parse_certificate message)) _ {t = d'} {a = cert}
          (rw (read_whole cert small parses) refl)

  pub make_master_secret_lem :
      (c : Conn cr rand) (pre_master_secret master : List ℕ)
      → generate_master_secret hmac_sha256 c.client_random c.server_random pre_master_secret
        ≡ some master
      → make_master_secret cr rand pre_master_secret c ≡ (value tt, with_master_secret master c)
  unfolding make_master_secret
  make_master_secret_lem c pre_master_secret master e =
      bind-value
        (or_panic
          (generate_master_secret hmac_sha256 c.client_random c.server_random pre_master_secret))
        _ {t = c} {a = master} (rw e refl)

  -- The server's last step before the Finished messages, from what its parts make of it.
  pub receive_certificate_verify_lem :
      (d d' : Conn cr rand) (message pre_master_secret master rest : List ℕ)
      → expect_message certificate_verify d ≡ (value message, arrived rest d)
      → on_certificate_verify cr rand message (arrived rest d) ≡ (value tt, arrived rest d)
      → generate_master_secret hmac_sha256 d.client_random d.server_random pre_master_secret
        ≡ some master
      → server_generate_keys cr rand
          (with_master_secret master (append_history message (arrived rest d)))
        ≡ (value tt, d')
      → receive_certificate_verify cr rand pre_master_secret d ≡ (value tt, d')
  unfolding receive_certificate_verify
  receive_certificate_verify_lem d d' message pre_master_secret master rest expects verifies secret
        keys =
      let noted = append_history message (arrived rest d) in
      bind-value (expect_message certificate_verify) _ expects
      ∙ bind-value (on_certificate_verify cr rand message) _ verifies
      ∙ bind-value (make_master_secret cr rand pre_master_secret) _
          (make_master_secret_lem noted pre_master_secret master secret)
      ∙ keys
