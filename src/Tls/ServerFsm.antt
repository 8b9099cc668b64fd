-- ===== src/Tls/ServerFsm.antt =====
-- TLS/tls/tls-server-fsm.go: the server's side of the handshake.
use distributed_matchmaking.Base.{ℕ, List, some}
use distributed_matchmaking.Base.Actions.{◌>>=◌, ◌>>◌, check, or_fail, or_panic, get_state, modify}
use distributed_matchmaking.Tls.Connection.{
  key_decrypt_failed, invalid_public_key, verify_failed, client_hello, certificate_type,
  client_key_exchange, certificate_verify, change_cipher_spec, handshake, Step, rand_read,
  write_tls_content, encrypt_content,
}
use distributed_matchmaking.Tls.Crypto.{Crypto}
use distributed_matchmaking.Tls.Handshake.{
  new_cipher, key_part, with_client_random, with_server_random, with_remote_certificate,
  append_history, from_result, send_message, expect_message, key_block, make_master_secret,
  receive_finished,
}
use distributed_matchmaking.Tls.Messages.{
  server_hello_payload, server_certificate_payload, server_change_cipher_spec_payload,
  server_finished_payload, certificate_request_payload, server_hello_done_payload, hello_random,
  read_certificate, key_exchange_secret, verify_signature,
}

module _ (cr : Crypto) (rand : ℕ → ℕ → List ℕ) where
  open cr use {raw, parse_certificate, rsa_public_key, rsa_decrypt, rsa_verify, sha256}

  unfoldable pub receive_client_hello : Step cr rand (Unit {0})
  receive_client_hello = do
    message ← expect_message client_hello
    modify (append_history message)
    random ← or_panic (hello_random message)
    modify (with_client_random random)

  unfoldable pub send_server_hello : Step cr rand (Unit {0})
  send_server_hello = do
    random ← rand_read cr rand 32
    modify (with_server_random random)
    send_message (server_hello_payload random)

  unfoldable pub send_server_certificate : Step cr rand (Unit {0})
  send_server_certificate = do
    c ← get_state
    send_message (server_certificate_payload (raw c.certificate))

  unfoldable pub send_certificate_request : Step cr rand (Unit {0})
  send_certificate_request = send_message certificate_request_payload

  unfoldable pub send_server_hello_done : Step cr rand (Unit {0})
  send_server_hello_done = send_message server_hello_done_payload

  unfoldable pub send_server_messages : Step cr rand (Unit {0})
  send_server_messages = do
    send_server_hello
    send_server_certificate
    send_certificate_request
    send_server_hello_done

  -- `onClientCertificate`
  abbrev pub on_client_certificate : List ℕ → Step cr rand (Unit {0})
  on_client_certificate message = do
    cert ← from_result (read_certificate parse_certificate message)
    modify (with_remote_certificate cert)

  unfoldable pub receive_client_certificate : Step cr rand (Unit {0})
  receive_client_certificate = do
    message ← expect_message certificate_type
    modify (append_history message)
    on_client_certificate message

  unfoldable pub receive_client_key_exchange : Step cr rand (List ℕ)
  receive_client_key_exchange = do
    message ← expect_message client_key_exchange
    modify (append_history message)
    encrypted ← from_result (key_exchange_secret message)
    c ← get_state
    or_fail key_decrypt_failed (rsa_decrypt c.certificate_private_key encrypted)

  unfoldable pub on_certificate_verify : List ℕ → Step cr rand (Unit {0})
  on_certificate_verify message = do
    signature ← from_result (verify_signature message)
    c ← get_state
    cert ← or_panic c.remote_certificate
    key ← or_fail invalid_public_key (rsa_public_key cert)
    check (rsa_verify key (sha256 c.msg_history) signature) verify_failed

  -- A refused key ends the process (`log.Fatalf`), here a panic.
  unfoldable pub server_generate_keys : Step cr rand (Unit {0})
  server_generate_keys = do
    block ← key_block cr rand
    encrypt_cipher ← or_panic (new_cipher (key_part 56 16 block))
    decrypt_cipher ← or_panic (new_cipher (key_part 40 16 block))
    modify λ c. record c {
      mat_block = record {
        client_write_mac_key = key_part 0 20 block;
        server_write_mac_key = key_part 20 20 block;
        client_write_key = key_part 40 16 block;
        server_write_key = key_part 56 16 block;
        client_write_iv = key_part 72 16 block;
        server_write_iv = key_part 88 16 block;
        encrypt_cipher = some encrypt_cipher;
        decrypt_cipher = some decrypt_cipher;
      };
    }

  -- The signature is checked against the messages before this one.
  unfoldable pub receive_certificate_verify : List ℕ → Step cr rand (Unit {0})
  receive_certificate_verify pre_master_secret = do
    message ← expect_message certificate_verify
    on_certificate_verify message
    modify (append_history message)
    make_master_secret cr rand pre_master_secret
    server_generate_keys

  -- The same code as the client's `receiveServerFinished`.
  abbrev pub receive_client_change_cipher_spec_and_finished : Step cr rand (Unit {0})
  receive_client_change_cipher_spec_and_finished = receive_finished cr rand

  unfoldable pub send_change_cipher_spec_and_finished : Step cr rand (Unit {0})
  send_change_cipher_spec_and_finished = do
    write_tls_content change_cipher_spec server_change_cipher_spec_payload
    c ← get_state
    encrypted ←
        encrypt_content cr rand (server_finished_payload sha256 c.master_secret c.msg_history)
    write_tls_content handshake encrypted

  unfoldable pub handshake_server_controller : Step cr rand (Unit {0})
  handshake_server_controller = do
    receive_client_hello
    send_server_messages
    receive_client_certificate
    pre_master_secret ← receive_client_key_exchange
    receive_certificate_verify pre_master_secret
    receive_client_change_cipher_spec_and_finished
    send_change_cipher_spec_and_finished
