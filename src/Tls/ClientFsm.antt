-- ===== src/Tls/ClientFsm.antt =====
-- TLS/tls/tls-client-fsm.go: the client's side of the handshake.
pub mod Termination
use distributed_matchmaking.Base.{
  ℕ, zero, suc, List, some, none, Bool, true, false, ◌==◌, if◌then◌else◌, length, get_elem?,
}
use distributed_matchmaking.Base.Actions.{
  pure, fail, ◌>>=◌, ◌>>◌, check, or_fail, or_panic, get_state, modify,
}
use distributed_matchmaking.Tls.Connection.{
  unexpected_content_type, unexpected_handshake_type, key_encrypt_failed, sign_failed, out_of_fuel,
  handshake, server_hello, certificate_type, certificate_request, server_hello_done, Step,
  rand_read, read_tls_content,
}
use distributed_matchmaking.Tls.Crypto.{Crypto}
use distributed_matchmaking.Tls.Handshake.{
  new_cipher, key_part, with_client_random, with_server_random, with_remote_certificate,
  append_history, from_result, send_message, key_block, make_master_secret, send_change_cipher_spec,
  send_finished, receive_finished,
}
use distributed_matchmaking.Tls.Messages.{
  client_hello_payload, certificate_payload, key_exchange_payload, pre_master,
  certificate_verify_payload, hello_random, read_certificate,
}

module _ (cr : Crypto) (rand : ℕ → ℕ → List ℕ) where
  open cr use {raw, parse_certificate, rsa_public_key, rsa_encrypt, rsa_sign, sha256}

  unfoldable pub send_client_hello : Step cr rand (Unit {0})
  send_client_hello = do
    random ← rand_read cr rand 32
    modify (with_client_random random)
    send_message (client_hello_payload random)

  -- The `switch` of `receiveServerMessages`, and whether the loop ends after it.
  unfoldable pub server_message : ℕ → List ℕ → Step cr rand Bool
  server_message handshake_type message =
      if handshake_type == server_hello
      then (do
        random ← or_panic (hello_random message)
        modify (with_server_random random)
        pure false)
      else if handshake_type == certificate_type
      then (do
        cert ← from_result (read_certificate parse_certificate message)
        modify (with_remote_certificate cert)
        pure false)
      else if handshake_type == certificate_request
      then pure false
      else if handshake_type == server_hello_done
      then pure true
      else fail unexpected_handshake_type

  unfoldable pub receive_server_loop : ℕ → Step cr rand (Unit {0})
  receive_server_loop zero = fail out_of_fuel
  receive_server_loop (suc fuel) = do
    ct ← read_tls_content
    check (ct.tls_type == handshake) unexpected_content_type
    modify (append_history ct.payload)
    handshake_type ← or_panic (get_elem? ct.payload 0)
    done ← server_message handshake_type ct.payload
    elim done [ true ↦ pure tt | false ↦ receive_server_loop fuel ]

  -- Each round takes a header of five bytes from the connection.
  unfoldable pub receive_server_messages : Step cr rand (Unit {0})
  receive_server_messages = do c ← get_state; receive_server_loop (suc (length c.incoming))

  unfoldable pub send_client_certificate : Step cr rand (Unit {0})
  send_client_certificate = do c ← get_state; send_message (certificate_payload (raw c.certificate))

  -- The type assertion on the peer's key is unchecked, and panics on a key of another kind.
  unfoldable pub send_client_key_exchange : Step cr rand (List ℕ)
  send_client_key_exchange = do
    random ← rand_read cr rand 46
    c ← get_state
    cert ← or_panic c.remote_certificate
    key ← or_panic (rsa_public_key cert)
    modify λ c. record c { draws = suc c.draws }
    encrypted ← or_fail key_encrypt_failed (rsa_encrypt (rand c.draws) key (pre_master random))
    send_message (key_exchange_payload encrypted)
    pure (pre_master random)

  unfoldable pub send_certificate_verify : Step cr rand (Unit {0})
  send_certificate_verify = do
    c ← get_state
    signature ← or_fail sign_failed (rsa_sign c.certificate_private_key (sha256 c.msg_history))
    send_message (certificate_verify_payload signature)

  -- The errors of `aes.NewCipher` are dropped, which leaves the cipher nil.
  unfoldable pub client_generate_keys : Step cr rand (Unit {0})
  client_generate_keys = do
    block ← key_block cr rand
    modify λ c. record c {
      mat_block = record {
        client_write_mac_key = key_part 0 20 block;
        server_write_mac_key = key_part 20 20 block;
        client_write_key = key_part 40 16 block;
        server_write_key = key_part 56 16 block;
        client_write_iv = key_part 72 16 block;
        server_write_iv = key_part 88 16 block;
        encrypt_cipher = new_cipher (key_part 40 16 block);
        decrypt_cipher = new_cipher (key_part 56 16 block);
      };
    }

  unfoldable pub handshake_client_controller : Step cr rand (Unit {0})
  handshake_client_controller = do
    send_client_hello
    receive_server_messages
    send_client_certificate
    pre_master_secret ← send_client_key_exchange
    send_certificate_verify
    make_master_secret cr rand pre_master_secret
    client_generate_keys
    send_change_cipher_spec cr rand
    send_finished cr rand
    receive_finished cr rand
