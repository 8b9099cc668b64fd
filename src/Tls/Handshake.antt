-- ===== src/Tls/Handshake.antt =====
-- What the two state machines of the handshake share.
pub mod Steps
use distributed_matchmaking.Base.{
  ℕ, suc, List, [], ◌∷◌, ◌++◌, Option, some, none, ◌||◌, ◌==◌, if◌then◌else◌, bytes, length, take,
  drop, get_elem?,
}
use distributed_matchmaking.Base.Actions.{
  Outcome, value, error, panic, Action, pure, crash, ◌>>=◌, ◌>>◌, check, or_panic, get_state,
  modify,
}
use distributed_matchmaking.Tls.Connection.{
  SecurityParameters, KeyMaterialBlock, TlsConnection, TlsError, Tls, unexpected_content_type,
  unexpected_handshake_type, invalid_finished, handshake, change_cipher_spec, finished,
  write_tls_content, read_tls_content, Conn, Step, encrypt_content, decrypt_content,
}
use distributed_matchmaking.Tls.Crypto.{Crypto}
use distributed_matchmaking.Tls.Messages.{change_cipher_spec_payload, finished_payload}
use distributed_matchmaking.Tls.Prf.{prf, generate_master_secret}

-- `aes.NewCipher`: the key lengths that it takes.
unfoldable pub new_cipher : List ℕ → Option (List ℕ)
new_cipher key =
    if length key == 16 || (length key == 24 || length key == 32) then some key else none

-- `keyBlock[a:b]`, of the 128 bytes that `prf` answers.
unfoldable pub key_part : ℕ → ℕ → List ℕ → List ℕ
key_part a n key_block = take n (drop a key_block)

module _ {C K : Type 0} where
  abbrev pub with_client_random : List ℕ → TlsConnection C K → TlsConnection C K
  with_client_random random c = record c {
    sec_param = record (c.sec_param) { client_random = random };
  }

  abbrev pub with_server_random : List ℕ → TlsConnection C K → TlsConnection C K
  with_server_random random c = record c {
    sec_param = record (c.sec_param) { server_random = random };
  }

  abbrev pub with_remote_certificate : C → TlsConnection C K → TlsConnection C K
  with_remote_certificate cert c = record c {
    sec_param = record (c.sec_param) { remote_certificate = some cert };
  }

  abbrev pub with_master_secret : List ℕ → TlsConnection C K → TlsConnection C K
  with_master_secret secret c = record c {
    sec_param = record (c.sec_param) { master_secret = secret };
  }

  -- `c.msgHistory = append(c.msgHistory, ...)`
  abbrev pub append_history : List ℕ → TlsConnection C K → TlsConnection C K
  append_history message c = record c { msg_history = c.msg_history ++ message }

  abbrev pub from_result : {A : Type 0} → Outcome TlsError A → Tls C K A
  from_result r c = (r, c)

  -- How every send of a handshake message ends: write the record, then note the message.
  unfoldable pub send_message : List ℕ → Tls C K (Unit {0})
  send_message message = do write_tls_content handshake message; modify (append_history message)

  -- How every receive begins: a handshake record whose first byte is the expected type. An empty
  -- record has no first byte, and the index panics.
  unfoldable pub expect_message : ℕ → Tls C K (List ℕ)
  expect_message handshake_type = do
    ct ← read_tls_content
    check (ct.tls_type == handshake) unexpected_content_type
    t ← or_panic (get_elem? ct.payload 0)
    check (t == handshake_type) unexpected_handshake_type
    pure ct.payload

module _ (cr : Crypto) (rand : ℕ → ℕ → List ℕ) where
  open cr use {sha256, hmac_sha256}

  -- The key block of `ClientGenerateKeys` and `ServerGenerateKeys`.
  unfoldable pub key_block : Step cr rand (List ℕ)
  key_block = do
    c ← get_state
    or_panic (
        prf hmac_sha256 c.master_secret
          ((bytes "key expansion" ++ c.server_random) ++ c.client_random) 128)

  unfoldable pub make_master_secret : List ℕ → Step cr rand (Unit {0})
  make_master_secret pre_master_secret = do
    c ← get_state
    secret ←
        or_panic
          (generate_master_secret hmac_sha256 c.client_random c.server_random pre_master_secret)
    modify (with_master_secret secret)

  -- `sendChangeCipherSpec` of the client.
  unfoldable pub send_change_cipher_spec : Step cr rand (Unit {0})
  send_change_cipher_spec = write_tls_content change_cipher_spec change_cipher_spec_payload

  -- `sendFinished` of the client.
  unfoldable pub send_finished : Step cr rand (Unit {0})
  send_finished = do
    c ← get_state
    encrypted ← encrypt_content cr rand (finished_payload sha256 c.master_secret c.msg_history)
    write_tls_content handshake encrypted

  -- `receiveServerFinished` and `receiveClientChangeCipherSpecAndFinished`: of the Finished message
  -- only the first byte is looked at.
  unfoldable pub receive_finished : Step cr rand (Unit {0})
  receive_finished = do
    ct ← read_tls_content
    check (ct.tls_type == change_cipher_spec) unexpected_content_type
    ct' ← read_tls_content
    decrypted ← decrypt_content cr rand ct'.payload
    check (ct'.tls_type == handshake) invalid_finished
    t ← or_panic (get_elem? decrypted 0)
    check (t == finished) invalid_finished
