-- ===== src/Tls/Connection.antt =====
-- TLS/tls/models.go, tls.go and internal-tls-api.go: the connection, its records on the wire and
-- the protected records of the application.
pub mod Records
pub mod Usage
use distributed_matchmaking.Base.{
  ℕ, suc, ◌+◌, ◌-◌, List, [], ◌∷◌, ◌++◌, Option, some, none, Bool, true, false, leb, if◌then◌else◌,
  length, take, drop,
}
use distributed_matchmaking.Base.Actions.{
  Outcome, value, error, panic, Action, pure, ◌>>=◌, ◌>>◌, check, or_panic, get_state,
}
use distributed_matchmaking.Tls.Bytes.{put_uint16, uint16}
use distributed_matchmaking.Tls.Cipher.{CipherError, block_size, seal, unseal}
use distributed_matchmaking.Tls.Crypto.{Crypto}

pub data ConnectionEnd : Type 0 where
  client_ce server_ce : ConnectionEnd

-- The content types and the handshake types of models.go.
abbrev pub change_cipher_spec : ℕ
change_cipher_spec = 0x14

abbrev pub handshake : ℕ
handshake = 0x16

abbrev pub application_data : ℕ
application_data = 0x17

abbrev pub client_hello : ℕ
client_hello = 0x01

abbrev pub server_hello : ℕ
server_hello = 0x02

abbrev pub certificate_type : ℕ
certificate_type = 0x0b

abbrev pub certificate_request : ℕ
certificate_request = 0x0d

abbrev pub server_hello_done : ℕ
server_hello_done = 0x0e

abbrev pub certificate_verify : ℕ
certificate_verify = 0x0f

abbrev pub client_key_exchange : ℕ
client_key_exchange = 0x10

abbrev pub finished : ℕ
finished = 0x14

-- The fields that the library sets; `C` and `K` are the certificates and the private keys.
pub record SecurityParameters (C K : Type 0) : Type 0 where
  pub connection_end : ConnectionEnd
  pub certificate : C
  pub certificate_private_key : K
  pub remote_certificate : Option C
  pub master_secret : List ℕ
  pub client_random : List ℕ
  pub server_random : List ℕ

-- A cipher is the AES key that it was made with, `none` before the keys are generated.
pub record KeyMaterialBlock : Type 0 where
  pub client_write_mac_key : List ℕ
  pub server_write_mac_key : List ℕ
  pub client_write_key : List ℕ
  pub server_write_key : List ℕ
  pub client_write_iv : List ℕ
  pub server_write_iv : List ℕ
  pub encrypt_cipher : Option (List ℕ)
  pub decrypt_cipher : Option (List ℕ)

abbrev pub no_keys : KeyMaterialBlock
no_keys = record {
  client_write_mac_key = [];
  server_write_mac_key = [];
  client_write_key = [];
  server_write_key = [];
  client_write_iv = [];
  server_write_iv = [];
  encrypt_cipher = none;
  decrypt_cipher = none;
}

pub record TlsCiphertext : Type 0 where
  pub tls_type : ℕ
  pub version : List ℕ
  pub length_bytes : List ℕ
  pub payload : List ℕ

-- `net.Conn` is the bytes still to come from the peer, the bytes written, and whether writes
-- succeed; `draws` counts the reads of `crypto/rand`.
pub record TlsConnection (C K : Type 0) : Type 0 where
  pub incoming : List ℕ
  pub outgoing : List ℕ
  pub writable : Bool
  pub draws : ℕ
  pub sec_param : SecurityParameters C K
  pub open sec_param use *
  pub mat_block : KeyMaterialBlock
  pub msg_history : List ℕ
  pub state : ℕ

-- What `readTLSContent` takes from the five header bytes; `none` is an index out of range.
unfoldable pub parse_header : List ℕ → Option (ℕ × List ℕ × List ℕ × ℕ)
parse_header (t ∷ major ∷ minor ∷ high ∷ low ∷ []) =
    some (t, major ∷ minor ∷ [], high ∷ low ∷ [], uint16 high low)
parse_header _ = none

pub data TlsError : Type 0 where
  read_failed write_failed unexpected_content_type unexpected_handshake_type : TlsError
  short_payload certificate_unparsed key_decrypt_failed key_encrypt_failed sign_failed : TlsError
  invalid_public_key verify_failed invalid_finished encrypt_failed certificate_unread : TlsError
  -- The model's own: a loop ran out of fuel.
  out_of_fuel : TlsError
  cipher : CipherError → TlsError

abbrev pub Tls : Type 0 → Type 0 → Type 0 → Type 0
Tls C K A = Action (TlsConnection C K) TlsError A

-- The bytes of one record: type, version 3.3, the low sixteen bits of the length, and the data.
unfoldable pub record_bytes : ℕ → List ℕ → List ℕ
record_bytes content_type payload =
    content_type ∷ 0x03 ∷ 0x03 ∷ put_uint16 (length payload) ++ payload

module _ {C K : Type 0} where
  -- `NewTLSConn`, given what the certificate and key files held: `none` where reading them failed.
  unfoldable pub new_tls_conn :
      Bool → Option C → Option K → List ℕ → Bool → Outcome TlsError (TlsConnection C K)
  new_tls_conn is_server none key incoming writable = error certificate_unread
  new_tls_conn is_server (some cert) none incoming writable = error certificate_unread
  new_tls_conn is_server (some cert) (some key) incoming writable = value (record {
    incoming = incoming;
    outgoing = [];
    writable = writable;
    draws = 0;
    sec_param = record {
      connection_end = if is_server then server_ce else client_ce;
      certificate = cert;
      certificate_private_key = key;
      remote_certificate = none;
      master_secret = [];
      client_random = [];
      server_random = [];
    };
    mat_block = no_keys;
    msg_history = [];
    state = 0;
  })

  unfoldable pub write_tls_content : ℕ → List ℕ → Tls C K (Unit {0})
  write_tls_content content_type payload c =
      if c.writable
      then (value tt, record c { outgoing = c.outgoing ++ record_bytes content_type payload })
      else (error write_failed, c)

  -- `io.ReadFull`: too few bytes are used up, and are an error.
  unfoldable pub read_full : ℕ → Tls C K (List ℕ)
  read_full n c =
      if leb n (length c.incoming)
      then (value (take n c.incoming), record c { incoming = drop n c.incoming })
      else (error read_failed, record c { incoming = [] })

  unfoldable pub read_tls_content : Tls C K TlsCiphertext
  read_tls_content = do
    header ← read_full 5
    (t, version, length_bytes, n) ← or_panic (parse_header header)
    payload ← read_full n
    pure
        (record { tls_type = t; version = version; length_bytes = length_bytes; payload = payload })

  abbrev pub from_outcome : Outcome CipherError (List ℕ) → Tls C K (List ℕ)
  from_outcome (value xs) c = (value xs, c)
  from_outcome (error e) c = (error (cipher e), c)
  from_outcome panic c = (panic, c)

-- `copy(data, decrData)`: the buffer with its front overwritten.
unfoldable pub copy_into : List ℕ → List ℕ → List ℕ
copy_into buffer content = take (length buffer) content ++ drop (length content) buffer

-- `rand i n` is what a buffer of `n` bytes holds after the `i`-th read of `crypto/rand`, whether this
-- succeeds or not.
module _ (cr : Crypto) (rand : ℕ → ℕ → List ℕ) where
  open cr use {Certificate, PrivateKey, rand_succeeds, aes_encrypt, aes_decrypt}

  abbrev pub Conn : Type 0
  Conn = TlsConnection Certificate PrivateKey

  abbrev pub Step : Type 0 → Type 0
  Step A = Tls Certificate PrivateKey A

  -- `rand.Read`: the buffer. Only encryptContent looks at the error.
  unfoldable pub rand_read : ℕ → Step (List ℕ)
  rand_read n c = (value (rand c.draws n), record c { draws = suc c.draws })

  -- Without keys the method call on the nil cipher panics. Both callers report the error of
  -- `rand.Read` as a failed encryption.
  unfoldable pub encrypt_content : List ℕ → Step (List ℕ)
  encrypt_content content = do
    c ← get_state
    key ← or_panic c.mat_block.encrypt_cipher
    iv ← rand_read block_size
    check (rand_succeeds c.draws) encrypt_failed
    pure (seal (aes_encrypt key) iv content)

  unfoldable pub decrypt_content : List ℕ → Step (List ℕ)
  decrypt_content content = do
    c ← get_state
    key ← or_panic c.mat_block.decrypt_cipher
    from_outcome (unseal (aes_decrypt key) content)

  -- `Read`: the count, and the buffer as the call leaves it. The count is the buffer's length.
  unfoldable pub read : List ℕ → Step (ℕ × List ℕ)
  read buffer = do
    ct ← read_tls_content
    content ← decrypt_content ct.payload
    pure (length buffer, copy_into buffer content)

  -- `Write`
  unfoldable pub write : List ℕ → Step ℕ
  write content = do
    encrypted ← encrypt_content content
    write_tls_content application_data encrypted
    pure (length content)
