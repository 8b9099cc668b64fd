-- ===== src/Tls/Messages.antt =====
-- The handshake messages of TLS/tls/client-handlers.go and server-handlers.go, and how
-- crypto-utils.go and the two state machines read them.
pub mod Parsing
use distributed_matchmaking.Base.{
  ℕ, ◌+◌, ◌*◌, ◌%◌, List, [], ◌∷◌, ◌++◌, Option, some, none, ltb, if◌then◌else◌, length, take,
  get_elem?,
}
use distributed_matchmaking.Base.Actions.{Outcome, value, error, panic}
use distributed_matchmaking.Tls.Bytes.{put_uint16, uint16, slice, slice_from}
use distributed_matchmaking.Tls.Connection.{
  TlsError, short_payload, certificate_unparsed, client_hello, server_hello, certificate_type,
  certificate_request, server_hello_done, certificate_verify, client_key_exchange, finished,
}

-- The header that every handler puts before a body: the type and a three-byte length, of which
-- the first byte stays zero and the others hold the low sixteen bits.
unfoldable pub handshake_message : ℕ → List ℕ → List ℕ
handshake_message handshake_type body = handshake_type ∷ 0x00 ∷ put_uint16 (length body) ++ body

-- The body that `ClientHelloPayload` and `ServerHelloPayload` build around their random bytes:
-- version 3.3, no session, TLS_RSA_WITH_AES_128_CBC_SHA alone, no compression.
unfoldable pub hello_body : List ℕ → List ℕ
hello_body random = 0x03 ∷ 0x03 ∷ random ++ (0x00 ∷ 0x00 ∷ 0x02 ∷ 0x00 ∷ 0x2F ∷ 0x01 ∷ 0x00 ∷ [])

unfoldable pub client_hello_payload : List ℕ → List ℕ
client_hello_payload random = handshake_message client_hello (hello_body random)

unfoldable pub server_hello_payload : List ℕ → List ℕ
server_hello_payload random = handshake_message server_hello (hello_body random)

-- `ClientHelloCertificatePayload`: a chain of one certificate. `uint16(certLen)+3` wraps.
unfoldable pub certificate_payload : List ℕ → List ℕ
certificate_payload cert =
    handshake_message certificate_type
      (0x00 ∷ put_uint16 (length cert % 65536 + 3) ++ (0x00 ∷ put_uint16 (length cert) ++ cert))

-- `ServerHelloCertificatePayload`, the same code.
abbrev pub server_certificate_payload : List ℕ → List ℕ
server_certificate_payload cert = certificate_payload cert

unfoldable pub certificate_request_payload : List ℕ
certificate_request_payload = certificate_request ∷ 0x00 ∷ 0x00 ∷ 0x00 ∷ []

unfoldable pub server_hello_done_payload : List ℕ
server_hello_done_payload = server_hello_done ∷ 0x00 ∷ 0x00 ∷ 0x00 ∷ []

-- The bodies of ClientKeyExchange and of CertificateVerify: two bytes of length, and the bytes.
unfoldable pub with_length : List ℕ → List ℕ
with_length xs = put_uint16 (length xs) ++ xs

-- `ClientHelloKeyExchangePayload` past the encryption.
unfoldable pub key_exchange_payload : List ℕ → List ℕ
key_exchange_payload encrypted = handshake_message client_key_exchange (with_length encrypted)

-- The pre-master secret: forty-six random bytes behind the version.
unfoldable pub pre_master : List ℕ → List ℕ
pre_master random = 0x03 ∷ 0x03 ∷ random

-- `ClientHelloCertificateVerifyPayload` past the signature.
unfoldable pub certificate_verify_payload : List ℕ → List ℕ
certificate_verify_payload signature = handshake_message certificate_verify (with_length signature)

unfoldable pub change_cipher_spec_payload : List ℕ
change_cipher_spec_payload = 0x01 ∷ []

-- `ClientFinishedPayload`: twelve bytes of a digest over the master secret and the messages.
unfoldable pub finished_payload : (List ℕ → List ℕ) → List ℕ → List ℕ → List ℕ
finished_payload sha256 master_secret messages =
    handshake_message finished (take 12 (sha256 (master_secret ++ messages)))

-- `ServerChangeCipherSpecPayload` and `ServerFinishedPayload`, the same code as the client's.
abbrev pub server_change_cipher_spec_payload : List ℕ
server_change_cipher_spec_payload = change_cipher_spec_payload

abbrev pub server_finished_payload : (List ℕ → List ℕ) → List ℕ → List ℕ → List ℕ
server_finished_payload sha256 master_secret messages =
    finished_payload sha256 master_secret messages

-- `onClientHello` and `onServerHello`: `data[4:][2:34]`; `none` is a panic.
unfoldable pub hello_random : List ℕ → Option (List ℕ)
hello_random message = elim (slice_from 4 message) [ none ↦ none | some body ↦ slice 2 34 body ]

-- `data[6:6+certLen]` and the parse. The shifted bytes of `certLen` share no bit, so `|` adds them.
unfoldable pub parse_chain : {C : Type 0} → (List ℕ → Option C) → List ℕ → Outcome TlsError C
parse_chain parse (_ ∷ _ ∷ _ ∷ high ∷ mid ∷ low ∷ rest) =
    let cert_len = high * 65536 + mid * 256 + low in
    if ltb (length rest) cert_len then panic else elim (parse (take cert_len rest)) [
      | none ↦ error certificate_unparsed
      | some cert ↦ value cert
    ]
parse_chain parse _ = error short_payload

-- `readCertificateFromBuffer`
unfoldable pub read_certificate : {C : Type 0} → (List ℕ → Option C) → List ℕ → Outcome TlsError C
read_certificate parse message = elim (slice_from 4 message) [
  | none ↦ panic
  | some body ↦ parse_chain parse body
]

-- The encrypted secret in a ClientKeyExchange: `data[4:][2:]`.
unfoldable pub key_exchange_secret : List ℕ → Outcome TlsError (List ℕ)
key_exchange_secret message = elim (slice_from 4 message) [
  | none ↦ panic
  | some body ↦ elim (slice_from 2 body) [ none ↦ error short_payload | some rest ↦ value rest ]
]

-- The signature in a CertificateVerify: as many bytes as its length says.
unfoldable pub verify_body : List ℕ → Outcome TlsError (List ℕ)
verify_body (high ∷ low ∷ rest) =
    if ltb (length rest) (uint16 high low)
    then error short_payload
    else value (take (uint16 high low) rest)
verify_body _ = error short_payload

unfoldable pub verify_signature : List ℕ → Outcome TlsError (List ℕ)
verify_signature message = elim (slice_from 4 message) [
  | none ↦ panic
  | some body ↦ verify_body body
]
