-- ===== src/Tls/Messages/Parsing.antt =====
-- The handshake messages of Tls/Messages.antt, built and then read.
use distributed_matchmaking.Base.{
  ℕ, ◌+◌, ◌*◌, ◌/◌, ◌%◌, ◌≡◌, List, [], ◌∷◌, ◌++◌, Option, some, none, arith, length, take,
  length-append, take-prefix,
}
use distributed_matchmaking.Base.Actions.{value, error}
use distributed_matchmaking.Tls.Bytes.{put_uint16, uint16-put_uint16, slice, slice_from}
use distributed_matchmaking.Tls.Connection.{
  certificate_unparsed, certificate_type, client_key_exchange, certificate_verify,
}
use distributed_matchmaking.Tls.Messages.{
  handshake_message, hello_body, certificate_payload, with_length, key_exchange_payload,
  certificate_verify_payload, hello_random, parse_chain, read_certificate, key_exchange_secret,
  verify_body, verify_signature,
}

body-handshake_message :
    (t : ℕ) (body : List ℕ) → slice_from 4 (handshake_message t body) ≡ some body
unfolding slice_from handshake_message put_uint16
body-handshake_message t body = ground arith

slice-hello_body :
    (random : List ℕ) → length random ≡ 32 → slice 2 34 (hello_body random) ≡ some random
unfolding slice hello_body
slice-hello_body random e =
    let tail : List ℕ = 0x00 ∷ 0x00 ∷ 0x02 ∷ 0x00 ∷ 0x2F ∷ 0x01 ∷ 0x00 ∷ [] in
    ground (arith, take-prefix 32 random tail e, length-append random tail)

parse_chain-cert :
    {C : Type 0} (parse : List ℕ → Option C) (cert : List ℕ) (a b : ℕ)
    → parse_chain parse (0x00 ∷ a ∷ b ∷ 0x00 ∷ put_uint16 (length cert) ++ cert)
      ≡ (elim (parse (take (length cert % 65536) cert)) [
        | none ↦ error certificate_unparsed
        | some c ↦ value c
      ])
unfolding parse_chain put_uint16
parse_chain-cert parse cert a b =
    let n = length cert in
    let e : 0 * 65536 + n % 65536 / 256 * 256 + n % 256 ≡ n % 65536 = omega arith in
    rw e (ground arith)

verify_body-with_length :
    (xs : List ℕ) → verify_body (with_length xs) ≡ value (take (length xs % 65536) xs)
unfolding verify_body with_length put_uint16
verify_body-with_length xs = rw uint16-put_uint16 (ground arith)

secret-with_length : (xs : List ℕ) → slice_from 2 (with_length xs) ≡ some xs
unfolding slice_from with_length put_uint16
secret-with_length xs = ground arith

-- Both hello messages carry their thirty-two random bytes.
pub hello_random-hello :
    (t : ℕ) (random : List ℕ)
    → length random ≡ 32
    → hello_random (handshake_message t (hello_body random)) ≡ some random
unfolding hello_random
hello_random-hello t random e =
    rw (body-handshake_message t (hello_body random), hello_random) (slice-hello_body random e)

-- A certificate message is read as the first bytes of the certificate, as many as fit a length of
-- sixteen bits: the whole certificate below 2 ^ 16 bytes.
pub read_certificate-certificate_payload :
    {C : Type 0} (parse : List ℕ → Option C) (cert : List ℕ)
    → read_certificate parse (certificate_payload cert)
      ≡ (elim (parse (take (length cert % 65536) cert)) [
        | none ↦ error certificate_unparsed
        | some c ↦ value c
      ])
unfolding read_certificate certificate_payload put_uint16
read_certificate-certificate_payload parse cert =
    rw (body-handshake_message certificate_type, read_certificate) (parse_chain-cert parse cert _ _)

pub key_exchange_secret-key_exchange_payload :
    (encrypted : List ℕ) → key_exchange_secret (key_exchange_payload encrypted) ≡ value encrypted
unfolding key_exchange_secret key_exchange_payload
key_exchange_secret-key_exchange_payload encrypted = rw (
  body-handshake_message client_key_exchange (with_length encrypted),
  key_exchange_secret,
  secret-with_length encrypted,
)

pub verify_signature-certificate_verify_payload :
    (signature : List ℕ)
    → verify_signature (certificate_verify_payload signature)
      ≡ value (take (length signature % 65536) signature)
unfolding verify_signature certificate_verify_payload
verify_signature-certificate_verify_payload signature =
    rw (body-handshake_message certificate_verify (with_length signature), verify_signature)
      (verify_body-with_length signature)
