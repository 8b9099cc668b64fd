-- ===== src/Tls/Tests/Handshakes.antt =====
-- A whole handshake between toy connections.
use distributed_matchmaking.Base.{
  some, ◌≡◌, true, str_eq, str_eq_iff, ℕ, refl, sym, List, [], ◌∷◌, arith,
}
use distributed_matchmaking.Tls.Agreement.{
  Lawful, Prepared, signed_history, from_client, from_server,
}
use distributed_matchmaking.Tls.Agreement.Outcome.{Agrees, handshake-Agrees}
use distributed_matchmaking.Tls.ClientFsm.{handshake_client_controller}
use distributed_matchmaking.Tls.ServerFsm.{handshake_server_controller}
use distributed_matchmaking.Tls.Connection.{TlsConnection, record_bytes}
use distributed_matchmaking.Tls.Messages.{pre_master}
use distributed_matchmaking.Tls.Tests.Toys.{
  toy_digest, toy_digest-bytes, toy_hmac-size, toy_crypto, toy_cipher, toy_random, toy_random-bytes,
  keyed, hello,
}

abbrev pub laws : Lawful toy_crypto toy_random
laws = record {
  digest_size = toy_hmac-size;
  digest_bytes = toy_digest-bytes;
  block_cipher = λ key size. toy_cipher;
  rand_works = λ i. refl;
  fresh = toy_random-bytes;
}

pub signed-verified : (digest s : List ℕ) → some digest ≡ some s → str_eq digest s ≡ true
signed-verified digest s e = ground (arith, e, str_eq_iff digest s)

-- The server draws its random bytes elsewhere.
abbrev pub served : List ℕ → TlsConnection (List ℕ) (List ℕ)
served incoming = record (keyed incoming) { draws = 50 }

unfoldable pub prepared :
    (to_client to_server : List ℕ)
    → Prepared toy_crypto toy_random (keyed to_client) (served to_server)
unfolding pre_master
prepared to_client to_server = record {
  client_writes = refl;
  server_writes = refl;
  same_history = refl;
  client_cert_short = omega arith;
  client_cert_parses = refl;
  client_key = 1 ∷ [];
  client_cert_key = refl;
  server_cert_short = omega arith;
  server_cert_parses = refl;
  server_key = 1 ∷ [];
  server_cert_key = refl;
  encrypted = pre_master (toy_random 6 46);
  enciphers = refl;
  encrypted_short = omega arith;
  deciphers = λ random plain enciphered e. sym e;
  signature = toy_digest (
      signed_history toy_crypto toy_random (keyed to_client) (served to_server)
        (pre_master (toy_random 6 46)));
  signs = refl;
  signature_short = omega arith;
  verifies = signed-verified;
}

-- What the two ends send, whatever they are to read.
abbrev to_client : List ℕ
to_client = from_server toy_crypto toy_random (keyed []) (served []) laws (prepared [] []) hello

abbrev to_server : List ℕ
to_server = from_client toy_crypto toy_random (keyed []) (served []) laws (prepared [] []) hello

handshake-Agrees_example :
    Agrees toy_crypto toy_random
      (keyed to_client)
      (served to_server)
      (from_client toy_crypto toy_random
        (keyed to_client)
        (served to_server)
        laws
        (prepared to_client to_server)
        [])
      (from_server toy_crypto toy_random
        (keyed to_client)
        (served to_server)
        laws
        (prepared to_client to_server)
        [])
      hello
      hello
      (handshake_client_controller toy_crypto toy_random (keyed to_client))
      (handshake_server_controller toy_crypto toy_random (served to_server))
unfolding prepared record_bytes
handshake-Agrees_example =
    handshake-Agrees toy_crypto toy_random (keyed to_client) (served to_server) laws
      (prepared to_client to_server) hello hello refl refl
