-- ===== src/Tls/Tests/Toys.antt =====
-- Toy primitives of the right sizes, and connections that hold a key.
use distributed_matchmaking.Base.{
  ℕ, ◌≡◌, refl, ◌%◌, List, [], ◌∷◌, ◌++◌, some, none, true, arith, length, replicate, All-replicate,
  length-replicate, str_eq,
}
use distributed_matchmaking.Tls.Bytes.{IsByte}
use distributed_matchmaking.Tls.Cipher.RoundTrip.{AreBytes, IsBlockCipher}
use distributed_matchmaking.Tls.Connection.{TlsConnection, no_keys, client_ce}
use distributed_matchmaking.Tls.Crypto.{Crypto}

-- Thirty-two bytes of the length of what is hashed.
abbrev pub toy_digest : List ℕ → List ℕ
toy_digest message = replicate 32 (length message % 256)

pub toy_digest-bytes : (message : List ℕ) → AreBytes (toy_digest message)
toy_digest-bytes message = All-replicate IsByte 32 (length message % 256) (omega arith)

abbrev pub toy_hmac : List ℕ → List ℕ → List ℕ
toy_hmac key message = toy_digest (key ++ message)

pub toy_hmac-size : (key message : List ℕ) → length (toy_hmac key message) ≡ 32
toy_hmac-size key message = length-replicate 32 (length (key ++ message) % 256)

abbrev pub toy_crypto : Crypto
toy_crypto = record {
  Certificate = List ℕ;
  PublicKey = List ℕ;
  PrivateKey = List ℕ;
  rand_succeeds = λ i. true;
  raw = λ cert. cert;
  parse_certificate = λ xs. some xs;
  rsa_public_key = λ cert. some cert;
  rsa_encrypt = λ random key xs. some xs;
  rsa_decrypt = λ key xs. some xs;
  rsa_sign = λ key xs. some xs;
  rsa_verify = λ key digest signature. str_eq digest signature;
  sha256 = toy_digest;
  hmac_sha256 = toy_hmac;
  aes_encrypt = λ key block. block;
  aes_decrypt = λ key block. block;
}

pub toy_cipher : IsBlockCipher (λ block. block) (λ block. block)
toy_cipher = record {
  inverse = λ b size are. refl;
  size = λ b size. size;
  are_bytes = λ b size are. are;
}

abbrev pub toy_random : ℕ → ℕ → List ℕ
toy_random i n = replicate n (i % 256)

pub toy_random-bytes : (i n : ℕ) → (length (toy_random i n) ≡ n) × AreBytes (toy_random i n)
toy_random-bytes i n =
    (length-replicate n (i % 256), All-replicate IsByte n (i % 256) (omega arith))

abbrev pub key : List ℕ
key = replicate 16 7

abbrev pub keyed : List ℕ → TlsConnection (List ℕ) (List ℕ)
keyed incoming = record {
  incoming = incoming;
  outgoing = [];
  writable = true;
  draws = 5;
  sec_param = record {
    connection_end = client_ce;
    certificate = 1 ∷ [];
    certificate_private_key = 2 ∷ [];
    remote_certificate = none;
    master_secret = [];
    client_random = [];
    server_random = [];
  };
  mat_block = record no_keys { encrypt_cipher = some key; decrypt_cipher = some key };
  msg_history = [];
  state = 0;
}

abbrev pub hello : List ℕ
hello = 72 ∷ 105 ∷ []

pub hello-AreBytes : AreBytes hello
hello-AreBytes = omega arith
