-- ===== src/Tls/Crypto.antt =====
-- What the TLS library calls of crypto/rand, crypto/rsa, crypto/x509, crypto/aes, crypto/sha256 and crypto/hmac.
use distributed_matchmaking.Base.{ℕ, List, Option, Bool}

pub record Crypto : Type 1 where
  pub Certificate : Type 0
  pub PublicKey : Type 0
  pub PrivateKey : Type 0
  -- Whether the `i`-th call of `rand.Read` succeeds.
  pub rand_succeeds : ℕ → Bool
  -- `cert.Raw` and `x509.ParseCertificate`
  pub raw : Certificate → List ℕ
  pub parse_certificate : List ℕ → Option Certificate
  -- `cert.PublicKey.(*rsa.PublicKey)`: `none` for a key of another kind.
  pub rsa_public_key : Certificate → Option PublicKey
  -- `rsa.EncryptPKCS1v15` with what `rand.Reader` yields to it, and `rsa.DecryptPKCS1v15`
  pub rsa_encrypt : (ℕ → List ℕ) → PublicKey → List ℕ → Option (List ℕ)
  pub rsa_decrypt : PrivateKey → List ℕ → Option (List ℕ)
  -- `rsa.SignPKCS1v15` and `rsa.VerifyPKCS1v15`, both on a SHA-256 digest
  pub rsa_sign : PrivateKey → List ℕ → Option (List ℕ)
  pub rsa_verify : PublicKey → List ℕ → List ℕ → Bool
  pub sha256 : List ℕ → List ℕ
  -- the key, then the message
  pub hmac_sha256 : List ℕ → List ℕ → List ℕ
  -- one block of AES, the key first
  pub aes_encrypt : List ℕ → List ℕ → List ℕ
  pub aes_decrypt : List ℕ → List ℕ → List ℕ
