-- ===== src/Tls/Files.antt =====
-- readCertificateFromFile and readPrivateKeyFromFile of TLS/tls/crypto-utils.go, and NewTLSConn of
-- TLS/tls/tls.go with the files that its configuration names.
use distributed_matchmaking.Base.{ℕ, List, Option, some, none, Bool, Str, Result, ok, err, and_then}
use distributed_matchmaking.Base.Actions.{Outcome}
use distributed_matchmaking.Tls.Connection.{Conn, TlsError, new_tls_conn}
use distributed_matchmaking.Tls.Crypto.{Crypto}

-- `os.ReadFile`, the bytes of the block of `pem.Decode`, and `x509.ParsePKCS8PrivateKey`, which
-- gives `none` for a key that is not an RSA key.
pub record Files (PrivateKey : Type 0) : Type 0 where
  pub read_file : Str → Option (List ℕ)
  pub pem_decode : List ℕ → Option (List ℕ)
  pub parse_pkcs8_private_key : List ℕ → Option (Option PrivateKey)

pub data FileError : Type 0 where
  file_unread no_pem_block x509_error not_rsa : FileError

abbrev pub or_err : {A : Type 0} → FileError → Option A → Result FileError A
or_err e none = err e
or_err e (some a) = ok a

abbrev pub succeeded : {A : Type 0} → Result FileError A → Option A
succeeded (ok a) = some a
succeeded (err e) = none

module _ (cr : Crypto) (rand : ℕ → ℕ → List ℕ) where
  open cr use {Certificate, PrivateKey, parse_certificate}

  module _ (files : Files PrivateKey) where
    abbrev pem_block : Str → Result FileError (List ℕ)
    pem_block file_path =
        and_then (λ data_read. or_err no_pem_block (files.pem_decode data_read))
          (or_err file_unread (files.read_file file_path))

    unfoldable pub read_certificate_from_file : Str → Result FileError Certificate
    read_certificate_from_file file_path =
        and_then (λ block. or_err x509_error (parse_certificate block)) (pem_block file_path)

    unfoldable pub read_private_key_from_file : Str → Result FileError PrivateKey
    read_private_key_from_file file_path =
        and_then
          (λ block.
            and_then (or_err not_rsa) (or_err x509_error (files.parse_pkcs8_private_key block)))
          (pem_block file_path)

    -- `NewTLSConn`: both files are read, and one error stands for those of both.
    unfoldable pub open_tls_conn :
        Bool → Str → Str → List ℕ → Bool → Outcome TlsError (Conn cr rand)
    unfolding read_certificate_from_file read_private_key_from_file
    open_tls_conn is_server cert_path key_path incoming writable =
        new_tls_conn is_server (succeeded (read_certificate_from_file cert_path))
          (succeeded (read_private_key_from_file key_path)) incoming writable
