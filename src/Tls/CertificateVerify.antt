-- ===== src/Tls/CertificateVerify.antt =====
-- The CertificateVerify message on its way from the client to the server.
use distributed_matchmaking.Base.{
  ℕ, ◌<◌, ◌%◌, ◌≡◌, refl, ap, ◌∙◌, List, ◌++◌, some, true, arith, length, take, take-whole,
}
use distributed_matchmaking.Base.Actions.{value, or_panic, or_fail, bind-value}
use distributed_matchmaking.Tls.Bytes.{put_uint16}
use distributed_matchmaking.Tls.ClientFsm.{send_certificate_verify}
use distributed_matchmaking.Tls.Connection.{
  Conn, handshake, certificate_verify, sign_failed, invalid_public_key, record_bytes,
}
use distributed_matchmaking.Tls.Crypto.{Crypto}
use distributed_matchmaking.Tls.Handshake.{from_result, expect_message}
use distributed_matchmaking.Tls.Handshake.Steps.{arrived, sent, send_message-expect_message}
use distributed_matchmaking.Tls.Messages.{
  handshake_message, with_length, certificate_verify_payload, verify_signature,
}
use distributed_matchmaking.Tls.Messages.Parsing.{verify_signature-certificate_verify_payload}
use distributed_matchmaking.Tls.ServerFsm.{on_certificate_verify}

module _ (cr : Crypto) (rand : ℕ → ℕ → List ℕ) where
  open cr use {Certificate, PublicKey, PrivateKey, rsa_public_key, rsa_sign, rsa_verify, sha256}

  -- If the key of a certificate verifies what the client's private key signs, and both ends have
  -- noted the same messages, then the client's CertificateVerify, of a signature below 65,000
  -- bytes, is accepted by a server that was sent this certificate and on which the record is next.
  pub send_certificate_verify-on_certificate_verify :
      (c d : Conn cr rand) (cert : Certificate) (key : PublicKey) (signature rest : List ℕ)
      → ((digest s : List ℕ)
          → rsa_sign c.certificate_private_key digest ≡ some s
          → rsa_verify key digest s ≡ true)
      → c.writable ≡ true
      → rsa_sign c.certificate_private_key (sha256 c.msg_history) ≡ some signature
      → length signature < 65000
      → d.msg_history ≡ c.msg_history
      → d.remote_certificate ≡ some cert
      → rsa_public_key cert ≡ some key
      → d.incoming ≡ record_bytes handshake (certificate_verify_payload signature) ++ rest
      → (send_certificate_verify cr rand c
          ≡ (value tt, sent (certificate_verify_payload signature) c))
        × (expect_message certificate_verify d
            ≡ (value (certificate_verify_payload signature), arrived rest d))
        × (on_certificate_verify cr rand (certificate_verify_payload signature) (arrived rest d)
            ≡ (value tt, arrived rest d))
  unfolding send_certificate_verify on_certificate_verify certificate_verify_payload
      handshake_message with_length put_uint16
  send_certificate_verify-on_certificate_verify c d cert key signature rest law w signs short same
        known rsa h =
      let message = certificate_verify_payload signature in
      let d' = arrived rest d in
      let (sends, receives) =
        send_message-expect_message c d certificate_verify _ rest w (omega (arith, short)) h in
      let n : length signature % 65536 ≡ length signature = omega (arith, short) in
      let read : verify_signature message ≡ value signature =
        verify_signature-certificate_verify_payload signature
        ∙ ap value (
            ap (λ k. take k signature) n ∙ take-whole signature (length signature) (omega arith)) in
      let accepted : rsa_verify key (sha256 d.msg_history) signature ≡ true =
        rw same (law (sha256 c.msg_history) signature signs) in
      (
        bind-value (or_fail sign_failed (rsa_sign c.certificate_private_key (sha256 c.msg_history)))
              _ {t = c} {a = signature} (rw signs refl)
            ∙ sends,
        receives,
        bind-value (from_result (verify_signature message)) _ {t = d'} {a = signature}
              (rw read refl)
            ∙ bind-value (or_panic d.remote_certificate) _ {t = d'} {a = cert} (rw known refl)
            ∙ bind-value (or_fail invalid_public_key (rsa_public_key cert)) _ {t = d'} {a = key}
                (rw rsa refl)
            ∙ rw accepted refl,
      )
