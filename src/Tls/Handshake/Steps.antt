-- ===== src/Tls/Handshake/Steps.antt =====
-- What the steps that both ends share make of a connection on which the expected bytes arrive.
use distributed_matchmaking.Base.{
  ℕ, ◌<◌, ◌≡◌, ◌∙◌, List, ◌∷◌, ◌++◌, some, true, arith, length, ◌==◌,
}
use distributed_matchmaking.Base.Actions.{value, check, bind-value}
use distributed_matchmaking.Tls.Cipher.{block_size, seal}
use distributed_matchmaking.Tls.Cipher.RoundTrip.{AreBytes, IsBlockCipher, unseal-seal, length-seal}
use distributed_matchmaking.Tls.Connection.{
  TlsConnection, handshake, change_cipher_spec, finished, record_bytes, write_tls_content,
  read_tls_content, decrypt_content,
}
use distributed_matchmaking.Tls.Connection.Records.{
  read_record, write_record, decrypt_content_keyed,
}
use distributed_matchmaking.Tls.Crypto.{Crypto}
use distributed_matchmaking.Tls.Handshake.{
  append_history, send_message, expect_message, receive_finished,
}
use distributed_matchmaking.Tls.Messages.{change_cipher_spec_payload}

module _ {C K : Type 0} where
  abbrev pub arrived : List ℕ → TlsConnection C K → TlsConnection C K
  arrived rest c = record c { incoming = rest }

  abbrev pub sent : List ℕ → TlsConnection C K → TlsConnection C K
  sent message c =
      append_history message (record c { outgoing = c.outgoing ++ record_bytes handshake message })

  pub send_message_lem :
      (c : TlsConnection C K) (message : List ℕ)
      → c.writable ≡ true
      → send_message message c ≡ (value tt, sent message c)
  unfolding send_message
  send_message_lem c message w =
      bind-value (write_tls_content handshake message) _ (write_record c handshake message w)

  pub expect_message_lem :
      (d : TlsConnection C K) (t : ℕ) (more rest : List ℕ)
      → length (t ∷ more) < 65536
      → d.incoming ≡ record_bytes handshake (t ∷ more) ++ rest
      → expect_message t d ≡ (value (t ∷ more), arrived rest d)
  unfolding expect_message
  expect_message_lem d t more rest small h =
      bind-value read_tls_content _ (read_record d handshake (t ∷ more) rest h small)
      ∙ bind-value (check (t == t) _) _ (ground arith)

  -- If one end can write, its handshake message goes out as one record and is noted in its history;
  -- if exactly that record is next at the other end and the message has fewer than 2 ^ 16 bytes,
  -- the end that expects the type of the message takes it whole and leaves what follows.
  pub send_message-expect_message :
      (c d : TlsConnection C K) (t : ℕ) (more rest : List ℕ)
      → c.writable ≡ true
      → length (t ∷ more) < 65536
      → d.incoming ≡ record_bytes handshake (t ∷ more) ++ rest
      → (send_message (t ∷ more) c ≡ (value tt, sent (t ∷ more) c))
        × (expect_message t d ≡ (value (t ∷ more), arrived rest d))
  send_message-expect_message c d t more rest w small h =
      (send_message_lem c (t ∷ more) w, expect_message_lem d t more rest small h)

module _ (cr : Crypto) (rand : ℕ → ℕ → List ℕ) where
  open cr use {Certificate, PrivateKey, aes_encrypt, aes_decrypt}

  -- With the peer's key, an end takes a ChangeCipherSpec followed by any sealed message that
  -- begins with the type of Finished, whatever its verify data; nothing of the connection changes
  -- but what is left to read.
  pub receive_finished_lem :
      (c : TlsConnection Certificate PrivateKey) (key iv more rest : List ℕ)
      → IsBlockCipher (aes_encrypt key) (aes_decrypt key)
      → c.mat_block.decrypt_cipher ≡ some key
      → length iv ≡ block_size
      → AreBytes iv
      → AreBytes (finished ∷ more)
      → length more < 65000
      → c.incoming
        ≡ record_bytes change_cipher_spec change_cipher_spec_payload
          ++ (record_bytes handshake (seal (aes_encrypt key) iv (finished ∷ more)) ++ rest)
      → receive_finished cr rand c ≡ (value tt, arrived rest c)
  unfolding receive_finished
  receive_finished_lem c key iv more rest law held hv bv bytes small h =
      let sealed = seal (aes_encrypt key) iv (finished ∷ more) in
      let short : length sealed < 65536 =
        omega (arith, length-seal law iv (finished ∷ more) hv bv bytes) in
      let after = record_bytes handshake sealed ++ rest in
      bind-value read_tls_content _ (
        read_record c change_cipher_spec change_cipher_spec_payload after h
          (unfold change_cipher_spec_payload in omega arith))
      ∙ bind-value read_tls_content _
          (read_record (arrived after c) handshake sealed rest (λ _. after) short)
      ∙ bind-value (decrypt_content cr rand sealed) _ (
          decrypt_content_keyed cr rand (arrived rest c) key sealed (finished ∷ more) held
            (unseal-seal law iv (finished ∷ more) hv bv bytes))
