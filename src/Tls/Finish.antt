-- ===== src/Tls/Finish.antt =====
-- The ChangeCipherSpec and the Finished message, at both ends.
use distributed_matchmaking.Base.{
  ℕ, suc, ◌≤◌, ◌≡◌, ◌∙◌, List, ◌++◌, some, true, arith, length, take, All-take, length-take,
}
use distributed_matchmaking.Base.Actions.{value, bind-value}
use distributed_matchmaking.Tls.Bytes.{IsByte, put_uint16}
use distributed_matchmaking.Tls.Cipher.{block_size, seal}
use distributed_matchmaking.Tls.Cipher.RoundTrip.{AreBytes, IsBlockCipher}
use distributed_matchmaking.Tls.Connection.{
  Conn, handshake, change_cipher_spec, record_bytes, encrypt_content,
}
use distributed_matchmaking.Tls.Connection.Records.{write_record, encrypt_content_keyed}
use distributed_matchmaking.Tls.Crypto.{Crypto}
use distributed_matchmaking.Tls.Handshake.{send_change_cipher_spec, send_finished, receive_finished}
use distributed_matchmaking.Tls.Handshake.Steps.{arrived, receive_finished_lem}
use distributed_matchmaking.Tls.Messages.{
  handshake_message, change_cipher_spec_payload, finished_payload,
}

module _ (cr : Crypto) (rand : ℕ → ℕ → List ℕ) where
  open cr use {rand_succeeds, aes_encrypt, aes_decrypt, sha256}

  -- The Finished message of an end, under its key and with its next random vector.
  abbrev pub finished_record : Conn cr rand → List ℕ → List ℕ
  finished_record c key = record_bytes handshake (
      seal (aes_encrypt key) (rand c.draws block_size)
        (finished_payload sha256 c.master_secret c.msg_history))

  abbrev pub cipher_changed : Conn cr rand → Conn cr rand
  cipher_changed c = record c {
    outgoing = c.outgoing ++ record_bytes change_cipher_spec change_cipher_spec_payload;
  }

  abbrev pub has_finished : List ℕ → Conn cr rand → Conn cr rand
  has_finished key c = record c {
    draws = suc c.draws;
    outgoing = c.outgoing ++ finished_record c key;
  }

  pub send_change_cipher_spec_lem :
      (c : Conn cr rand)
      → c.writable ≡ true
      → send_change_cipher_spec cr rand c ≡ (value tt, cipher_changed c)
  unfolding send_change_cipher_spec
  send_change_cipher_spec_lem c w = write_record c change_cipher_spec change_cipher_spec_payload w

  pub send_finished_lem :
      (c : Conn cr rand) (key : List ℕ)
      → c.writable ≡ true
      → c.mat_block.encrypt_cipher ≡ some key
      → rand_succeeds c.draws ≡ true
      → send_finished cr rand c ≡ (value tt, has_finished key c)
  unfolding send_finished
  send_finished_lem c key w held works =
      let message = finished_payload sha256 c.master_secret c.msg_history in
      let sealed = seal (aes_encrypt key) (rand c.draws block_size) message in
      bind-value (encrypt_content cr rand message) _
        (encrypt_content_keyed cr rand c key message held works)
      ∙ write_record (record c { draws = suc c.draws }) handshake sealed w

  -- The other end with the peer's key takes it.
  pub receive_finished-sent :
      (c d : Conn cr rand) (key rest : List ℕ)
      → IsBlockCipher (aes_encrypt key) (aes_decrypt key)
      → ((i n : ℕ) → (length (rand i n) ≡ n) × AreBytes (rand i n))
      → ((message : List ℕ) → AreBytes (sha256 message))
      → d.mat_block.decrypt_cipher ≡ some key
      → d.incoming
        ≡ record_bytes change_cipher_spec change_cipher_spec_payload
          ++ (finished_record c key ++ rest)
      → receive_finished cr rand d ≡ (value tt, arrived rest d)
  unfolding finished_payload handshake_message put_uint16
  receive_finished-sent c d key rest law good digest held h =
      let (size, fresh) = good c.draws block_size in
      let body = take 12 (sha256 (c.master_secret ++ c.msg_history)) in
      let short : length body ≤ 12 =
        omega (arith, length-take 12 (sha256 (c.master_secret ++ c.msg_history))) in
      let are : AreBytes body =
        All-take IsByte 12 (sha256 (c.master_secret ++ c.msg_history))
          (digest (c.master_secret ++ c.msg_history)) in
      receive_finished_lem cr rand d key (rand c.draws block_size) _ rest law held size fresh
        (omega arith, (omega arith, (omega arith, (omega arith, are)))) (omega (arith, short)) h
