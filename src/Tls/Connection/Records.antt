-- ===== src/Tls/Connection/Records.antt =====
-- Records of TLS/tls/internal-tls-api.go and tls.go, written at one end and read at the other.
use distributed_matchmaking.Base.{
  ℕ, suc, ◌/◌, ◌%◌, ◌<◌, ◌≡◌, refl, sym, ap, ◌∙◌, List, [], ◌∷◌, ◌++◌, some, true, arith, length,
  take, drop, length-append, length-take, take-append-drop, take-whole, take-prefix, drop-prefix,
}
use distributed_matchmaking.Base.Actions.{value, bind-value}
use distributed_matchmaking.Tls.Bytes.{put_uint16, uint16, uint16-put_uint16}
use distributed_matchmaking.Tls.Cipher.{block_size, seal, unseal}
use distributed_matchmaking.Tls.Cipher.RoundTrip.{AreBytes, IsBlockCipher, unseal-seal, length-seal}
use distributed_matchmaking.Tls.Crypto.{Crypto}
use distributed_matchmaking.Tls.Connection.{
  TlsCiphertext, TlsConnection, record_bytes, write_tls_content, read_full, parse_header,
  read_tls_content, application_data, rand_read, encrypt_content, decrypt_content, copy_into, read,
  write,
}
use mathlib.Core.List.{append_assoc}

abbrev pub ciphertext : ℕ → List ℕ → ℕ → TlsCiphertext
ciphertext content_type payload n = record {
  tls_type = content_type;
  version = 0x03 ∷ 0x03 ∷ [];
  length_bytes = put_uint16 n;
  payload = payload;
}

drop_all : (xs : List ℕ) → drop (length xs) xs ≡ []
drop_all [] = refl
drop_all (x ∷ xs) = drop_all xs

module _ {C K : Type 0} where
  read_full_front :
      (c : TlsConnection C K) (xs rest : List ℕ) (n : ℕ)
      → c.incoming ≡ xs ++ rest
      → length xs ≡ n
      → read_full n c ≡ (value xs, record c { incoming = rest })
  unfolding read_full
  read_full_front c xs rest n h e =
      rw h (ground (arith, length-append xs rest, take-prefix n xs rest e, drop-prefix n xs rest e))

  -- Where one record of writeTLSContent is next on the connection, readTLSContent gives its type,
  -- its version 3.3 and its content, and leaves what follows; of a content of 2 ^ 16 bytes or more
  -- it gives as many bytes as the length modulo 2 ^ 16, and takes the others for the next record.
  pub read_tls_content-record_bytes :
      (c : TlsConnection C K) (content_type : ℕ) (payload rest : List ℕ)
      → c.incoming ≡ record_bytes content_type payload ++ rest
      → let n = length payload % 65536 in
        read_tls_content c ≡ (
          value (ciphertext content_type (take n payload) (length payload)),
          record c { incoming = drop n payload ++ rest },
        )
  unfolding read_tls_content record_bytes put_uint16 parse_header
  read_tls_content-record_bytes c content_type payload rest h =
      let n = length payload in
      let header = content_type ∷ 0x03 ∷ 0x03 ∷ put_uint16 n in
      let m : length (take (n % 65536) payload) ≡ uint16 (n % 65536 / 256) (n % 256) =
        omega (arith, length-take (n % 65536) payload, uint16-put_uint16 n) in
      let whole : payload ++ rest ≡ take (n % 65536) payload ++ (drop (n % 65536) payload ++ rest) =
        sym (
          sym (append_assoc (take (n % 65536) payload) (drop (n % 65536) payload) rest)
          ∙ ap (λ xs. xs ++ rest) (take-append-drop (n % 65536) payload)) in
      bind-value (read_full 5) _ (read_full_front c header (payload ++ rest) 5 h refl)
      ∙ bind-value (read_full (uint16 (n % 65536 / 256) (n % 256))) _ (
          read_full_front (record c { incoming = payload ++ rest }) (take (n % 65536) payload)
            (drop (n % 65536) payload ++ rest) _ whole m)

  -- Below 2 ^ 16 bytes the record is read back whole.
  pub read_record :
      (c : TlsConnection C K) (content_type : ℕ) (payload rest : List ℕ)
      → c.incoming ≡ record_bytes content_type payload ++ rest
      → length payload < 65536
      → read_tls_content c
        ≡ (value (ciphertext content_type payload (length payload)), record c { incoming = rest })
  read_record c content_type payload rest h small =
      let n = length payload in
      let e : n % 65536 ≡ n = omega arith in
      read_tls_content-record_bytes c content_type payload rest h
      ∙ rw (e, take-whole payload n (omega arith), drop_all payload)

  pub write_record :
      (c : TlsConnection C K) (content_type : ℕ) (payload : List ℕ)
      → c.writable ≡ true
      → write_tls_content content_type payload c
        ≡ (value tt, record c { outgoing = c.outgoing ++ record_bytes content_type payload })
  unfolding write_tls_content
  write_record c content_type payload w = rw (w, write_tls_content)

module _ (cr : Crypto) (rand : ℕ → ℕ → List ℕ) where
  open cr use {Certificate, PrivateKey, rand_succeeds, aes_encrypt, aes_decrypt}

  pub encrypt_content_keyed :
      (c : TlsConnection Certificate PrivateKey) (key content : List ℕ)
      → c.mat_block.encrypt_cipher ≡ some key
      → rand_succeeds c.draws ≡ true
      → encrypt_content cr rand content c ≡ (
        value (seal (aes_encrypt key) (rand c.draws block_size) content),
        record c { draws = suc c.draws },
      )
  unfolding encrypt_content rand_read
  encrypt_content_keyed c key content e works = ground arith

  pub decrypt_content_keyed :
      (d : TlsConnection Certificate PrivateKey) (key sealed content : List ℕ)
      → d.mat_block.decrypt_cipher ≡ some key
      → unseal (aes_decrypt key) sealed ≡ value content
      → decrypt_content cr rand sealed d ≡ (value content, d)
  unfolding decrypt_content
  decrypt_content_keyed d key sealed content e u = ground (arith, u)

  -- The record that `Write` makes of a content under a key, with the random vector of a draw.
  abbrev pub sealed_record : ℕ → List ℕ → List ℕ → List ℕ
  sealed_record draws key content =
      record_bytes application_data (seal (aes_encrypt key) (rand draws block_size) content)

  abbrev pub protected : TlsConnection Certificate PrivateKey → List ℕ → List ℕ → List ℕ
  protected c key content = sealed_record c.draws key content

  pub write-sealed :
      (c : TlsConnection Certificate PrivateKey) (key content : List ℕ)
      → c.writable ≡ true
      → c.mat_block.encrypt_cipher ≡ some key
      → rand_succeeds c.draws ≡ true
      → write cr rand content c ≡ (
        value (length content),
        record c { outgoing = c.outgoing ++ protected c key content; draws = suc c.draws },
      )
  unfolding write
  write-sealed c key content w ce works =
      bind-value (encrypt_content cr rand content) _ (encrypt_content_keyed c key content ce works)
      ∙ bind-value
          (write_tls_content application_data
            (seal (aes_encrypt key) (rand c.draws block_size) content))
          _ (write_record (record c { draws = suc c.draws }) application_data _ w)

  pub read-sealed :
      (d : TlsConnection Certificate PrivateKey) (draws : ℕ) (key content buffer rest : List ℕ)
      → IsBlockCipher (aes_encrypt key) (aes_decrypt key)
      → ((i n : ℕ) → (length (rand i n) ≡ n) × AreBytes (rand i n))
      → d.mat_block.decrypt_cipher ≡ some key
      → AreBytes content
      → length content < 65000
      → d.incoming ≡ sealed_record draws key content ++ rest
      → read cr rand buffer d
        ≡ (value (length buffer, copy_into buffer content), record d { incoming = rest })
  unfolding read
  read-sealed d draws key content buffer rest law good de bytes small h =
      let (size, fresh) = good draws block_size in
      let sealed = seal (aes_encrypt key) (rand draws block_size) content in
      let short : length sealed < 65536 =
        omega (arith, length-seal law (rand draws block_size) content size fresh bytes) in
      bind-value read_tls_content _ (read_record d application_data sealed rest h short)
      ∙ bind-value (decrypt_content cr rand sealed) _ (
          decrypt_content_keyed (record d { incoming = rest }) key sealed content de
            (unseal-seal law (rand draws block_size) content size fresh bytes))

  -- If both ends hold the same AES key of a cipher that deciphers what it enciphers, the random
  -- vectors are of one block of bytes, the connection can be written and `rand.Read` succeeds, then a
  -- `Write` of fewer than 65,000 bytes succeeds and puts one record on the wire, and a `Read` at the other end, where that record is next, puts as much
  -- of the content as fits at the front of its buffer and leaves what follows the record. The
  -- count that `Read` answers is the length of the buffer, however much arrived.
  pub read-write :
      (c d : TlsConnection Certificate PrivateKey) (key content buffer rest : List ℕ)
      → IsBlockCipher (aes_encrypt key) (aes_decrypt key)
      → ((i n : ℕ) → (length (rand i n) ≡ n) × AreBytes (rand i n))
      → c.writable ≡ true
      → rand_succeeds c.draws ≡ true
      → c.mat_block.encrypt_cipher ≡ some key
      → d.mat_block.decrypt_cipher ≡ some key
      → AreBytes content
      → length content < 65000
      → d.incoming ≡ protected c key content ++ rest
      → (write cr rand content c ≡ (
        value (length content),
        record c { outgoing = c.outgoing ++ protected c key content; draws = suc c.draws },
      ))
        × (read cr rand buffer d
            ≡ (value (length buffer, copy_into buffer content), record d { incoming = rest }))
  read-write c d key content buffer rest law good w works ce de bytes small h = (
    write-sealed c key content w ce works,
    read-sealed d c.draws key content buffer rest law good de bytes small h,
  )
