-- ===== src/Tls/Tests/Wire.antt =====
-- Records, ciphers and secrets on concrete bytes.
use distributed_matchmaking.Base.{
  ℕ, ◌≡◌, refl, ◌↔◌, List, [], ◌∷◌, ◌++◌, some, arith, length, take, replicate,
}
use distributed_matchmaking.Base.Actions.{value, error, panic}
use distributed_matchmaking.Tls.Cipher.{
  block_size, unseal, invalid_padding, cbc_decrypt, xor_bytes, strip_padding,
}
use distributed_matchmaking.Tls.Cipher.RoundTrip.{unseal-eq-panic}
use distributed_matchmaking.Tls.Connection.{
  handshake, record_bytes, read_tls_content, read, write, copy_into,
}
use distributed_matchmaking.Tls.Connection.Records.{
  ciphertext, protected, read_tls_content-record_bytes, read-write,
}
use distributed_matchmaking.Tls.Prf.{prf, p_hash, prf-p_hash}
use distributed_matchmaking.Tls.Tests.Toys.{
  toy_hmac, toy_hmac-size, toy_crypto, toy_cipher, toy_random, toy_random-bytes, key, keyed, hello,
  hello-AreBytes,
}

unseal-eq-panic_example : (unseal (λ b. b) key ≡ panic) ↔ (length key ≡ block_size)
unseal-eq-panic_example = unseal-eq-panic (λ b. b) (λ b size. size) key

-- A vector equal to the only block: the plaintext is zero, which is no padding.
unseal_refuses : unseal (λ b. b) (key ++ replicate 16 7) ≡ error invalid_padding
unfolding unseal cbc_decrypt xor_bytes strip_padding
unseal_refuses = refl

read_tls_content-record_bytes_example :
    read_tls_content (keyed (record_bytes handshake hello ++ key))
    ≡ (value (ciphertext handshake hello 2), keyed key)
read_tls_content-record_bytes_example =
    read_tls_content-record_bytes (keyed (record_bytes handshake hello ++ key)) handshake hello key
      refl

abbrev wire : List ℕ
wire = protected toy_crypto toy_random (keyed []) key hello

read-write_example :
    (write toy_crypto toy_random hello (keyed [])
      ≡ (value 2, record (keyed []) { outgoing = wire; draws = 6 }))
    × (read toy_crypto toy_random (replicate 4 0) (keyed (wire ++ key))
        ≡ (value (4, copy_into (replicate 4 0) hello), keyed key))
read-write_example =
    read-write toy_crypto toy_random (keyed []) (keyed (wire ++ key)) key hello (replicate 4 0) key
      toy_cipher toy_random-bytes refl refl refl refl hello-AreBytes (omega arith) refl

copies : copy_into (replicate 4 0) hello ≡ 72 ∷ 105 ∷ 0 ∷ 0 ∷ []
unfolding copy_into
copies = refl

prf-p_hash_example : prf toy_hmac hello key 40 ≡ some (take 40 (p_hash toy_hmac hello key 2))
prf-p_hash_example = prf-p_hash toy_hmac toy_hmac-size hello key 40 2 (omega arith)
