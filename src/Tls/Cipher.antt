-- ===== src/Tls/Cipher.antt =====
-- The record protection of TLS/tls/internal-tls-api.go: PKCS-style padding and CBC mode
-- (crypto/cipher) over single AES blocks, which are the arguments `encrypt` and `decrypt`.
pub mod Xor
pub mod RoundTrip
use Prim.Native.Nat.{bit_xor}
use distributed_matchmaking.Base.{
  ℕ, zero, suc, ◌-◌, ◌/◌, ◌%◌, List, [], ◌∷◌, ◌++◌, Option, some, none, ltb, ◌==◌, ◌||◌,
  if◌then◌else◌, length, take, drop, replicate, get_elem?,
}
use distributed_matchmaking.Base.Actions.{Outcome, value, error, panic}

-- `aes.BlockSize`
abbrev pub block_size : ℕ
block_size = 16

pub data CipherError : Type 0 where
  bad_length invalid_ciphertext_length invalid_padding : CipherError

unfoldable pub xor_bytes : List ℕ → List ℕ → List ℕ
xor_bytes [] ys = []
xor_bytes (x ∷ xs) [] = []
xor_bytes (x ∷ xs) (y ∷ ys) = bit_xor x y ∷ xor_bytes xs ys

-- `CryptBlocks` of `cipher.NewCBCEncrypter`, over a count of blocks.
unfoldable pub cbc_encrypt : (List ℕ → List ℕ) → ℕ → List ℕ → List ℕ → List ℕ
cbc_encrypt encrypt zero prev plaintext = []
cbc_encrypt encrypt (suc n) prev plaintext =
    let block = encrypt (xor_bytes (take block_size plaintext) prev) in
    block ++ cbc_encrypt encrypt n block (drop block_size plaintext)

-- `CryptBlocks` of `cipher.NewCBCDecrypter`.
unfoldable pub cbc_decrypt : (List ℕ → List ℕ) → ℕ → List ℕ → List ℕ → List ℕ
cbc_decrypt decrypt zero prev ciphertext = []
cbc_decrypt decrypt (suc n) prev ciphertext =
    xor_bytes (decrypt (take block_size ciphertext)) prev
    ++ cbc_decrypt decrypt n (take block_size ciphertext) (drop block_size ciphertext)

-- The bytes that `encryptContent` appends to the data.
unfoldable pub padding : List ℕ → List ℕ
padding bytes = let count = block_size - length bytes % block_size in replicate count (count % 256)

-- `encryptContent` past its draw of the initialisation vector.
unfoldable pub seal : (List ℕ → List ℕ) → List ℕ → List ℕ → List ℕ
seal encrypt iv bytes =
    let plaintext = bytes ++ padding bytes in
    iv ++ cbc_encrypt encrypt (length plaintext / block_size) iv plaintext

-- The end of `decryptContent`: the last byte of the plaintext counts the padding. An empty
-- plaintext has no last byte, and the index panics.
unfoldable pub strip_padding : List ℕ → Outcome CipherError (List ℕ)
strip_padding plaintext = elim (get_elem? plaintext (length plaintext - 1)) [
  | none ↦ panic
  | some padding_len ↦
      if padding_len == 0 || ltb block_size padding_len
      then error invalid_padding
      else value (take (length plaintext - padding_len) plaintext)
]

-- `decryptContent`
unfoldable pub unseal : (List ℕ → List ℕ) → List ℕ → Outcome CipherError (List ℕ)
unseal decrypt bytes =
    if ltb (length bytes) block_size
    then error bad_length
    else let iv = take block_size bytes in
      let ciphertext = drop block_size bytes in
      if length ciphertext % block_size == 0
      then strip_padding (cbc_decrypt decrypt (length ciphertext / block_size) iv ciphertext)
      else error invalid_ciphertext_length
