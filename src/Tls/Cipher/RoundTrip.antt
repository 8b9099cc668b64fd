-- ===== src/Tls/Cipher/RoundTrip.antt =====
-- `decryptContent` of TLS/tls/internal-tls-api.go after `encryptContent`, and on other input.
use distributed_matchmaking.Base.{
  ℕ, zero, suc, ◌+◌, ◌-◌, ◌*◌, ◌/◌, ◌%◌, ◌≤◌, ◌≡◌, refl, sym, ap, ◌∙◌, ◌↔◌, List, [], ◌∷◌, ◌++◌,
  some, ltb, ◌==◌, ◌||◌, if◌then◌else◌, arith, length, take, drop, replicate, get_elem?, All,
  length-append, length-take, length-drop, length-replicate, take-append, take-append-drop,
  take-prefix, drop-prefix, All-append, All-take, All-drop, All-replicate,
}
use distributed_matchmaking.Base.Actions.{value, error, panic}
use distributed_matchmaking.Tls.Bytes.{IsByte}
use distributed_matchmaking.Tls.Cipher.{
  block_size, invalid_padding, xor_bytes, cbc_encrypt, cbc_decrypt, padding, seal, strip_padding,
  unseal,
}
use distributed_matchmaking.Tls.Cipher.Xor.{xor_bytes-cancel, length-xor_bytes, xor_bytes-IsByte}

abbrev pub AreBytes : List ℕ → Type 0
AreBytes = All IsByte

-- A block cipher under one key: on blocks of sixteen bytes `decrypt` undoes `encrypt`.
pub record IsBlockCipher (encrypt decrypt : List ℕ → List ℕ) : Type 0 where
  pub inverse : (b : List ℕ) → length b ≡ block_size → AreBytes b → decrypt (encrypt b) ≡ b
  pub size : (b : List ℕ) → length b ≡ block_size → length (encrypt b) ≡ block_size
  pub are_bytes : (b : List ℕ) → length b ≡ block_size → AreBytes b → AreBytes (encrypt b)

empty : (xs : List ℕ) → length xs ≡ 0 → xs ≡ []
empty [] e = refl
empty (x ∷ xs) e = absurd (omega arith)

last_padded :
    (xs : List ℕ) (k v : ℕ) → get_elem? (xs ++ replicate (suc k) v) (length xs + k) ≡ some v
last_padded [] zero v = refl
last_padded [] (suc k) v =
    let e : 0 + suc k ≡ suc (0 + k) = omega arith in rw e (last_padded [] k v)
last_padded (x ∷ xs) k v =
    let e : suc (length xs) + k ≡ suc (length xs + k) = omega arith in rw e (last_padded xs k v)

length-padded :
    (xs : List ℕ) → length (xs ++ padding xs) ≡ length (xs ++ padding xs) / block_size * block_size
unfolding padding
length-padded xs =
    let count = block_size - length xs % block_size in
    rw (length-append, length-replicate) (omega arith)

padded-AreBytes : (xs : List ℕ) → AreBytes xs → AreBytes (xs ++ padding xs)
unfolding padding
padded-AreBytes xs h = All-append IsByte xs (padding xs) (h, All-replicate IsByte _ _ (omega arith))

strip_padding-last :
    (p : List ℕ) (v : ℕ)
    → get_elem? p (length p - 1) ≡ some v
    → strip_padding p ≡ (
        if v == 0 || ltb block_size v then error invalid_padding else value (take (length p - v) p))
unfolding strip_padding
strip_padding-last p v h = rw (h, strip_padding)

strip_padding-padded : (xs : List ℕ) → strip_padding (xs ++ padding xs) ≡ value xs
unfolding padding
strip_padding-padded xs =
    let k = 15 - length xs % block_size in
    let p = xs ++ replicate (suc k) (suc k) in
    let e : block_size - length xs % block_size ≡ suc k = omega arith in
    let v : suc k % 256 ≡ suc k = omega arith in
    let size : length p ≡ length xs + suc k = rw (length-append, length-replicate) refl in
    let at : length p - 1 ≡ length xs + k = omega arith in
    let kept : length p - suc k ≡ length xs = omega arith in
    let last : get_elem? p (length p - 1) ≡ some (suc k) = rw at (last_padded xs k (suc k)) in
    rw (e, v)
      (ground (
        arith,
        strip_padding-last p (suc k) last,
        kept,
        take-append xs (replicate (suc k) (suc k)),
      ))

module _ {encrypt decrypt : List ℕ → List ℕ} (law : IsBlockCipher encrypt decrypt) where
  module _ (n : ℕ) (p prev : List ℕ) (hp : length p ≡ suc n * block_size) (bp : AreBytes p)
      (hv : length prev ≡ block_size) (bv : AreBytes prev) where
    mixed : List ℕ
    mixed = xor_bytes (take block_size p) prev

    length-first : length (take block_size p) ≡ length prev
    length-first = omega (arith, length-take block_size p)

    length-mixed : length mixed ≡ block_size
    unfolding mixed
    length-mixed =
        omega (arith, length-xor_bytes (take block_size p) prev length-first, length-first)

    mixed-AreBytes : AreBytes mixed
    unfolding mixed
    mixed-AreBytes = xor_bytes-IsByte (take block_size p) prev (All-take IsByte block_size p bp) bv

    -- The first block of ciphertext, and what is left of the plaintext.
    first-size : length (encrypt mixed) ≡ block_size
    first-size = law.size mixed length-mixed

    first-AreBytes : AreBytes (encrypt mixed)
    first-AreBytes = law.are_bytes mixed length-mixed mixed-AreBytes

    first-inverse : decrypt (encrypt mixed) ≡ mixed
    first-inverse = law.inverse mixed length-mixed mixed-AreBytes

    length-rest : length (drop block_size p) ≡ n * block_size
    length-rest = omega (arith, length-drop block_size p)

    unmixed : xor_bytes mixed prev ≡ take block_size p
    unfolding mixed
    unmixed =
        xor_bytes-cancel (take block_size p) prev length-first (All-take IsByte block_size p bp) bv

  length-cbc_encrypt :
      (n : ℕ) (prev p : List ℕ)
      → length p ≡ n * block_size
      → AreBytes p
      → length prev ≡ block_size
      → AreBytes prev
      → length (cbc_encrypt encrypt n prev p) ≡ n * block_size
  unfolding cbc_encrypt mixed
  length-cbc_encrypt zero prev p hp bp hv bv = refl
  length-cbc_encrypt (suc n) prev p hp bp hv bv =
      let rest =
        length-cbc_encrypt n (encrypt (xor_bytes (take block_size p) prev)) (drop block_size p)
          (length-rest n p prev hp bp hv bv) (All-drop IsByte block_size p bp)
          (first-size n p prev hp bp hv bv) (first-AreBytes n p prev hp bp hv bv) in
      rw length-append (omega (arith, rest, first-size n p prev hp bp hv bv))

  cbc_decrypt-cbc_encrypt :
      (n : ℕ) (prev p : List ℕ)
      → length p ≡ n * block_size
      → AreBytes p
      → length prev ≡ block_size
      → AreBytes prev
      → cbc_decrypt decrypt n prev (cbc_encrypt encrypt n prev p) ≡ p
  unfolding cbc_decrypt cbc_encrypt mixed
  cbc_decrypt-cbc_encrypt zero prev p hp bp hv bv = sym (empty p hp)
  cbc_decrypt-cbc_encrypt (suc n) prev p hp bp hv bv =
      let c = encrypt (xor_bytes (take block_size p) prev) in
      let rest = cbc_encrypt encrypt n c (drop block_size p) in
      let size : length c ≡ block_size = first-size n p prev hp bp hv bv in
      let ih =
        cbc_decrypt-cbc_encrypt n c (drop block_size p) (length-rest n p prev hp bp hv bv)
          (All-drop IsByte block_size p bp) size (first-AreBytes n p prev hp bp hv bv) in
      rw
        (
          take-prefix block_size c rest size,
          drop-prefix block_size c rest size,
          first-inverse n p prev hp bp hv bv,
          unmixed n p prev hp bp hv bv,
          ih,
        )
        (take-append-drop block_size p)

  unseal_parts :
      (iv c : List ℕ)
      → length iv ≡ block_size
      → length c % block_size ≡ 0
      → unseal decrypt (iv ++ c) ≡ strip_padding (cbc_decrypt decrypt (length c / block_size) iv c)
  unfolding unseal
  unseal_parts iv c hv hc =
      rw (take-prefix block_size iv c hv, drop-prefix block_size iv c hv)
        (ground (arith, length-append iv c))

  -- For a block cipher on bytes and a vector of one block, decryptContent gives back the bytes
  -- that encryptContent was given.
  pub unseal-seal :
      (iv content : List ℕ)
      → length iv ≡ block_size
      → AreBytes iv
      → AreBytes content
      → unseal decrypt (seal encrypt iv content) ≡ value content
  unfolding seal
  unseal-seal iv xs hv bv bx =
      let p = xs ++ padding xs in
      let n = length p / block_size in
      let whole : length p ≡ n * block_size = length-padded xs in
      let bytes = padded-AreBytes xs bx in
      let size = length-cbc_encrypt n iv p whole bytes hv bv in
      let m : length (cbc_encrypt encrypt n iv p) / block_size ≡ n = omega (arith, size) in
      unseal_parts iv (cbc_encrypt encrypt n iv p) hv (omega (arith, size))
      ∙ rw (m, cbc_decrypt-cbc_encrypt n iv p whole bytes hv bv) (strip_padding-padded xs)

last_exists : (x : ℕ) (p : List ℕ) → (v : ℕ) × (get_elem? (x ∷ p) (length p) ≡ some v)
last_exists x [] = (x, refl)
last_exists x (y ∷ p) = last_exists y p

strip_padding-eq-panic : (p : List ℕ) → (strip_padding p ≡ panic) ↔ (p ≡ [])
strip_padding-eq-panic [] = (λ _. refl, λ _. unfold strip_padding in refl)
strip_padding-eq-panic (x ∷ p) =
    let e : suc (length p) - 1 ≡ length p = omega arith in
    let (v, g) = last_exists x p in
    let r = strip_padding-last (x ∷ p) v (rw e g) in
    (λ q. ground (arith, r), λ q. absurd (omega (arith, ap length q)))

length-cbc_decrypt :
    (decrypt : List ℕ → List ℕ)
    → ((b : List ℕ) → length b ≡ block_size → length (decrypt b) ≡ block_size)
    → (n : ℕ) (prev c : List ℕ) → length prev ≡ block_size
    → length c ≡ n * block_size
    → length (cbc_decrypt decrypt n prev c) ≡ n * block_size
unfolding cbc_decrypt
length-cbc_decrypt decrypt size zero prev c hv hc = refl
length-cbc_decrypt decrypt size (suc n) prev c hv hc =
    let first : length (take block_size c) ≡ block_size = omega (arith, length-take block_size c) in
    let block : length (decrypt (take block_size c)) ≡ block_size = size _ first in
    let rest =
      length-cbc_decrypt decrypt size n (take block_size c) (drop block_size c) first
        (omega (arith, length-drop block_size c)) in
    rw length-append (
      omega (arith, rest, length-xor_bytes (decrypt (take block_size c)) prev (omega arith), block))

-- A sealed content is at most two blocks longer.
module _ {encrypt decrypt : List ℕ → List ℕ} (law : IsBlockCipher encrypt decrypt) where
  pub length-seal :
      (iv content : List ℕ)
      → length iv ≡ block_size
      → AreBytes iv
      → AreBytes content
      → length (seal encrypt iv content) ≤ length content + 32
  unfolding seal padding
  length-seal iv xs hv bv bx =
      let p = xs ++ padding xs in
      let whole = length-padded xs in
      let size =
        length-cbc_encrypt law (length p / block_size) iv p whole (padded-AreBytes xs bx) hv bv in
      rw length-append (
        omega (
          arith,
          size,
          length-append xs (padding xs),
          length-replicate (block_size - length xs % block_size)
              ((block_size - length xs % block_size) % 256),
        ))

-- Whatever the block cipher, as long as it keeps the size of a block, `decryptContent` panics
-- exactly on input of one block: there is then no plaintext byte to read the padding from.
pub unseal-eq-panic :
    (decrypt : List ℕ → List ℕ)
    → ((b : List ℕ) → length b ≡ block_size → length (decrypt b) ≡ block_size)
    → (xs : List ℕ) → (unseal decrypt xs ≡ panic) ↔ (length xs ≡ block_size)
unfolding unseal
unseal-eq-panic decrypt size xs = (
  λ h. ground (arith, h, plain-length.0, length-plain, length-drop block_size xs),
  λ e. ground (arith, plain-length.1, length-plain, length-drop block_size xs),
)
  where
    c : List ℕ
    c = drop block_size xs

    p : List ℕ
    p = cbc_decrypt decrypt (length c / block_size) (take block_size xs) c

    plain-length : (strip_padding p ≡ panic) ↔ (length p ≡ 0)
    plain-length = let (f, g) = strip_padding-eq-panic p in (λ h. rw (f h) refl, λ e. g (empty p e))

    length-plain :
        block_size ≤ length xs
        → length c % block_size ≡ 0
        → length p ≡ length c / block_size * block_size
    length-plain h m =
        length-cbc_decrypt decrypt size _ (take block_size xs) c
          (omega (arith, length-take block_size xs)) (omega arith)
