-- ===== src/Tls/Cipher/Xor.antt =====
-- Exclusive or on bytes and on byte strings of one length.
use Prim.Native.Nat.{bit_xor}
use distributed_matchmaking.Base.{
  ℕ, zero, suc, ◌<◌, ◌≡◌, refl, ap, List, [], ◌∷◌, Bool, true, ◌&&◌, ◌==◌, ltb, arith, length, All,
}
use distributed_matchmaking.Tls.Bytes.{IsByte}
use distributed_matchmaking.Tls.Cipher.{xor_bytes}

every : ℕ → (ℕ → Bool) → Bool
every zero p = true
every (suc n) p = p n && every n p

every_sound : (n : ℕ) (p : ℕ → Bool) → every n p ≡ true → (x : ℕ) → x < n → p x ≡ true
unfolding every
every_sound zero p h x lt = absurd (omega arith)
every_sound (suc n) p h x lt = ground (arith, every_sound n p (ground arith) x)

cancels : ℕ → ℕ → Bool
cancels a b = bit_xor (bit_xor a b) b == a && ltb (bit_xor a b) 256

table : every 256 (λ a. every 256 (cancels a)) ≡ true
unfolding every cancels
table = refl

bit_xor-IsByte :
    (a b : ℕ) → IsByte a → IsByte b → (bit_xor (bit_xor a b) b ≡ a) × IsByte (bit_xor a b)
unfolding cancels
bit_xor-IsByte a b ha hb =
    let row = every_sound 256 (λ a'. every 256 (cancels a')) table a ha in
    let cell : cancels a b ≡ true = every_sound 256 (cancels a) row b hb in ground (arith, cell)

pub xor_bytes-cancel :
    (xs ys : List ℕ)
    → length xs ≡ length ys
    → All IsByte xs
    → All IsByte ys
    → xor_bytes (xor_bytes xs ys) ys ≡ xs
unfolding xor_bytes
xor_bytes-cancel [] ys e hx hy = refl
xor_bytes-cancel (x ∷ xs) [] e hx hy = absurd (omega arith)
xor_bytes-cancel (x ∷ xs) (y ∷ ys) e (hx, hxs) (hy, hys) =
    rw ((bit_xor-IsByte x y hx hy).0) (ap (◌∷◌ x) (xor_bytes-cancel xs ys (omega arith) hxs hys))

pub length-xor_bytes :
    (xs ys : List ℕ) → length xs ≡ length ys → length (xor_bytes xs ys) ≡ length xs
unfolding xor_bytes
length-xor_bytes [] ys e = refl
length-xor_bytes (x ∷ xs) [] e = absurd (omega arith)
length-xor_bytes (x ∷ xs) (y ∷ ys) e = ap suc (length-xor_bytes xs ys (omega arith))

pub xor_bytes-IsByte :
    (xs ys : List ℕ) → All IsByte xs → All IsByte ys → All IsByte (xor_bytes xs ys)
unfolding xor_bytes
xor_bytes-IsByte [] ys hx hy = tt
xor_bytes-IsByte (x ∷ xs) [] hx hy = tt
xor_bytes-IsByte (x ∷ xs) (y ∷ ys) (hx, hxs) (hy, hys) =
    ((bit_xor-IsByte x y hx hy).1, xor_bytes-IsByte xs ys hxs hys)
