-- ===== src/Tls/Prf.antt =====
-- The pseudo-random function of TLS/tls/crypto-utils.go and the secrets made with it.
use distributed_matchmaking.Base.{
  ℕ, zero, suc, ◌-◌, ◌*◌, ◌≤◌, ◌<◌, ◌≡◌, refl, List, [], ◌∷◌, ◌++◌, Option, some, none, ltb,
  if◌then◌else◌, arith, length, take, length-append, length-take, bytes, Bool-cases, inl, inr,
  ltb→lt, sym, ap, ◌∙◌, ◌⊎◌,
}
use native.Mathlib.Decide.{dec_le}

take-append_left : (n : ℕ) (xs ys : List ℕ) → n ≤ length xs → take n (xs ++ ys) ≡ take n xs
take-append_left zero xs ys h = refl
take-append_left (suc n) [] ys h = elim h [ ]
take-append_left (suc n) (x ∷ xs) ys h = ap (◌∷◌ x) (take-append_left n xs ys (omega arith))

le_total : (a b : ℕ) → (a ≤ b) ⊎ (b ≤ a)
le_total a b = omega arith

module _ (hmac_sha256 : List ℕ → List ℕ → List ℕ) where
  -- The loop of `prf`; `none` means that the fuel ran out.
  unfoldable pub prf_loop : ℕ → List ℕ → List ℕ → ℕ → List ℕ → List ℕ → Option (List ℕ)
  prf_loop zero secret seed output_length a output = none
  prf_loop (suc fuel) secret seed output_length a output =
      let a' = hmac_sha256 secret a in
      let rest =
        prf_loop fuel secret seed output_length a' (output ++ hmac_sha256 secret (a' ++ seed)) in
      if ltb (length output) output_length then rest else some (take output_length output)

  -- Each round adds a digest of 32 bytes, so `output_length` rounds are more than enough.
  unfoldable pub prf : List ℕ → List ℕ → ℕ → Option (List ℕ)
  unfolding prf_loop
  prf secret seed output_length = prf_loop (suc output_length) secret seed output_length seed []

  unfoldable pub generate_master_secret : List ℕ → List ℕ → List ℕ → Option (List ℕ)
  unfolding prf
  generate_master_secret client_random server_random pre_master_secret =
      prf pre_master_secret ((bytes "master secret" ++ client_random) ++ server_random) 48

  -- The specification of RFC 5246, section 5: the digests A(i), and the stream of their outputs.
  unfoldable pub a_digest : List ℕ → List ℕ → ℕ → List ℕ
  a_digest secret seed zero = seed
  a_digest secret seed (suc i) = hmac_sha256 secret (a_digest secret seed i)

  unfoldable pub p_hash : List ℕ → List ℕ → ℕ → List ℕ
  p_hash secret seed zero = []
  p_hash secret seed (suc n) =
      p_hash secret seed n ++ hmac_sha256 secret (a_digest secret seed (suc n) ++ seed)

  module _ (digest_size : (key msg : List ℕ) → length (hmac_sha256 key msg) ≡ 32) where
    pub length-p_hash : (secret seed : List ℕ) (n : ℕ) → length (p_hash secret seed n) ≡ n * 32
    unfolding p_hash
    length-p_hash secret seed zero = refl
    length-p_hash secret seed (suc n) = omega (
      arith,
      length-append (p_hash secret seed n)
          (hmac_sha256 secret (a_digest secret seed (suc n) ++ seed)),
      length-p_hash secret seed n,
      digest_size secret (a_digest secret seed (suc n) ++ seed),
    )

    -- After `n` rounds the loop holds A(n) and the first `n` outputs, and ends with a prefix of
    -- the first `k` of them that is long enough.
    prf_loop-p_hash :
        (fuel : ℕ) (secret seed : List ℕ) (output_length n : ℕ)
        → output_length - n * 32 < fuel
        → (k : ℕ) × (output_length ≤ k * 32)
          × (prf_loop fuel secret seed output_length (a_digest secret seed n) (p_hash secret seed n)
              ≡ some (take output_length (p_hash secret seed k)))
    unfolding prf_loop a_digest p_hash
    prf_loop-p_hash zero secret seed output_length n h = elim h [ ]
    prf_loop-p_hash (suc fuel) secret seed output_length n h =
        elim (Bool-cases (ltb (length (p_hash secret seed n)) output_length)) [
          | inl more ↦
              let short = ltb→lt _ _ more in
              let (k, long, e) =
                prf_loop-p_hash fuel secret seed output_length (suc n)
                  (omega (arith, length-p_hash secret seed n, short)) in
              (k, long, rw (more, prf_loop) e)
          | inr done ↦ (n, ground (arith, length-p_hash secret seed n), rw (done, prf_loop))
        ]

    p_hash-prefix :
        (secret seed : List ℕ) (output_length k m : ℕ)
        → output_length ≤ k * 32
        → k ≤ m
        → take output_length (p_hash secret seed m) ≡ take output_length (p_hash secret seed k)
    unfolding p_hash
    p_hash-prefix secret seed output_length k zero p q = let e : k ≡ 0 = omega arith in rw e
    p_hash-prefix secret seed output_length k (suc m) p q = elim (dec_le k m) [
      | yes r ↦
          take-append_left output_length (p_hash secret seed m) _
            (omega (arith, length-p_hash secret seed m))
          ∙ p_hash-prefix secret seed output_length k m p r
      | no r ↦ let e : k ≡ suc m = omega arith in rw e
    ]

    -- With digests of 32 bytes, prf ends and answers the first output_length bytes of the P_hash
    -- stream of RFC 5246, section 5, of which at least that many are laid out.
    pub prf-p_hash :
        (secret seed : List ℕ) (output_length k : ℕ)
        → output_length ≤ k * 32
        → prf secret seed output_length ≡ some (take output_length (p_hash secret seed k))
    unfolding prf
    prf-p_hash secret seed output_length k h =
        let (n, long, e) =
          prf_loop-p_hash (suc output_length) secret seed output_length 0 (omega arith) in
        elim (le_total k n) [
          | inl p ↦
              unfold a_digest p_hash in
              e ∙ ap some (p_hash-prefix secret seed output_length k n h p)
          | inr p ↦
              unfold a_digest p_hash in
              e ∙ ap some (sym (p_hash-prefix secret seed output_length n k long p))
        ]

    -- With digests of 32 bytes, the master secret exists and has 48 bytes.
    pub generate_master_secret-length :
        (client_random server_random pre_master_secret : List ℕ)
        → (secret : List ℕ) × (generate_master_secret client_random server_random pre_master_secret
            ≡ some secret)
          × (length secret ≡ 48)
    unfolding generate_master_secret
    generate_master_secret-length client_random server_random pre_master_secret =
        let seed = (bytes "master secret" ++ client_random) ++ server_random in
        (
          take 48 (p_hash pre_master_secret seed 2),
          prf-p_hash pre_master_secret seed 48 2 (omega arith),
          omega (
            arith,
            length-take 48 (p_hash pre_master_secret seed 2),
            length-p_hash pre_master_secret seed 2,
          ),
        )
