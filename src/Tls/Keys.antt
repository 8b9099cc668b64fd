-- ===== src/Tls/Keys.antt =====
-- The keys that the two ends derive.
use distributed_matchmaking.Base.{
  ℕ, ◌+◌, ◌≤◌, ◌≡◌, refl, ◌∙◌, List, ◌++◌, Option, some, arith, bytes, length, take, drop,
  length-take, length-drop,
}
use distributed_matchmaking.Base.Actions.{value, or_panic, bind-value}
use distributed_matchmaking.Tls.ClientFsm.{client_generate_keys}
use distributed_matchmaking.Tls.Connection.{Conn}
use distributed_matchmaking.Tls.Crypto.{Crypto}
use distributed_matchmaking.Tls.Handshake.{new_cipher, key_part, key_block}
use distributed_matchmaking.Tls.Prf.{p_hash, prf-p_hash, length-p_hash}
use distributed_matchmaking.Tls.ServerFsm.{server_generate_keys}

pub length-key_part :
    (a n : ℕ) (block : List ℕ) → a + n ≤ length block → length (key_part a n block) ≡ n
unfolding key_part
length-key_part a n block h = omega (arith, length-take n (drop a block), length-drop a block)

pub new_cipher_lem : (key : List ℕ) → length key ≡ 16 → new_cipher key ≡ some key
unfolding new_cipher
new_cipher_lem key e = rw (e, new_cipher)

module _ (cr : Crypto) (rand : ℕ → ℕ → List ℕ) where
  open cr use {hmac_sha256}

  module _ (digest_size : (key msg : List ℕ) → length (hmac_sha256 key msg) ≡ 32) where
    -- The block is made of the master secret and the random bytes of both hellos alone.
    unfoldable pub block_of : List ℕ → List ℕ → List ℕ → List ℕ
    block_of master server client =
        take 128 (p_hash hmac_sha256 master ((bytes "key expansion" ++ server) ++ client) 4)

    pub length-block_of :
        (master server client : List ℕ) → length (block_of master server client) ≡ 128
    unfolding block_of
    length-block_of master server client =
        let seed = (bytes "key expansion" ++ server) ++ client in
        omega (
          arith,
          length-take 128 (p_hash hmac_sha256 master seed 4),
          length-p_hash hmac_sha256 digest_size master seed 4,
        )

    key_block_lem :
        (c : Conn cr rand)
        → key_block cr rand c
          ≡ (value (block_of c.master_secret c.server_random c.client_random), c)
    unfolding key_block block_of
    key_block_lem c = rw (
      prf-p_hash hmac_sha256 digest_size c.master_secret
          ((bytes "key expansion" ++ c.server_random) ++ c.client_random) 128 4 (omega arith),
      key_block,
    )

    -- What both ends do to their connection, up to which key is which cipher's.
    abbrev pub filled : List ℕ → Option (List ℕ) → Option (List ℕ) → Conn cr rand → Conn cr rand
    filled block encrypt decrypt c = record c {
      mat_block = record {
        client_write_mac_key = key_part 0 20 block;
        server_write_mac_key = key_part 20 20 block;
        client_write_key = key_part 40 16 block;
        server_write_key = key_part 56 16 block;
        client_write_iv = key_part 72 16 block;
        server_write_iv = key_part 88 16 block;
        encrypt_cipher = encrypt;
        decrypt_cipher = decrypt;
      };
    }

    pub client_generate_keys_lem :
        (c : Conn cr rand)
        → let block = block_of c.master_secret c.server_random c.client_random in
          client_generate_keys cr rand c ≡ (
            value tt,
            filled block (new_cipher (key_part 40 16 block)) (new_cipher (key_part 56 16 block)) c,
          )
    unfolding client_generate_keys
    client_generate_keys_lem c = bind-value (key_block cr rand) _ (key_block_lem c)

    pub server_generate_keys_lem :
        (d : Conn cr rand) (ck sk : List ℕ)
        → let block = block_of d.master_secret d.server_random d.client_random in
          new_cipher (key_part 40 16 block) ≡ some ck
          → new_cipher (key_part 56 16 block) ≡ some sk
          → server_generate_keys cr rand d ≡ (value tt, filled block (some sk) (some ck) d)
    unfolding server_generate_keys
    server_generate_keys_lem d ck sk hc hs =
        let block = block_of d.master_secret d.server_random d.client_random in
        bind-value (key_block cr rand) _ (key_block_lem d)
        ∙ bind-value (or_panic (new_cipher (key_part 56 16 block))) _ {t = d} {a = sk} (rw hs refl)
        ∙ bind-value (or_panic (new_cipher (key_part 40 16 block))) _ {t = d} {a = ck} (rw hc refl)

    -- With digests of 32 bytes, a client and a server that hold the same master secret and the same
    -- random bytes both derive their keys without error, and what each encrypts with, a key of
    -- sixteen bytes, is what the other decrypts with.
    pub client_generate_keys-server_generate_keys :
        (c d : Conn cr rand)
        → c.master_secret ≡ d.master_secret
        → c.client_random ≡ d.client_random
        → c.server_random ≡ d.server_random
        → let c' = client_generate_keys cr rand c in
          let d' = server_generate_keys cr rand d in
          (client_key server_key : List ℕ) × (length client_key ≡ 16)
          × (length server_key ≡ 16)
          × (c'.0 ≡ value tt)
          × (d'.0 ≡ value tt)
          × (c'.1.mat_block.encrypt_cipher ≡ some client_key)
          × (d'.1.mat_block.decrypt_cipher ≡ some client_key)
          × (d'.1.mat_block.encrypt_cipher ≡ some server_key)
          × (c'.1.mat_block.decrypt_cipher ≡ some server_key)
    client_generate_keys-server_generate_keys c d m rc rs =
        let block = block_of d.master_secret d.server_random d.client_random in
        let whole = length-block_of d.master_secret d.server_random d.client_random in
        let same : block_of c.master_secret c.server_random c.client_random ≡ block =
          rw (m, rc, rs) refl in
        let ck = length-key_part 40 16 block (omega (arith, whole)) in
        let sk = length-key_part 56 16 block (omega (arith, whole)) in
        let client = client_generate_keys_lem c in
        let server =
          server_generate_keys_lem d (key_part 40 16 block) (key_part 56 16 block)
            (new_cipher_lem _ ck) (new_cipher_lem _ sk) in
        (
          key_part 40 16 block,
          key_part 56 16 block,
          ck,
          sk,
          rw client refl,
          rw server refl,
          rw (client, same) (new_cipher_lem _ ck),
          rw server refl,
          rw server refl,
          rw (client, same) (new_cipher_lem _ sk),
        )
