-- ===== src/Tls/Agreement/Ciphers.antt =====
-- The two ciphers of a handshake, which both ends make from the master secret.
use distributed_matchmaking.Base.{ℕ, ◌≡◌, refl, ◌∙◌, List, arith, length}
use distributed_matchmaking.Base.Actions.{value}
use distributed_matchmaking.Tls.Agreement
use distributed_matchmaking.Tls.ClientFsm.{client_generate_keys}
use distributed_matchmaking.Tls.Connection.{Conn}
use distributed_matchmaking.Tls.Crypto.{Crypto}
use distributed_matchmaking.Tls.Handshake.{with_master_secret}
use distributed_matchmaking.Tls.Keys.{
  length-block_of, length-key_part, new_cipher_lem, client_generate_keys_lem,
  server_generate_keys_lem,
}
use distributed_matchmaking.Tls.ServerFsm.{server_generate_keys}

module _ (cr : Crypto) (rand : ℕ → ℕ → List ℕ) (c d : Conn cr rand)
    (laws : Agreement.Lawful cr rand) (p : Agreement.Prepared cr rand c d) where
  abbrev client_cipher : List ℕ
  client_cipher = Agreement.client_cipher cr rand c d laws p

  abbrev server_cipher : List ℕ
  server_cipher = Agreement.server_cipher cr rand c d laws p

  abbrev secret : List ℕ
  secret = (Agreement.master cr rand c d laws p).0

  pub client_cipher_size : length client_cipher ≡ 16
  unfolding Agreement.agreed_block
  client_cipher_size = length-key_part 40 16 _ (
      omega (
        arith,
        length-block_of cr rand laws.digest_size secret (Agreement.server_random cr rand c d laws p)
            (Agreement.client_random cr rand c d laws p),
      ))

  pub server_cipher_size : length server_cipher ≡ 16
  unfolding Agreement.agreed_block
  server_cipher_size = length-key_part 56 16 _ (
      omega (
        arith,
        length-block_of cr rand laws.digest_size secret (Agreement.server_random cr rand c d laws p)
            (Agreement.client_random cr rand c d laws p),
      ))

  pub client_keys :
      (rest : List ℕ)
      → client_generate_keys cr rand
          (with_master_secret secret (Agreement.client5 cr rand c d laws p rest))
        ≡ (value tt, Agreement.client6 cr rand c d laws p rest)
  unfolding Agreement.agreed_block
  client_keys rest =
      client_generate_keys_lem cr rand laws.digest_size
        (with_master_secret secret (Agreement.client5 cr rand c d laws p rest))
      ∙ rw
          (
            new_cipher_lem client_cipher client_cipher_size,
            new_cipher_lem server_cipher server_cipher_size,
          )
          refl

  pub server_keys :
      (rest : List ℕ)
      → server_generate_keys cr rand
          (with_master_secret secret (Agreement.server5 cr rand c d laws p rest))
        ≡ (value tt, Agreement.server6 cr rand c d laws p rest)
  unfolding Agreement.agreed_block
  server_keys rest =
      server_generate_keys_lem cr rand laws.digest_size
        (with_master_secret secret (Agreement.server5 cr rand c d laws p rest)) client_cipher
        server_cipher (new_cipher_lem client_cipher client_cipher_size)
        (new_cipher_lem server_cipher server_cipher_size)
