-- ===== src/Tls/Tests/Exchange.antt =====
-- Steps of the handshake on concrete connections.
use distributed_matchmaking.Base.{ℕ, ◌≡◌, ◌≢◌, refl, List, [], ◌∷◌, ◌++◌, some, arith, length}
use distributed_matchmaking.Base.Actions.{value, error}
use distributed_matchmaking.Tls.Cipher.{seal}
use distributed_matchmaking.Tls.ClientFsm.{receive_server_messages, client_generate_keys}
use distributed_matchmaking.Tls.ServerFsm.{server_generate_keys}
use distributed_matchmaking.Tls.Keys.{client_generate_keys-server_generate_keys}
use distributed_matchmaking.Tls.ClientFsm.Termination.{receive_server_messages-ends}
use distributed_matchmaking.Tls.Connection.{
  handshake, change_cipher_spec, finished, server_hello_done, record_bytes, out_of_fuel,
}
use distributed_matchmaking.Tls.Handshake.{receive_finished}
use distributed_matchmaking.Tls.Handshake.Steps.{receive_finished_lem}
use distributed_matchmaking.Tls.Messages.{change_cipher_spec_payload}
use distributed_matchmaking.Tls.Tests.Toys.{
  toy_hmac-size, toy_crypto, toy_cipher, toy_random, toy_random-bytes, key, keyed, hello,
}

-- A Finished message with verify data that no one computed.
abbrev forged : List ℕ
forged =
    record_bytes change_cipher_spec change_cipher_spec_payload
    ++ (record_bytes handshake (seal (λ b. b) key (finished ∷ hello)) ++ hello)

receive_finished_lem_example :
    receive_finished toy_crypto toy_random (keyed forged) ≡ (value tt, keyed hello)
receive_finished_lem_example =
    receive_finished_lem toy_crypto toy_random (keyed forged) key key hello hello toy_cipher refl
      refl (toy_random-bytes 7 16).1 (omega arith) (omega arith) refl

receive_server_messages-ends_example :
    (receive_server_messages toy_crypto toy_random
      (keyed (record_bytes handshake (server_hello_done ∷ []) ++ hello))).0
    ≢ error out_of_fuel
receive_server_messages-ends_example =
    receive_server_messages-ends toy_crypto toy_random
      (keyed (record_bytes handshake (server_hello_done ∷ []) ++ hello))

client_generate_keys-server_generate_keys_example :
    let c' = client_generate_keys toy_crypto toy_random (keyed hello) in
    let d' = server_generate_keys toy_crypto toy_random (keyed []) in
    (client_key server_key : List ℕ) × (length client_key ≡ 16)
    × (length server_key ≡ 16)
    × (c'.0 ≡ value tt)
    × (d'.0 ≡ value tt)
    × (c'.1.mat_block.encrypt_cipher ≡ some client_key)
    × (d'.1.mat_block.decrypt_cipher ≡ some client_key)
    × (d'.1.mat_block.encrypt_cipher ≡ some server_key)
    × (c'.1.mat_block.decrypt_cipher ≡ some server_key)
client_generate_keys-server_generate_keys_example =
    client_generate_keys-server_generate_keys toy_crypto toy_random toy_hmac-size (keyed hello)
      (keyed []) refl refl refl
