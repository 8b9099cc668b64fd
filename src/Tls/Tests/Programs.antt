-- ===== src/Tls/Tests/Programs.antt =====
-- The two programs on concrete inputs.
use distributed_matchmaking.Base.{
  str_eq, ℕ, ◌≡◌, ◌≢◌, ◌⊎◌, refl, List, [], ◌∷◌, ◌++◌, some, none, true, arith, map, Str,
}
use distributed_matchmaking.Tls.Agreement.{agreed_block, from_client, from_server}
use distributed_matchmaking.Tls.Connection.{
  Conn, TlsError, new_tls_conn, out_of_fuel, read_failed, record_bytes,
}
use distributed_matchmaking.Tls.Echo.{
  exited, stopped, crashed, client_talk, server_talk, server_loop, handle_connection,
}
use distributed_matchmaking.Tls.Echo.Ends.{server_loop-ends}
use distributed_matchmaking.Tls.Echo.Buffers.{padded, typed}
use distributed_matchmaking.Tls.Echo.Whole.{requests, replies, client_talk-server_talk}
use distributed_matchmaking.Tls.Files.{
  Files, read_certificate_from_file, read_private_key_from_file, open_tls_conn,
}
use distributed_matchmaking.Tls.Tests.Handshakes.{laws, served, prepared}
use distributed_matchmaking.Tls.Tests.Toys.{toy_crypto, toy_random, keyed, hello, hello-AreBytes}

abbrev said : List Str
said = hello ∷ hello ∷ []

-- What the two ends send, whatever they are to read.
abbrev to_client : List ℕ
to_client =
    from_server toy_crypto toy_random (keyed []) (served []) laws (prepared [] [])
      (replies toy_crypto toy_random (keyed []) (served []) laws (prepared [] []) said)

abbrev to_server : List ℕ
to_server =
    from_client toy_crypto toy_random (keyed []) (served []) laws (prepared [] [])
      (requests toy_crypto toy_random (keyed []) (served []) laws (prepared [] []) said)

client_talk-server_talk_example :
    let p = prepared to_client to_server in
    (c' d' : Conn toy_crypto toy_random) × (client_talk toy_crypto toy_random
        (typed said)
        (keyed to_client)
      ≡ (map padded said, exited, c'))
    × (server_talk toy_crypto toy_random (served to_server)
        ≡ (map padded said, stopped read_failed, d'))
    × (c'.outgoing
        ≡ []
          ++ from_client toy_crypto toy_random
              (keyed to_client)
              (served to_server)
              laws
              p
              (requests toy_crypto toy_random (keyed to_client) (served to_server) laws p said))
    × (d'.outgoing
        ≡ []
          ++ from_server toy_crypto toy_random
              (keyed to_client)
              (served to_server)
              laws
              p
              (replies toy_crypto toy_random (keyed to_client) (served to_server) laws p said))
unfolding prepared record_bytes str_eq agreed_block
client_talk-server_talk_example =
    client_talk-server_talk toy_crypto toy_random (keyed to_client) (served to_server) laws
      (prepared to_client to_server) said
      ((hello-AreBytes, omega arith, refl), ((hello-AreBytes, omega arith, refl), tt)) refl refl

server_loop-ends_example :
    let (shown, ending, c') = server_loop toy_crypto toy_random 3 (keyed hello) in
    ((e : TlsError) × (ending ≡ stopped e) × (e ≢ out_of_fuel)) ⊎ (ending ≡ crashed)
server_loop-ends_example = server_loop-ends toy_crypto toy_random (keyed hello)

-- No file at all.
abbrev missing : Files (List ℕ)
missing = record {
  read_file = λ path. none;
  pem_decode = λ data_read. some data_read;
  parse_pkcs8_private_key = λ block. some (some block);
}

-- The connection is nil then, and the handshake on it panics.
unreadable : handle_connection toy_crypto toy_random missing hello true ≡ ([], crashed)
unfolding handle_connection read_certificate_from_file read_private_key_from_file open_tls_conn
    new_tls_conn
unreadable = refl
