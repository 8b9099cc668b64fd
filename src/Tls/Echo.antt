-- ===== src/Tls/Echo.antt =====
-- TLS/client.go and TLS/server.go: the two programs that talk over the TLS library, a client that
-- sends what is typed and a server that sends back what it reads.
pub mod Buffers
pub mod Rounds
pub mod Whole
pub mod Ends
use distributed_matchmaking.Base.{
  ℕ, zero, suc, List, [], ◌∷◌, Option, some, none, Bool, true, false, Str, bytes, str_eq, take,
  length, replicate,
}
use distributed_matchmaking.Base.Actions.{Outcome, value, error, panic, ◌>>=◌, ◌>>◌, pure}
use distributed_matchmaking.Tls.Files.{Files, open_tls_conn}
use distributed_matchmaking.Tls.ClientFsm.{handshake_client_controller}
use distributed_matchmaking.Tls.ServerFsm.{handshake_server_controller}
use distributed_matchmaking.Tls.Connection.{Conn, Step, TlsError, out_of_fuel, read, write}
use distributed_matchmaking.Tls.Crypto.{Crypto}

-- `make([]byte, 1024)`
unfoldable pub fresh_buffer : List ℕ
fresh_buffer = replicate 1024 0

-- `message[:len(message)-1]`: out of range for the empty string.
unfoldable pub without_last : Str → Option Str
without_last [] = none
without_last (x ∷ xs) = some (take (length xs) (x ∷ xs))

-- How a program leaves its loop: `exit` was typed, a call has failed, or it has panicked.
pub data Ending : Type 0 where
  exited : Ending
  stopped : TlsError → Ending
  crashed : Ending

module _ (cr : Crypto) (rand : ℕ → ℕ → List ℕ) where
  -- The messages that a program prints as received, how it ends, and the connection.
  abbrev pub Talk : Type 0
  Talk = List Str × Ending × Conn cr rand

  abbrev pub show : Str → Talk → Talk
  show received (shown, ending, c) = (received ∷ shown, ending, c)

  -- A round of the loop that has returned, failed or panicked.
  abbrev pub on_round : (Conn cr rand → Talk) → Outcome TlsError Str × Conn cr rand → Talk
  on_round more (value received, c) = show received (more c)
  on_round more (error e, c) = ([], stopped e, c)
  on_round more (panic, c) = ([], crashed, c)

  unfoldable pub client_round : Str → Step cr rand Str
  client_round message = do
    write cr rand message
    (n, buf) ← read cr rand fresh_buffer
    pure (take n buf)

  -- Over what `ReadString` returns, line by line; at the end of the input it returns the empty
  -- string.
  unfoldable pub client_loop : List Str → Conn cr rand → Talk
  unfolding client_round
  client_loop [] c = ([], crashed, c)
  client_loop (line ∷ lines) c = elim (without_last line) [
    | none ↦ ([], crashed, c)
    | some message ↦ elim (str_eq message (bytes "exit")) [
      | true ↦ ([], exited, c)
      | false ↦ on_round (client_loop lines) (client_round message c)
    ]
  ]

  unfoldable pub server_round : Step cr rand Str
  server_round = do
    (n, buf) ← read cr rand fresh_buffer
    write cr rand (take n buf)
    pure (take n buf)

  unfoldable pub server_loop : ℕ → Conn cr rand → Talk
  unfolding server_round
  server_loop zero c = ([], stopped out_of_fuel, c)
  server_loop (suc fuel) c = on_round (server_loop fuel) (server_round c)

  abbrev pub on_handshake :
      (Conn cr rand → Talk) → Outcome TlsError (Unit {0}) × Conn cr rand → Talk
  on_handshake more (value tt, c) = more c
  on_handshake more (error e, c) = ([], stopped e, c)
  on_handshake more (panic, c) = ([], crashed, c)

  -- From the handshake on. Every round of the server uses up a header of five bytes at least, so
  -- that the bytes that are left are enough rounds.
  unfoldable pub client_talk : List Str → Conn cr rand → Talk
  unfolding client_loop
  client_talk lines c = on_handshake (client_loop lines) (handshake_client_controller cr rand c)

  unfoldable pub server_talk : Conn cr rand → Talk
  unfolding server_loop
  server_talk c =
      on_handshake (λ d. server_loop (suc (length d.incoming)) d)
        (handshake_server_controller cr rand c)

  -- The pointer that NewTLSConn returns, next to an error that the client overwrites and the server
  -- drops: nil where there is an error.
  abbrev pub pointer : Outcome TlsError (Conn cr rand) → Option (Conn cr rand)
  pointer (value c) = some c
  pointer (error e) = none
  pointer panic = none

  -- A method that is called through a pointer, up to its end or to the panic of its first use of a
  -- field: the handshake of the client begins with `c.secParam` of sendClientHello, that of the
  -- server with `c.conn` of readTLSContent.
  unfoldable pub call :
      {A : Type 0}
      → Step cr rand A
      → Option (Conn cr rand)
      → Outcome TlsError A × Option (Conn cr rand)
  call method c = elim c [ none ↦ (panic, none) | some c ↦ let (r, d) = method c in (r, some d) ]

  -- What follows the handshake.
  abbrev pub continue :
      (Conn cr rand → Talk)
      → Outcome TlsError (Unit {0}) × Option (Conn cr rand)
      → List Str × Ending
  continue more (value tt, none) = ([], crashed)
  continue more (value tt, some c) = ((more c).0, (more c).1)
  continue more (error e, c) = ([], stopped e)
  continue more (panic, c) = ([], crashed)

  -- `main` of the client past its dial, and `handleConnection` of the server.
  module _ (files : Files (Crypto.PrivateKey cr)) where
    unfoldable pub client_main : List Str → List ℕ → Bool → List Str × Ending
    unfolding client_loop open_tls_conn call
    client_main lines incoming writable =
        let opened =
          open_tls_conn cr rand files false (bytes "client.crt") (bytes "client.key") incoming
            writable in
        continue (client_loop lines) (call (handshake_client_controller cr rand) (pointer opened))

    unfoldable pub handle_connection : List ℕ → Bool → List Str × Ending
    unfolding server_loop open_tls_conn call
    handle_connection incoming writable =
        let opened =
          open_tls_conn cr rand files true (bytes "server.crt") (bytes "server.key") incoming
            writable in
        continue (λ d. server_loop (suc (length d.incoming)) d)
          (call (handshake_server_controller cr rand) (pointer opened))
