-- ===== src/Tls/Hello.antt =====
-- The ClientHello on its way from the client to the server.
use distributed_matchmaking.Base.{
  ℕ, suc, ◌≡◌, refl, ◌∙◌, List, [], ◌∷◌, ◌++◌, true, arith, length, length-append,
}
use distributed_matchmaking.Base.Actions.{value, or_panic, bind-value}
use distributed_matchmaking.Tls.Bytes.{put_uint16}
use distributed_matchmaking.Tls.ClientFsm.{send_client_hello}
use distributed_matchmaking.Tls.Connection.{Conn, handshake, client_hello, record_bytes, rand_read}
use distributed_matchmaking.Tls.Crypto.{Crypto}
use distributed_matchmaking.Tls.Handshake.{append_history, with_client_random, expect_message}
use distributed_matchmaking.Tls.Handshake.Steps.{arrived, sent, send_message-expect_message}
use distributed_matchmaking.Tls.Messages.{
  handshake_message, client_hello_payload, hello_body, hello_random,
}
use distributed_matchmaking.Tls.Messages.Parsing.{hello_random-hello}
use distributed_matchmaking.Tls.ServerFsm.{receive_client_hello}

module _ (cr : Crypto) (rand : ℕ → ℕ → List ℕ) where
  -- The random bytes that the client draws at this point, and its connection with them.
  abbrev pub random : Conn cr rand → List ℕ
  random c = rand c.draws 32

  abbrev pub greeting : Conn cr rand → Conn cr rand
  greeting c = with_client_random (random c) (record c { draws = suc c.draws })

  -- A client that can write and draws thirty-two random bytes sends them in its ClientHello, and a
  -- server on which this record is next takes the same bytes for the client's and leaves what
  -- follows. Both note the same message in their histories.
  pub send_client_hello-receive_client_hello :
      (c d : Conn cr rand) (rest : List ℕ)
      → c.writable ≡ true
      → length (random c) ≡ 32
      → d.incoming ≡ record_bytes handshake (client_hello_payload (random c)) ++ rest
      → (send_client_hello cr rand c
          ≡ (value tt, sent (client_hello_payload (random c)) (greeting c)))
        × (receive_client_hello cr rand d ≡ (
          value tt,
          with_client_random
              (random c)
              (append_history (client_hello_payload (random c)) (arrived rest d)),
        ))
  unfolding send_client_hello receive_client_hello rand_read client_hello_payload handshake_message
      put_uint16
  send_client_hello-receive_client_hello c d rest w size h =
      let tail : List ℕ = 0x00 ∷ 0x00 ∷ 0x02 ∷ 0x00 ∷ 0x2F ∷ 0x01 ∷ 0x00 ∷ [] in
      let body : length (hello_body (random c)) ≡ 41 =
        unfold hello_body in omega (arith, length-append (random c) tail) in
      let message = client_hello_payload (random c) in
      let (sends, receives) =
        send_message-expect_message (greeting c) d client_hello _ rest w (omega (arith, body)) h in
      (
        sends,
        bind-value (expect_message client_hello) _ receives
            ∙ bind-value (or_panic (hello_random message)) _
                {t = append_history message (arrived rest d)} {a = random c}
                (rw (hello_random-hello client_hello (random c) size) refl),
      )
