-- ===== src/Tls/ClientFsm/Termination.antt =====
-- The loop of `receiveServerMessages` of TLS/tls/tls-client-fsm.go, and the bytes that it uses up.
use distributed_matchmaking.Base.{
  ℕ, zero, suc, ◌+◌, ◌≤◌, ◌<◌, ◌≢◌, List, Option, arith, length, get_elem?, ◌==◌,
}
use distributed_matchmaking.Base.Actions.{error, or_panic, check}
use distributed_matchmaking.Tls.Connection.{
  out_of_fuel, handshake, unexpected_content_type, read_tls_content, Conn,
}
use distributed_matchmaking.Tls.Connection.Usage.{
  Uses, bind-Uses, Uses-weaken, round-Uses, ends-Uses, or_panic-Uses, check-Uses,
  read_tls_content-Uses,
}
use distributed_matchmaking.Tls.Crypto.{Crypto}
use distributed_matchmaking.Tls.ClientFsm.{
  server_message, receive_server_loop, receive_server_messages,
}
use distributed_matchmaking.Tls.Handshake.{append_history}
use distributed_matchmaking.Tls.Messages.{read_certificate, parse_chain}

read_certificate-ends :
    {D : Type 0} (parse : List ℕ → Option D) (message : List ℕ)
    → read_certificate parse message ≢ error out_of_fuel
unfolding read_certificate parse_chain
read_certificate-ends parse message = ground arith

module _ (cr : Crypto) (rand : ℕ → ℕ → List ℕ) where
  server_message-Uses :
      (t : ℕ) (message : List ℕ) (c : Conn cr rand) (k n : ℕ)
      → length c.incoming + k ≤ n
      → Uses k n (server_message cr rand t message c)
  unfolding server_message Uses
  server_message-Uses t message c k n h =
      ground (arith, read_certificate-ends cr.parse_certificate message)

  loop-Uses :
      (fuel : ℕ) (c : Conn cr rand) (n : ℕ)
      → length c.incoming ≤ n
      → n < fuel
      → Uses 0 n (receive_server_loop cr rand fuel c)
  unfolding receive_server_loop
  loop-Uses zero c n h small = elim small [ ]
  loop-Uses (suc fuel) c n h small =
      bind-Uses read_tls_content _ c 5 0 n (read_tls_content-Uses c n h) (λ ct d hd.
        bind-Uses (check (ct.tls_type == handshake) unexpected_content_type) _ d 5 0 n
          (check-Uses _ unexpected_content_type d 5 n (ground arith) hd)
          (λ _ e he.
            bind-Uses (or_panic (get_elem? ct.payload 0)) _ (append_history ct.payload e) 5 0 n
              (or_panic-Uses (get_elem? ct.payload 0) (append_history ct.payload e) 5 n he)
              (λ t f hf.
                bind-Uses (server_message cr rand t ct.payload) _ f 5 0 n
                  (server_message-Uses t ct.payload f 5 n hf)
                  (λ done g hg.
                    round-Uses done (receive_server_loop cr rand fuel) g n (omega arith) (
                      Uses-weaken _ _ (length g.incoming) n (omega arith)
                        (loop-Uses fuel g (length g.incoming) (omega arith) (omega arith)))))))

  -- Waiting for the server's messages never runs out of the rounds that the bytes of the
  -- connection allow, whatever the peer sends.
  pub receive_server_messages-ends :
      (c : Conn cr rand) → (receive_server_messages cr rand c).0 ≢ error out_of_fuel
  unfolding receive_server_messages
  receive_server_messages-ends c =
      ends-Uses _ _ _
        (loop-Uses (suc (length c.incoming)) c (length c.incoming) (omega arith) (omega arith))
