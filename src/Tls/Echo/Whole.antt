-- ===== src/Tls/Echo/Whole.antt =====
-- The two programs of TLS/client.go and TLS/server.go, from the handshake to the end.
use distributed_matchmaking.Base.{
  ℕ, suc, ◌≡◌, refl, sym, ap, ◌∙◌, List, [], ◌++◌, arith, All, Str, map, length,
}
use distributed_matchmaking.Tls.Agreement.{
  Lawful, Prepared, from_client, from_server, client_cipher, server_cipher, client7, server7,
}
use distributed_matchmaking.Tls.Agreement.Ciphers.{client_cipher_size, server_cipher_size}
use distributed_matchmaking.Tls.Agreement.Runs.{client_run, server_run}
use distributed_matchmaking.Tls.Connection.{Conn, read_failed}
use distributed_matchmaking.Tls.Crypto.{Crypto}
use distributed_matchmaking.Tls.Echo.{
  exited, stopped, client_talk, server_talk, client_loop, server_loop, on_handshake,
}
use distributed_matchmaking.Tls.Echo.Buffers.{padded, Sendable, typed}
use distributed_matchmaking.Tls.Echo.Rounds.{
  sealed_records, client_loop_lem, server_loop_lem, outgoing-spoken, length-sealed_records,
}
use mathlib.Core.List.{append_assoc, append-nil}

regrouped_client :
    (o a b c d e f rest : List ℕ)
    → ((((((o ++ a) ++ b) ++ c) ++ d) ++ e) ++ f) ++ rest
      ≡ o ++ (a ++ (b ++ (c ++ (d ++ (e ++ (f ++ rest))))))
regrouped_client o a b c d e f rest = simp append_assoc refl

regrouped_server :
    (o a b c rest : List ℕ) → (((o ++ a) ++ b) ++ c) ++ rest ≡ o ++ (a ++ (b ++ (c ++ rest)))
regrouped_server o a b c rest = simp append_assoc refl

module _ (cr : Crypto) (rand : ℕ → ℕ → List ℕ) (c d : Conn cr rand) (laws : Lawful cr rand)
    (p : Prepared cr rand c d) (messages : List Str) where
  -- The records that the client sends after the handshake, and those of the server.
  abbrev pub requests : List ℕ
  requests =
      sealed_records cr rand (client7 cr rand c d laws p []).draws
        (client_cipher cr rand c d laws p) messages

  abbrev pub replies : List ℕ
  replies =
      sealed_records cr rand (server7 cr rand c d laws p []).draws
        (server_cipher cr rand c d laws p) (map padded messages)

  module _ (are : All Sendable messages) (hc : c.incoming ≡ from_server cr rand c d laws p replies)
      (hd : d.incoming ≡ from_client cr rand c d laws p requests) where
    client_side :
        (c' : Conn cr rand) × (client_talk cr rand (typed messages) c
          ≡ (map padded messages, exited, c'))
        × (c'.outgoing ≡ c.outgoing ++ from_client cr rand c d laws p requests)
    unfolding client_talk
    client_side = (
      _,
      ap (on_handshake cr rand (client_loop cr rand (typed messages)))
            (client_run cr rand c d laws p replies requests hc hd)
          ∙ client_loop_lem cr rand (client_cipher cr rand c d laws p)
              (server_cipher cr rand c d laws p)
              (laws.block_cipher (server_cipher cr rand c d laws p)
                (server_cipher_size cr rand c d laws p))
              laws.rand_works laws.fresh
              (record (client7 cr rand c d laws p []) { incoming = replies }) _ messages []
              p.client_writes refl refl are (sym (append-nil replies)),
      outgoing-spoken cr rand _ messages [] _ ∙ regrouped_client c.outgoing _ _ _ _ _ _ requests,
    )

    server_side :
        (d' : Conn cr rand) × (server_talk cr rand d
          ≡ (map padded messages, stopped read_failed, d'))
        × (d'.outgoing ≡ d.outgoing ++ from_server cr rand c d laws p replies)
    unfolding server_talk
    server_side = (
      _,
      ap (on_handshake cr rand (λ e. server_loop cr rand (suc (length e.incoming)) e))
            (server_run cr rand c d laws p replies requests hc hd)
          ∙ server_loop_lem cr rand (server_cipher cr rand c d laws p)
              (client_cipher cr rand c d laws p)
              (laws.block_cipher (client_cipher cr rand c d laws p)
                (client_cipher_size cr rand c d laws p))
              laws.rand_works laws.fresh (suc (length requests))
              (server7 cr rand c d laws p requests) _ messages
              (omega (arith, length-sealed_records cr rand _ _ messages)) p.server_writes refl refl
              are refl,
      outgoing-spoken cr rand _ (map padded messages) [] _
          ∙ regrouped_server d.outgoing _ _ _ replies,
    )

  -- Under the conditions on the two ends and on the crypto library under which a handshake
  -- succeeds, and if what each reads is what the other sends, then for messages of bytes below
  -- 65,000 bytes, none of them exit, typed line by line and followed by exit, the client completes
  -- the handshake, sends the messages, and exits; the server completes it too, and stops when there
  -- is nothing left to read. Both print each message in 1024 bytes, cut off there or filled up with
  -- zeros, in order; and each has sent its part of the handshake and one record for each message,
  -- and nothing else.
  pub client_talk-server_talk :
      All Sendable messages
      → c.incoming ≡ from_server cr rand c d laws p replies
      → d.incoming ≡ from_client cr rand c d laws p requests
      → (c' d' : Conn cr rand) × (client_talk cr rand (typed messages) c
          ≡ (map padded messages, exited, c'))
        × (server_talk cr rand d ≡ (map padded messages, stopped read_failed, d'))
        × (c'.outgoing ≡ c.outgoing ++ from_client cr rand c d laws p requests)
        × (d'.outgoing ≡ d.outgoing ++ from_server cr rand c d laws p replies)
  client_talk-server_talk are hc hd =
      let (c', ran, wrote) = client_side are hc hd in
      let (d', ran', wrote') = server_side are hc hd in (c', d', ran, ran', wrote, wrote')
