-- ===== src/Tls/Echo/Rounds.antt =====
-- The rounds of both programs on records that the other has sealed.
use distributed_matchmaking.Base.{
  ℕ, zero, suc, ◌≤◌, ◌<◌, ◌≡◌, refl, sym, ap, ◌∙◌, List, [], ◌∷◌, ◌++◌, some, true, false, arith,
  All, Str, bytes, str_eq, map, length, length-append,
}
use distributed_matchmaking.Base.Actions.{value, error, bind-value, bind-error, ◌>>◌, pure}
use distributed_matchmaking.Tls.Cipher.RoundTrip.{AreBytes, IsBlockCipher}
use distributed_matchmaking.Tls.Connection.{
  TlsConnection, Conn, read, write, read_full, read_tls_content, read_failed, record_bytes,
}
use distributed_matchmaking.Tls.Connection.Records.{sealed_record, write-sealed, read-sealed}
use distributed_matchmaking.Tls.Crypto.{Crypto}
use distributed_matchmaking.Tls.Echo.Buffers.{
  padded, length-padded, take-padded, padded-padded, padded-AreBytes, without_last_lem, Sendable,
  typed,
}
use distributed_matchmaking.Tls.Echo.{
  fresh_buffer, without_last, exited, stopped, client_round, client_loop, server_round, server_loop,
  show, on_round,
}
use mathlib.Core.List.{append_assoc, append-nil}

nothing_left :
    {C K : Type 0} (d : TlsConnection C K)
    → d.incoming ≡ []
    → read_full 5 d ≡ (error read_failed, record d { incoming = [] })
unfolding read_full
nothing_left d h = rw h refl

module _ (cr : Crypto) (rand : ℕ → ℕ → List ℕ) where
  open cr use {rand_succeeds, aes_encrypt, aes_decrypt}

  -- The records of messages under one key, from a draw of the random bytes on.
  unfoldable pub sealed_records : ℕ → List ℕ → List Str → List ℕ
  sealed_records draws key [] = []
  sealed_records draws key (message ∷ messages) =
      sealed_record cr rand draws key message ++ sealed_records (suc draws) key messages

  -- The connection when its end has sent messages and has read up to `rest`.
  unfoldable pub spoken : List ℕ → List Str → List ℕ → Conn cr rand → Conn cr rand
  spoken key [] rest c = record c { incoming = rest }
  spoken key (message ∷ messages) rest c = spoken key messages rest (record c {
    outgoing = c.outgoing ++ sealed_record cr rand c.draws key message;
    draws = suc c.draws;
  })

  spoken-incoming :
      (key : List ℕ) (messages : List Str) (rest other : List ℕ) (c : Conn cr rand)
      → spoken key messages rest (record c { incoming = other }) ≡ spoken key messages rest c
  unfolding spoken
  spoken-incoming key [] rest other c = refl
  spoken-incoming key (message ∷ messages) rest other c =
      spoken-incoming key messages rest other (record c {
        outgoing = c.outgoing ++ sealed_record cr rand c.draws key message;
        draws = suc c.draws;
      })

  client_line :
      (line message : Str) (lines : List Str) (c : Conn cr rand)
      → without_last line ≡ some message
      → str_eq message (bytes "exit") ≡ false
      → client_loop cr rand (line ∷ lines) c
        ≡ on_round cr rand (client_loop cr rand lines) (client_round cr rand message c)
  unfolding client_loop
  client_line line message lines c e goes_on = rw (e, client_loop, goes_on) refl

  exit_line :
      (line : Str) (lines : List Str) (c : Conn cr rand)
      → without_last line ≡ some (bytes "exit")
      → client_loop cr rand (line ∷ lines) c ≡ ([], exited, c)
  unfolding client_loop str_eq
  exit_line line lines c e = rw (e, client_loop) refl

  end_of_input :
      (d : Conn cr rand)
      → d.incoming ≡ []
      → server_round cr rand d ≡ (error read_failed, record d { incoming = [] })
  unfolding server_round read read_tls_content
  end_of_input d h =
      bind-error (read cr rand fresh_buffer) _
        (bind-error read_tls_content _ (bind-error (read_full 5) _ (nothing_left d h)))

  pub outgoing-spoken :
      (key : List ℕ) (messages : List Str) (rest : List ℕ) (c : Conn cr rand)
      → (spoken key messages rest c).outgoing ≡ c.outgoing ++ sealed_records c.draws key messages
  unfolding spoken sealed_records
  outgoing-spoken key [] rest c = sym (append-nil c.outgoing)
  outgoing-spoken key (message ∷ messages) rest c =
      outgoing-spoken key messages rest (record c {
        outgoing = c.outgoing ++ sealed_record cr rand c.draws key message;
        draws = suc c.draws;
      })
      ∙ append_assoc c.outgoing _ _

  pub length-sealed_records :
      (draws : ℕ) (key : List ℕ) (messages : List Str)
      → length messages ≤ length (sealed_records draws key messages)
  unfolding sealed_records record_bytes
  length-sealed_records draws key [] = omega arith
  length-sealed_records draws key (message ∷ messages) = omega (
    arith,
    length-append (sealed_record cr rand draws key message)
        (sealed_records (suc draws) key messages),
    length-sealed_records (suc draws) key messages,
  )

  module _ (sending receiving : List ℕ)
      (law : IsBlockCipher (aes_encrypt receiving) (aes_decrypt receiving))
      (works : (i : ℕ) → rand_succeeds i ≡ true)
      (good : (i n : ℕ) → (length (rand i n) ≡ n) × AreBytes (rand i n)) where
    client_round_lem :
        (c : Conn cr rand) (draws : ℕ) (message rest : List ℕ)
        → c.writable ≡ true
        → c.mat_block.encrypt_cipher ≡ some sending
        → c.mat_block.decrypt_cipher ≡ some receiving
        → AreBytes message
        → c.incoming ≡ sealed_record cr rand draws receiving (padded message) ++ rest
        → client_round cr rand message c ≡ (
          value (padded message),
          record c {
            incoming = rest;
            outgoing = c.outgoing ++ sealed_record cr rand c.draws sending message;
            draws = suc c.draws;
          },
        )
    unfolding client_round padded
    client_round_lem c draws message rest w ce cd are h =
        bind-value (write cr rand message) _
          (write-sealed cr rand c sending message w ce (works c.draws))
        ∙ bind-value (read cr rand fresh_buffer) _ (
            read-sealed cr rand _ draws receiving (padded message) fresh_buffer rest law good cd
              (padded-AreBytes message are) (omega (arith, length-padded message)) h)
        ∙ ap
            (λ received. (
              value received,
              record c {
                incoming = rest;
                outgoing = c.outgoing ++ sealed_record cr rand c.draws sending message;
                draws = suc c.draws;
              },
            ))
            (take-padded (padded message) ∙ padded-padded message)

    server_round_lem :
        (d : Conn cr rand) (draws : ℕ) (message rest : List ℕ)
        → d.writable ≡ true
        → d.mat_block.encrypt_cipher ≡ some sending
        → d.mat_block.decrypt_cipher ≡ some receiving
        → AreBytes message
        → length message < 65000
        → d.incoming ≡ sealed_record cr rand draws receiving message ++ rest
        → server_round cr rand d ≡ (
          value (padded message),
          record d {
            incoming = rest;
            outgoing = d.outgoing ++ sealed_record cr rand d.draws sending (padded message);
            draws = suc d.draws;
          },
        )
    unfolding server_round padded
    server_round_lem d draws message rest w ce cd are small h =
        bind-value (read cr rand fresh_buffer) _
          (read-sealed cr rand d draws receiving message fresh_buffer rest law good cd are small h)
        ∙ ap (λ received. (write cr rand received >> pure received) (record d { incoming = rest }))
            (take-padded message)
        ∙ bind-value (write cr rand (padded message)) _ (
            write-sealed cr rand (record d { incoming = rest }) sending (padded message) w ce
              (works d.draws))

    pub client_loop_lem :
        (c : Conn cr rand) (draws : ℕ) (messages : List Str) (rest : List ℕ)
        → c.writable ≡ true
        → c.mat_block.encrypt_cipher ≡ some sending
        → c.mat_block.decrypt_cipher ≡ some receiving
        → All Sendable messages
        → c.incoming ≡ sealed_records draws receiving (map padded messages) ++ rest
        → client_loop cr rand (typed messages) c
          ≡ (map padded messages, exited, spoken sending messages rest c)
    unfolding client_loop typed sealed_records spoken
    client_loop_lem c draws [] rest w ce cd are h =
        exit_line (bytes "exit" ++ 0x0A ∷ []) [] c (without_last_lem (bytes "exit"))
        ∙ ap (λ left. ([], exited, record c { incoming = left })) h
    client_loop_lem c draws (message ∷ messages) rest w ce cd ((are, small, goes_on), more) h =
        let next = record c {
          incoming = sealed_records (suc draws) receiving (map padded messages) ++ rest;
          outgoing = c.outgoing ++ sealed_record cr rand c.draws sending message;
          draws = suc c.draws;
        } in
        let round =
          client_round_lem c draws message
            (sealed_records (suc draws) receiving (map padded messages) ++ rest) w ce cd are
            (h ∙ append_assoc (sealed_record cr rand draws receiving (padded message)) _ rest) in
        let rest_of_it = client_loop_lem next (suc draws) messages rest w ce cd more refl in
        client_line (message ++ 0x0A ∷ []) message (typed messages) c (without_last_lem message)
          goes_on
        ∙ ap (on_round cr rand (client_loop cr rand (typed messages))) round
        ∙ ap (show cr rand (padded message)) (
            rest_of_it
            ∙ ap (λ c'. (map padded messages, exited, c'))
                (spoken-incoming sending messages rest _ _))

    pub server_loop_lem :
        (fuel : ℕ) (d : Conn cr rand) (draws : ℕ) (messages : List Str)
        → length messages < fuel
        → d.writable ≡ true
        → d.mat_block.encrypt_cipher ≡ some sending
        → d.mat_block.decrypt_cipher ≡ some receiving
        → All Sendable messages
        → d.incoming ≡ sealed_records draws receiving messages
        → server_loop cr rand fuel d
          ≡ (map padded messages, stopped read_failed, spoken sending (map padded messages) [] d)
    unfolding server_loop sealed_records spoken
    server_loop_lem zero d draws messages enough w ce cd are h = elim enough [ ]
    server_loop_lem (suc fuel) d draws [] enough w ce cd are h =
        ap (on_round cr rand (server_loop cr rand fuel)) (end_of_input d h)
    server_loop_lem (suc fuel) d draws (message ∷ messages) enough w ce cd ((are, small, _), more)
          h =
        let next = record d {
          incoming = sealed_records (suc draws) receiving messages;
          outgoing = d.outgoing ++ sealed_record cr rand d.draws sending (padded message);
          draws = suc d.draws;
        } in
        ap (on_round cr rand (server_loop cr rand fuel)) (
          server_round_lem d draws message (sealed_records (suc draws) receiving messages) w ce cd
            are small h)
        ∙ ap (show cr rand (padded message)) (
            server_loop_lem fuel next (suc draws) messages (omega arith) w ce cd more refl
            ∙ ap (λ d'. (map padded messages, stopped read_failed, d'))
                (spoken-incoming sending (map padded messages) [] _ _))
