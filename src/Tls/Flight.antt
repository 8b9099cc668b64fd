-- ===== src/Tls/Flight.antt =====
-- The messages that the server answers a ClientHello with, and the client's loop over them.
use distributed_matchmaking.Base.{
  ℕ, suc, ◌-◌, ◌≤◌, ◌<◌, ◌%◌, ◌≡◌, refl, ap, ◌∙◌, List, [], ◌∷◌, ◌++◌, some, true, false, Bool,
  arith, length, length-append, take-whole,
}
use distributed_matchmaking.Base.Actions.{Outcome, value, bind-value}
use distributed_matchmaking.Tls.Bytes.{put_uint16}
use distributed_matchmaking.Tls.ClientFsm.{
  server_message, receive_server_loop, receive_server_messages,
}
use distributed_matchmaking.Tls.ServerFsm.{
  send_server_hello, send_server_certificate, send_certificate_request, send_server_hello_done,
  send_server_messages,
}
use distributed_matchmaking.Tls.Connection.{
  TlsError, Conn, handshake, server_hello, certificate_type, certificate_request, server_hello_done,
  record_bytes, rand_read, read_tls_content,
}
use distributed_matchmaking.Tls.Connection.Records.{read_record}
use distributed_matchmaking.Tls.Crypto.{Crypto}
use distributed_matchmaking.Tls.Handshake.{
  append_history, with_server_random, with_remote_certificate, send_message,
}
use distributed_matchmaking.Tls.Handshake.Steps.{arrived, sent, send_message_lem}
use distributed_matchmaking.Tls.Messages.{
  handshake_message, hello_body, server_hello_payload, certificate_payload,
  certificate_request_payload, server_hello_done_payload,
}
use mathlib.Core.List.{append_assoc}
use distributed_matchmaking.Tls.Messages.Parsing.{
  hello_random-hello, read_certificate-certificate_payload,
}

regrouped : (o a b c d : List ℕ) → (((o ++ a) ++ b) ++ c) ++ d ≡ o ++ (a ++ (b ++ (c ++ d)))
regrouped o a b c d = simp append_assoc refl

long_record :
    (content_type : ℕ) (payload rest : List ℕ)
    → 3 ≤ length (record_bytes content_type payload ++ rest)
unfolding record_bytes put_uint16
long_record content_type payload rest = omega arith

module _ (cr : Crypto) (rand : ℕ → ℕ → List ℕ) where
  open cr use {Certificate, raw, parse_certificate}

  abbrev loop_on : ℕ → Bool → Conn cr rand → Outcome TlsError (Unit {0}) × Conn cr rand
  loop_on fuel true c = (value tt, c)
  loop_on fuel false c = receive_server_loop cr rand fuel c

  -- One round of the client's loop.
  round_lem :
      (fuel : ℕ) (c c' : Conn cr rand) (t : ℕ) (more rest : List ℕ) (done : Bool)
      → c.incoming ≡ record_bytes handshake (t ∷ more) ++ rest
      → length (t ∷ more) < 65536
      → server_message cr rand t (t ∷ more) (append_history (t ∷ more) (arrived rest c))
        ≡ (value done, c')
      → receive_server_loop cr rand (suc fuel) c ≡ loop_on fuel done c'
  unfolding receive_server_loop
  round_lem fuel c c' t more rest true h small step =
      bind-value read_tls_content _ (read_record c handshake (t ∷ more) rest h small)
      ∙ bind-value (server_message cr rand t (t ∷ more)) _ step
  round_lem fuel c c' t more rest false h small step =
      bind-value read_tls_content _ (read_record c handshake (t ∷ more) rest h small)
      ∙ bind-value (server_message cr rand t (t ∷ more)) _ step

  -- What the server sends, with its random bytes and its certificate.
  abbrev pub flight : List ℕ → List ℕ → List ℕ
  flight random cert =
      record_bytes handshake (server_hello_payload random)
      ++ (record_bytes handshake (certificate_payload cert)
          ++ (record_bytes handshake certificate_request_payload
              ++ record_bytes handshake server_hello_done_payload))

  hello_message :
      (random : List ℕ) (c : Conn cr rand)
      → length random ≡ 32
      → server_message cr rand server_hello (server_hello_payload random) c
        ≡ (value false, with_server_random random c)
  unfolding server_message server_hello_payload
  hello_message random c size = rw (hello_random-hello server_hello random size) refl

  cert_message :
      (cert : Certificate) (c : Conn cr rand)
      → length (raw cert) < 65000
      → parse_certificate (raw cert) ≡ some cert
      → server_message cr rand certificate_type (certificate_payload (raw cert)) c
        ≡ (value false, with_remote_certificate cert c)
  unfolding server_message
  cert_message cert c small parses =
      let n : length (raw cert) % 65536 ≡ length (raw cert) = omega arith in
      rw
        (
          read_certificate-certificate_payload parse_certificate (raw cert),
          n,
          take-whole (raw cert) (length (raw cert)) (omega arith),
          parses,
        )
        refl

  abbrev pub noted : List ℕ → List ℕ → Conn cr rand → Conn cr rand
  noted message rest c = append_history message (arrived rest c)

  -- The client after the server's messages.
  abbrev pub informed : List ℕ → Certificate → List ℕ → Conn cr rand → Conn cr rand
  informed random cert rest c = record c {
    incoming = rest;
    msg_history =
        (((c.msg_history ++ server_hello_payload random) ++ certificate_payload (raw cert))
          ++ certificate_request_payload)
        ++ server_hello_done_payload;
    sec_param = record (c.sec_param) { server_random = random; remote_certificate = some cert };
  }

  hello_round :
      (fuel : ℕ) (c : Conn cr rand) (random rest : List ℕ)
      → length random ≡ 32
      → c.incoming ≡ record_bytes handshake (server_hello_payload random) ++ rest
      → receive_server_loop cr rand (suc fuel) c
        ≡ receive_server_loop cr rand fuel
            (with_server_random random (noted (server_hello_payload random) rest c))
  unfolding server_hello_payload handshake_message put_uint16
  hello_round fuel c random rest size h =
      let tail : List ℕ = 0x00 ∷ 0x00 ∷ 0x02 ∷ 0x00 ∷ 0x2F ∷ 0x01 ∷ 0x00 ∷ [] in
      let body : length (hello_body random) ≡ 41 =
        unfold hello_body in omega (arith, length-append random tail) in
      round_lem fuel c _ server_hello _ rest false h (omega (arith, body))
        (hello_message random (noted (server_hello_payload random) rest c) size)

  cert_round :
      (fuel : ℕ) (c : Conn cr rand) (cert : Certificate) (rest : List ℕ)
      → length (raw cert) < 65000
      → parse_certificate (raw cert) ≡ some cert
      → c.incoming ≡ record_bytes handshake (certificate_payload (raw cert)) ++ rest
      → receive_server_loop cr rand (suc fuel) c
        ≡ receive_server_loop cr rand fuel
            (with_remote_certificate cert (noted (certificate_payload (raw cert)) rest c))
  unfolding certificate_payload handshake_message put_uint16
  cert_round fuel c cert rest small parses h =
      round_lem fuel c _ certificate_type _ rest false h (omega arith)
        (cert_message cert (noted (certificate_payload (raw cert)) rest c) small parses)

  request_round :
      (fuel : ℕ) (c : Conn cr rand) (rest : List ℕ)
      → c.incoming ≡ record_bytes handshake certificate_request_payload ++ rest
      → receive_server_loop cr rand (suc fuel) c
        ≡ receive_server_loop cr rand fuel (noted certificate_request_payload rest c)
  unfolding certificate_request_payload server_message
  request_round fuel c rest h =
      round_lem fuel c _ certificate_request _ rest false h (omega arith) refl

  done_round :
      (fuel : ℕ) (c : Conn cr rand) (rest : List ℕ)
      → c.incoming ≡ record_bytes handshake server_hello_done_payload ++ rest
      → receive_server_loop cr rand (suc fuel) c
        ≡ (value tt, noted server_hello_done_payload rest c)
  unfolding server_hello_done_payload server_message
  done_round fuel c rest h = round_lem fuel c _ server_hello_done _ rest true h (omega arith) refl

  pub receive_flight :
      (c : Conn cr rand) (random rest : List ℕ) (cert : Certificate)
      → length random ≡ 32
      → length (raw cert) < 65000
      → parse_certificate (raw cert) ≡ some cert
      → c.incoming ≡ flight random (raw cert) ++ rest
      → receive_server_messages cr rand c ≡ (value tt, informed random cert rest c)
  unfolding receive_server_messages
  receive_flight c random rest cert size small parses h =
      let r1 = record_bytes handshake (server_hello_payload random) in
      let r2 = record_bytes handshake (certificate_payload (raw cert)) in
      let r3 = record_bytes handshake certificate_request_payload in
      let r4 = record_bytes handshake server_hello_done_payload in
      let h1 : c.incoming ≡ r1 ++ (r2 ++ (r3 ++ (r4 ++ rest))) = h ∙ simp append_assoc refl in
      let n = length c.incoming - 3 in
      let fuel : suc (length c.incoming) ≡ suc (suc (suc (suc n))) = omega (
        arith,
        ap length h1,
        long_record handshake (server_hello_payload random) (r2 ++ (r3 ++ (r4 ++ rest))),
      ) in
      rw fuel (
        hello_round (suc (suc (suc n))) c random (r2 ++ (r3 ++ (r4 ++ rest))) size h1
        ∙ cert_round (suc (suc n)) _ cert (r3 ++ (r4 ++ rest)) small parses refl
        ∙ request_round (suc n) _ (r4 ++ rest) refl
        ∙ done_round n _ rest refl)

  -- The server after its messages.
  abbrev pub answered : Conn cr rand → Conn cr rand
  answered d =
      let random = rand d.draws 32 in
      let cert = raw d.certificate in
      record d {
        draws = suc d.draws;
        outgoing = d.outgoing ++ flight random cert;
        msg_history =
            (((d.msg_history ++ server_hello_payload random) ++ certificate_payload cert)
              ++ certificate_request_payload)
            ++ server_hello_done_payload;
        sec_param = record (d.sec_param) { server_random = random };
      }

  pub send_flight :
      (d : Conn cr rand)
      → d.writable ≡ true
      → send_server_messages cr rand d ≡ (value tt, answered d)
  unfolding send_server_messages send_server_hello send_server_certificate send_certificate_request
      send_server_hello_done rand_read
  send_flight d w =
      let random = rand d.draws 32 in
      let d1 = with_server_random random (record d { draws = suc d.draws }) in
      let m1 = server_hello_payload random in
      let m2 = certificate_payload (raw d.certificate) in
      let m3 = certificate_request_payload in
      let m4 = server_hello_done_payload in
      bind-value (send_message m1) _ (send_message_lem d1 m1 w)
      ∙ bind-value (send_message m2) _ (send_message_lem (sent m1 d1) m2 w)
      ∙ bind-value (send_message m3) _ (send_message_lem (sent m2 (sent m1 d1)) m3 w)
      ∙ send_message_lem (sent m3 (sent m2 (sent m1 d1))) m4 w
      ∙ ap (λ text. (value tt, record (answered d) { outgoing = text }))
          (regrouped d.outgoing (record_bytes handshake m1) (record_bytes handshake m2)
            (record_bytes handshake m3) (record_bytes handshake m4))
