-- ===== src/Central/Tests/Session.antt =====
-- A session with Central on concrete surroundings.
use distributed_matchmaking.Base.{
  ℕ, ◌≡◌, refl, arith, [], ◌∷◌, none, some, true, bytes, Lacks, lookup, str_eq, trim_space,
}
use distributed_matchmaking.Base.Actions.{value, error}
use distributed_matchmaking.Central.ClientStore.{ClientStore, read, read_by_username, ip_of}
use distributed_matchmaking.Central.Matchmaking.Session.{
  Surroundings, World, replies, never, still_waiting, client_ip, handle_connection, open_request,
  before_first, contains, trim_left, trim_right, ask_store, authorize, want, get_requested_username,
  find_peer, write_client, locate, dial_peer,
}
use distributed_matchmaking.Central.Matchmaking.Session.Address.{
  join_host_port, client_ip-join_host_port,
}
use distributed_matchmaking.Central.Matchmaking.Session.Replies.{
  SameBut, replying, handle_connection-SameBut,
}
use distributed_matchmaking.Central.Matchmaking.Session.Unanswered.{
  unanswered, handle_connection-unanswered,
}
use distributed_matchmaking.Client.Runner.Sessions.{Meets, handle_connection-Meets}
use distributed_matchmaking.Central.Tests.Optimal.{millis, near, far}

abbrev couple : ClientStore ℕ
couple = record {
  client_data = (bytes "10.0.0.1", bytes "ann") ∷ (bytes "10.0.0.2", bytes "bob") ∷ [];
  delay_lists = (bytes "ann", near) ∷ (bytes "bob", far) ∷ [];
  chat_instances = record { arr = 0; len = 0 };
  heap = [] ∷ [];
}

-- Ann asks for Bob, who refuses.
abbrev pub refused : Surroundings millis
refused = record {
  remote_addr = bytes "10.0.0.1:40000";
  first_read = some (bytes "bob\n");
  dial = λ address. true;
  request_written = true;
  reply = replies (bytes "NO\n");
  waits = 2;
  current_time = bytes "20240102030405";
  random_bytes = some (171 ∷ 5 ∷ []);
  intn = λ n. 0;
  grow = λ n. n;
  others = λ n s. s;
}

abbrev pub start : World millis
start = record { store = couple; uses = 0; to_client = []; to_peer = [] }

handle_connection-SameBut_example :
    SameBut
      (handle_connection millis (replying (some (bytes "ACCEPT_REQ\n")) refused) start)
      (handle_connection millis (replying none refused) start)
handle_connection-SameBut_example =
    handle_connection-SameBut refused (some (bytes "ACCEPT_REQ\n")) none start

-- Bob never replies.
abbrev silent : Surroundings millis
silent = record refused { reply = never }

abbrev acknowledged : World millis
acknowledged = record start { uses = 2; to_client = bytes "ACK\n" }

silent_opened : open_request millis silent start ≡ (value (bytes "ann", bytes "bob"), acknowledged)
unfolding open_request client_ip before_first contains trim_left trim_right ask_store read
    read_by_username authorize want get_requested_username trim_space find_peer write_client locate
    dial_peer lookup str_eq ip_of
silent_opened = refl

handle_connection-unanswered_example :
    handle_connection millis silent start
    ≡ (error still_waiting, unanswered silent (bytes "ann") acknowledged)
handle_connection-unanswered_example =
    handle_connection-unanswered silent start acknowledged (bytes "ann") (bytes "bob") refl refl
      silent_opened

client_ip-join_host_port_example :
    client_ip (join_host_port (bytes "::1") (bytes "80")) ≡ bytes "::1"
client_ip-join_host_port_example =
    client_ip-join_host_port (bytes "::1") (bytes "80") (unfold Lacks in (refl, (refl, (refl, tt))))
      (unfold Lacks in (refl, (refl, (refl, tt)))) (unfold Lacks in (refl, (refl, tt)))

handle_connection-Meets_example :
    Meets refused (bytes "bob") start (handle_connection millis refused start)
handle_connection-Meets_example =
    handle_connection-Meets refused (bytes "bob") start
      (unfold Lacks in
        (
          refl,
          (
            refl,
            (
              refl,
              (
                refl,
                (refl, (refl, (refl, (refl, (refl, (refl, (refl, (refl, (refl, (refl, tt)))))))))),
              ),
            ),
          ),
        ))
      (λ n h. omega arith)
