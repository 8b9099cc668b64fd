-- ===== src/Central/Tests/Rerouting.antt =====
-- Rerouting on concrete stores.
use distributed_matchmaking.Base.{
  ℕ, ◌≡◌, refl, arith, List, [], ◌∷◌, Option, some, none, true, Str, bytes, str_eq, map, lookup,
  insert,
}
use distributed_matchmaking.Central.Slices.{IsSlice, cells, cell_at, elements, cut, append_one}
use distributed_matchmaking.Central.ClientStore.{
  ChatInstance, ClientStore, instances, get_all_chat_instances, get_delay_list,
  remove_chat_instances_for_user, has_user, insert_chat_instance,
}
use distributed_matchmaking.Central.Matchmaking.Optimal.{compute_optimal_server}
use distributed_matchmaking.Central.Matchmaking.Rerouting.{analyse, background_tick}
use distributed_matchmaking.Central.Matchmaking.Rerouting.Moves.{Outcomes, analyse_lem}
use distributed_matchmaking.Central.Tests.Optimal.{millis, near, far}

abbrev ann : Str
ann = bytes "ann"

abbrev bob : Str
bob = bytes "bob"

abbrev chat : Str → Str → Str → ChatInstance
chat room_id client1 client2 = record {
  chat_server = bytes "s2";
  users = client1 ∷ client2 ∷ [];
  room_id = room_id;
  active = true;
}

-- Three rooms on the server s2, all of whose clients are best off on s1.
abbrev rooms : ClientStore ℕ
rooms = record {
  client_data = [];
  delay_lists =
      (ann, near)
      ∷ (bob, far)
      ∷ (bytes "cyd", near)
      ∷ (bytes "dan", far)
      ∷ (bytes "eve", near)
      ∷ (bytes "fay", far)
      ∷ [];
  chat_instances = record { arr = 0; len = 3 };
  heap =
      (chat (bytes "r1") ann bob
        ∷ chat (bytes "r2") (bytes "cyd") (bytes "dan")
        ∷ chat (bytes "r3") (bytes "eve") (bytes "fay")
        ∷ [])
      ∷ [];
}

rooms-IsSlice : IsSlice rooms.heap rooms.chat_instances
unfolding cells
rooms-IsSlice = record { allocated = omega arith; within = omega arith }

analyse_lem_example :
    (after : ClientStore ℕ × List (Str × Str)) × (analyse millis
        (λ n. n)
        (λ n. 0)
        (λ address. true)
        rooms
        (chat (bytes "r1") ann bob)
        (ann ∷ bob ∷ [])
      ≡ some after)
    × Outcomes millis
        (λ n. n)
        (λ n. 0)
        (λ address. true)
        rooms
        (chat (bytes "r1") ann bob)
        ann
        bob
        after
analyse_lem_example =
    analyse_lem millis (λ n. n) (λ n. 0) (λ address. true) rooms rooms-IsSlice (λ n h. omega arith)
      (chat (bytes "r1") ann bob) ann bob []

-- The room behind the first that moves is passed over until the next tick.
abbrev servers_after : Option (ClientStore ℕ × List (Str × Str)) → List (Str × Str)
servers_after none = []
servers_after (some (s, sent)) =
    map (λ (c : ChatInstance). (c.room_id, c.chat_server)) (instances s)

tick_skips_a_room :
    servers_after (background_tick millis (λ n. n) (λ n. 0) (λ address. true) rooms)
    ≡ (bytes "r2", bytes "s2") ∷ (bytes "r1", bytes "s1") ∷ (bytes "r3", bytes "s1") ∷ []
unfolding background_tick get_all_chat_instances cell_at get_delay_list lookup str_eq
    compute_optimal_server insert remove_chat_instances_for_user elements has_user cut
    insert_chat_instance append_one
tick_skips_a_room = refl
