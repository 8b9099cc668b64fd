-- ===== src/Central/Tests/History.antt =====
-- Central's history on concrete stores.
use distributed_matchmaking.Base.{ℕ, ◌≡◌, List, [], ◌∷◌, some, true, Str, bytes, arith}
use distributed_matchmaking.Central.ClientStore.{
  ClientStore, get_in_memory_store, insert_chat_instance,
}
use distributed_matchmaking.Central.History.{Reaches, Reaches-trans, still, onward, rooms}
use distributed_matchmaking.Central.History.Pairs.{reached-Remains}
use distributed_matchmaking.Central.Matchmaking.Session.Effect.{Inserts}
use distributed_matchmaking.Central.Matchmaking.Session.Placing.{handle_connection-Inserts}
use distributed_matchmaking.Central.Matchmaking.Rerouting.{background_tick}
use distributed_matchmaking.Central.Matchmaking.Rerouting.Keeping.{IsPairedStore}
use distributed_matchmaking.Central.Matchmaking.Rerouting.Ticks.{Remains}
use distributed_matchmaking.Central.Matchmaking.Session.{handle_connection}
use distributed_matchmaking.Central.Tests.Optimal.{millis}
use distributed_matchmaking.Central.Tests.Session.{refused, start}

-- One room, the first that there is.
abbrev one_room : ClientStore ℕ
one_room =
    (insert_chat_instance (λ n. n) get_in_memory_store (bytes "r1") (bytes "s1")
      (bytes "ann" ∷ bytes "bob" ∷ [])).0

one_room-Reaches : Reaches millis get_in_memory_store one_room
one_room-Reaches =
    onward get_in_memory_store get_in_memory_store one_room (still get_in_memory_store)
      (rooms get_in_memory_store (λ n. n) (bytes "r1") (bytes "s1") (bytes "ann") (bytes "bob"))

reached-Remains_example :
    (after : ClientStore ℕ × List (Str × Str)) × (background_tick millis
        (λ n. n)
        (λ n. 0)
        (λ address. true)
        one_room
      ≡ some after)
    × IsPairedStore one_room
    × Remains one_room after.0
reached-Remains_example =
    reached-Remains millis one_room (λ n. n) (λ n. 0) (λ address. true) (λ n h. omega arith)
      one_room-Reaches

handle_connection-Inserts_example :
    Inserts refused (Reaches millis) start.store (handle_connection millis refused start)
handle_connection-Inserts_example =
    handle_connection-Inserts refused (Reaches millis) still (Reaches-trans millis) (λ n s. still s)
      start
