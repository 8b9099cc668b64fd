-- ===== src/Server/Chat/Rooms.antt =====
-- The members of a room, and what the messages to it write (Server/internal/chat/chat.go).
use distributed_matchmaking.Base.{
  ℕ, ◌≡◌, refl, sym, ap, ◌∙◌, List, [], ◌∷◌, ◌++◌, Str, str_eq, str_eq_iff, lookup, lookup-insert,
  map, Option-cases, inl, inr, if◌then◌else◌, arith,
}
use distributed_matchmaking.Server.Chat.{
  ChatManager, new_chat_manager, conns, join_room, chat_line, broadcast_message, Operation, join,
  broadcast, perform, run,
}
use mathlib.Core.List.{append_assoc, append-nil}

-- The connections that joined a room, in order of their joining.
unfoldable pub members : Str → List Operation → List ℕ
members room_id [] = []
members room_id (join conn room ∷ ops) =
    let rest = members room_id ops in if str_eq room room_id then conn ∷ rest else rest
members room_id (broadcast username room message ∷ ops) = members room_id ops

-- What each message should write, when `before` has been done.
unfoldable pub deliveries : List Operation → List Operation → List (ℕ × Str)
unfolding members
deliveries before [] = []
deliveries before (join conn room ∷ ops) = deliveries (before ++ join conn room ∷ []) ops
deliveries before (broadcast username room message ∷ ops) =
    map (λ c. (c, chat_line username message)) (members room before) ++ deliveries before ops

-- The map holds the members of each room.
Shows : List Operation → ChatManager → Type 0
Shows before cm = (room : Str) → conns (lookup room cm.clients) ≡ members room before

members-append :
    (room : Str) (before ops : List Operation)
    → members room (before ++ ops) ≡ members room before ++ members room ops
unfolding members
members-append room [] ops = refl
members-append room (join conn r ∷ before) ops = ground (arith, members-append room before ops)
members-append room (broadcast u r m ∷ before) ops = members-append room before ops

join-Shows :
    (before : List Operation) (cm : ChatManager) (conn : ℕ) (room_id : Str)
    → Shows before cm
    → Shows (before ++ join conn room_id ∷ []) (join_room conn room_id cm)
unfolding join_room members Shows
join-Shows before cm conn room_id h room =
    rw (members-append room before (join conn room_id ∷ []), lookup-insert)
      (ground (arith, str_eq_iff room_id room, h room, append-nil (members room before)))

broadcast_lem :
    (before : List Operation) (cm : ChatManager) (username room_id message : Str)
    → Shows before cm
    → (Shows before (broadcast_message username room_id message cm))
      × ((broadcast_message username room_id message cm).written
          ≡ cm.written ++ map (λ c. (c, chat_line username message)) (members room_id before))
unfolding broadcast_message Shows
broadcast_lem before cm username room_id message h =
    elim (Option-cases (lookup room_id cm.clients)) [
      | inl e ↦
          let nobody : members room_id before ≡ [] = sym (h room_id) ∙ ap conns e in
          rw (e, broadcast_message, nobody) (h, sym (append-nil cm.written))
      | inr (cs, e) ↦
          let present : members room_id before ≡ cs = sym (h room_id) ∙ ap conns e in
          rw (e, broadcast_message, present) (h, refl)
    ]

run_from :
    (before ops : List Operation) (cm : ChatManager)
    → Shows before cm
    → (run cm ops).written ≡ cm.written ++ deliveries before ops
unfolding run perform deliveries
run_from before [] cm h = sym (append-nil cm.written)
run_from before (join conn room_id ∷ ops) cm h =
    run_from (before ++ join conn room_id ∷ []) ops (join_room conn room_id cm)
      (join-Shows before cm conn room_id h)
    ∙ unfold join_room in refl
run_from before (broadcast username room_id message ∷ ops) cm h =
    let (shows, wrote) = broadcast_lem before cm username room_id message h in
    run_from before ops (broadcast_message username room_id message cm) shows
    ∙ rw wrote (append_assoc cm.written _ (deliveries before ops))

-- In whatever order the goroutines of the clients take the lock, each message is written to the
-- connections that have joined its room before, those alone, once each for each joining and in
-- the order of their joining, the sender's own among them, and nothing else is written.
pub run-deliveries : (ops : List Operation) → (run new_chat_manager ops).written ≡ deliveries [] ops
unfolding new_chat_manager
run-deliveries ops = run_from [] ops new_chat_manager (unfold Shows members lookup in λ room. refl)
