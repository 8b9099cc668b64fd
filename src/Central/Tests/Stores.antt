-- ===== src/Central/Tests/Stores.antt =====
-- The two stores of Central, at concrete states.
use distributed_matchmaking.Base.{
  ℕ, ◌≡◌, ◌≢◌, ◌⊎◌, ◌↔◌, refl, [], ◌∷◌, ◌++◌, some, none, true, arith, if◌then◌else◌, Str, bytes,
  str_eq, lookup, member, Distinct, ok, err,
}
use distributed_matchmaking.Central.Slices.{cells, elements, cell_at, cut, IsSlice}
use distributed_matchmaking.Central.ClientStore.{
  ChatInstance, ClientStore, username_taken, ip_of, has_user, create, read, read_by_username,
  instances, insert_chat_instance, remove_chat_instance, remove_chat_instances_for_user,
  remove_chat_instances_for_server,
}
use distributed_matchmaking.Central.ClientStore.Registry.{
  IsRegistry, create_lem, create-IsRegistry, read_by_username_iff,
}
use distributed_matchmaking.Central.ClientStore.Instances.{
  Shows, find, remove_first, insert_chat_instance_lem, remove_chat_instance_lem,
  remove_chat_instances_for_user_lem,
}
use distributed_matchmaking.Central.ServiceStore
use distributed_matchmaking.Central.ServiceStore.{ServiceHeartbeat, ServiceStore, heartbeat_window}
use distributed_matchmaking.Central.ServiceStore.Liveness.{member-read, delete_service_up}

abbrev ann : Str
ann = bytes "ann"

abbrev bob : Str
bob = bytes "bob"

abbrev ip1 : Str
ip1 = bytes "10.0.0.1"

abbrev ip2 : Str
ip2 = bytes "10.0.0.2"

abbrev empty : ClientStore ℕ
empty = record {
  client_data = [];
  delay_lists = [];
  chat_instances = record { arr = 0; len = 0 };
  heap = [] ∷ [];
}

abbrev one : ClientStore ℕ
one = record empty { client_data = (ip1, ann) ∷ [] }

one-IsRegistry : IsRegistry one.client_data
unfolding lookup str_eq
one-IsRegistry = record { distinct = (refl, tt); unique = λ i j u p q. ground arith }

create_lem_example :
    ((owner : Str) × (read one owner ≡ ok ann)
      × (create one ip2 ann ≡ (one, err (username_taken ann owner))))
    ⊎ (((owner : Str) → read one owner ≢ ok ann)
        × ((create one ip2 ann).1 ≡ ok tt)
        × ((other : Str)
            → read (create one ip2 ann).0 other
              ≡ (if str_eq ip2 other then ok ann else read one other)))
create_lem_example = create_lem one ip2 ann one-IsRegistry

create-IsRegistry_example : IsRegistry (create one ip2 bob).0.client_data
create-IsRegistry_example = create-IsRegistry one ip2 bob one-IsRegistry

read_by_username_iff_example : (read_by_username one ann ≡ ok ip1) ↔ (read one ip1 ≡ ok ann)
read_by_username_iff_example = read_by_username_iff one ip1 ann one-IsRegistry

-- Registering again from the same IP replaces the username without an error.
re_register : (create one ip1 bob).1 ≡ ok tt
unfolding create ip_of str_eq
re_register = refl

abbrev chat_1 : ChatInstance
chat_1 = record {
  chat_server = bytes "s1";
  users = ann ∷ bob ∷ [];
  room_id = bytes "r1";
  active = true;
}

abbrev chat_2 : ChatInstance
chat_2 = record {
  chat_server = bytes "s1";
  users = ann ∷ ip1 ∷ [];
  room_id = bytes "r2";
  active = true;
}

abbrev two_chats : ClientStore ℕ
two_chats = record one {
  chat_instances = record { arr = 0; len = 2 };
  heap = (chat_1 ∷ chat_2 ∷ []) ∷ [];
}

two_chats-IsSlice : IsSlice two_chats.heap two_chats.chat_instances
unfolding cells
two_chats-IsSlice = record { allocated = omega arith; within = omega arith }

insert_chat_instance_lem_example :
    Shows two_chats
      (insert_chat_instance (λ n. n) two_chats (bytes "r3") (bytes "s2") (ann ∷ bob ∷ [])).0
      (instances two_chats ++ record chat_1 { chat_server = bytes "s2"; room_id = bytes "r3" } ∷ [])
    × ((insert_chat_instance (λ n. n) two_chats (bytes "r3") (bytes "s2") (ann ∷ bob ∷ [])).1
        ≡ ok (bytes "r3"))
insert_chat_instance_lem_example =
    insert_chat_instance_lem two_chats two_chats-IsSlice (λ n. n) (bytes "r3") (bytes "s2")
      (ann ∷ bob ∷ [])

remove_chat_instance_lem_example :
    (s' : ClientStore ℕ) × (remove_chat_instance two_chats (bytes "r2")
      ≡ some (s', ok (bytes "r2")))
    × Shows two_chats s' (chat_1 ∷ [])
unfolding find remove_first elements cells str_eq
remove_chat_instance_lem_example = remove_chat_instance_lem two_chats two_chats-IsSlice (bytes "r2")

remove_chat_instances_for_user_lem_example :
    (s' : ClientStore ℕ) × (remove_chat_instances_for_user two_chats ann
      ≡ some (s', ok (bytes "r1")))
    × Shows two_chats s' (chat_2 ∷ [])
unfolding find remove_first elements cells str_eq has_user
remove_chat_instances_for_user_lem_example =
    remove_chat_instances_for_user_lem two_chats two_chats-IsSlice ann

-- Two instances on the server: the loop cuts the first, then runs past the shortened slice.
remove_for_server_panics : remove_chat_instances_for_server two_chats (bytes "s1") ≡ none
unfolding remove_chat_instances_for_server cell_at cut str_eq
remove_for_server_panics = refl

abbrev up : ServiceStore
up = (ip1, record { last_heartbeat = 5 }) ∷ []

up-Distinct : Distinct up
unfolding lookup
up-Distinct = (refl, tt)

member-read_example : member ip1 (ServiceStore.read up 7) ≡ true
unfolding lookup str_eq
member-read_example = member-read up 7 ip1 up-Distinct

delete_service_up_example :
    member ip1 (ServiceStore.read (ServiceStore.delete_service up 9 ip1).0 20) ≡ true
unfolding ServiceStore.delete_service ServiceStore.has_key str_eq
delete_service_up_example = delete_service_up up 9 20 ip1 up-Distinct refl (omega arith)
