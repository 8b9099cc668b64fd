-- ===== src/Central/ClientStore.antt =====
-- Central/internal/client/store.go: the registered clients, their delay lists and the chat
-- instances. Each operation is one step, as its lock means it to be; `chatInstances` is a slice
-- over shared cells, since callers keep headers of it. `F` is the type of the delays.
pub mod Registry
pub mod Instances
use distributed_matchmaking.Base.{
  ℕ, zero, suc, ◌-◌, List, [], ◌∷◌, ◌++◌, Option, none, some, Bool, true, false, ◌||◌, ◌==◌,
  if◌then◌else◌, Str, str_eq, Map, lookup, insert, delete, Result, ok, err,
}
use distributed_matchmaking.Central.Slices.{Slice, Heap, elements, cell_at, append_one, cut}

pub record ChatInstance : Type 0 where
  pub chat_server : Str
  pub users : List Str
  pub room_id : Str
  pub active : Bool

-- The zero value that fills the spare cells of a fresh array.
abbrev pub blank_instance : ChatInstance
blank_instance = record { chat_server = []; users = []; room_id = []; active = false }

pub record ClientStore (F : Type 0) : Type 0 where
  pub client_data : Map Str
  pub delay_lists : Map (Map F)
  pub chat_instances : Slice
  pub heap : Heap ChatInstance

pub data StoreError : Type 0 where
  username_taken : Str → Str → StoreError
  ip_not_found username_not_found delays_not_found room_not_found user_not_found : Str → StoreError

-- The first index at which a test holds: a `range` loop that returns inside its `if`.
unfoldable pub first_index {ℓ} : {A : Type ℓ} → (A → Bool) → List A → Option ℕ
first_index test [] = none
first_index test (x ∷ xs) =
    if test x then some 0 else elim (first_index test xs) [ none ↦ none | some i ↦ some (suc i) ]

-- The loop over `s.data` that looks for a username: the IP of the first entry with it.
unfoldable pub ip_of : Str → Map Str → Option Str
ip_of username [] = none
ip_of username ((ip, u) ∷ m) = if str_eq u username then some ip else ip_of username m

unfoldable pub has_user : Str → List Str → Bool
has_user user [] = false
has_user user (u ∷ us) = str_eq u user || has_user user us

module _ {F : Type 0} where
  -- `GetInMemoryStore`: the singleton's first value.
  unfoldable pub get_in_memory_store : ClientStore F
  get_in_memory_store = record {
    client_data = [];
    delay_lists = [];
    chat_instances = record { arr = 0; len = 0 };
    heap = [] ∷ [];
  }

  unfoldable pub create : ClientStore F → Str → Str → ClientStore F × Result StoreError (Unit {0})
  create s ip username = elim (ip_of username s.client_data) [
    | some existing ↦ (s, err (username_taken username existing))
    | none ↦ (record s { client_data = insert ip username s.client_data }, ok tt)
  ]

  unfoldable pub read : ClientStore F → Str → Result StoreError Str
  read s ip = elim (lookup ip s.client_data) [
    | none ↦ err (ip_not_found ip)
    | some username ↦ ok username
  ]

  unfoldable pub read_by_username : ClientStore F → Str → Result StoreError Str
  read_by_username s username = elim (ip_of username s.client_data) [
    | none ↦ err (username_not_found username)
    | some ip ↦ ok ip
  ]

  -- `Delete`
  unfoldable pub delete_client : ClientStore F → Str → ClientStore F × Result StoreError (Unit {0})
  delete_client s ip = elim (lookup ip s.client_data) [
    | none ↦ (s, err (ip_not_found ip))
    | some _ ↦ (record s { client_data = delete ip s.client_data }, ok tt)
  ]

  unfoldable pub update_delay_list : ClientStore F → Str → Map F → ClientStore F
  update_delay_list s username delays = record s {
    delay_lists = insert username delays s.delay_lists;
  }

  unfoldable pub get_delay_list : ClientStore F → Str → Result StoreError (Map F)
  get_delay_list s username = elim (lookup username s.delay_lists) [
    | none ↦ err (delays_not_found username)
    | some delays ↦ ok delays
  ]

  -- The instances that the store shows, oldest first.
  abbrev pub instances : ClientStore F → List ChatInstance
  instances s = elements s.heap s.chat_instances

  unfoldable pub insert_chat_instance :
      (ℕ → ℕ) → ClientStore F → Str → Str → List Str → ClientStore F × Result StoreError Str
  insert_chat_instance grow s room_id chat_server users =
      let new_instance : ChatInstance = record {
        chat_server = chat_server;
        users = users;
        room_id = room_id;
        active = true;
      } in
      let (heap, slice) = append_one grow blank_instance s.heap s.chat_instances new_instance in
      (record s { heap = heap; chat_instances = slice }, ok room_id)

  -- `s.chatInstances = append(s.chatInstances[:i], s.chatInstances[i+1:]...)`; `none` is a panic.
  unfoldable pub cut_instance : ClientStore F → ℕ → Option (ClientStore F)
  cut_instance s i = elim (cut s.heap s.chat_instances i) [
    | none ↦ none
    | some (heap, slice) ↦ some (record s { heap = heap; chat_instances = slice })
  ]

  -- The operations below answer `none` where the Go code panics.
  unfoldable pub remove_chat_instance :
      ClientStore F → Str → Option (ClientStore F × Result StoreError Str)
  unfolding cut_instance
  remove_chat_instance s room_id =
      elim (first_index (λ c. str_eq c.room_id room_id) (instances s)) [
        | none ↦ some (s, err (room_not_found room_id))
        | some i ↦ elim (cut_instance s i) [ none ↦ none | some s' ↦ some (s', ok room_id) ]
      ]

  -- The loop of `RemoveChatInstancesForServer`: `captured` is the header that `range` evaluated,
  -- whose cells the loop's own removals shift.
  unfoldable pub remove_for_server_loop :
      Str → Slice → ℕ → ℕ → ClientStore F → List Str → Option (ClientStore F × List Str)
  unfolding cut_instance
  remove_for_server_loop server captured zero i s removed = some (s, removed)
  remove_for_server_loop server captured (suc left) i s removed = elim (cell_at s.heap captured i) [
    | none ↦ none
    | some c ↦ elim (str_eq c.chat_server server) [
      | false ↦ remove_for_server_loop server captured left (suc i) s removed
      | true ↦ elim (cut_instance s i) [
        | none ↦ none
        | some s' ↦
            remove_for_server_loop server captured left (suc i) s' (removed ++ c.room_id ∷ [])
      ]
    ]
  ]

  unfoldable pub remove_chat_instances_for_server :
      ClientStore F → Str → Option (ClientStore F × List Str)
  unfolding remove_for_server_loop
  remove_chat_instances_for_server s server =
      remove_for_server_loop server s.chat_instances s.chat_instances.len 0 s []

  -- The last instance is dropped by reslicing, any other by shifting the cells behind it.
  unfoldable pub drop_instance : ClientStore F → ℕ → Option (ClientStore F)
  unfolding cut_instance
  drop_instance s i =
      if i == s.chat_instances.len - 1
      then some (record s { chat_instances = record (s.chat_instances) { len = i } })
      else cut_instance s i

  unfoldable pub remove_chat_instances_for_user :
      ClientStore F → Str → Option (ClientStore F × Result StoreError Str)
  unfolding drop_instance first_index
  remove_chat_instances_for_user s user =
      elim (first_index (λ c. has_user user c.users) (instances s)) [
        | none ↦ some (s, err (user_not_found user))
        | some i ↦ elim (cell_at s.heap s.chat_instances i) [
          | none ↦ none
          | some c ↦ elim (drop_instance s i) [ none ↦ none | some s' ↦ some (s', ok c.room_id) ]
        ]
      ]

  -- `GetAllChatInstances` returns the header: its cells are the store's own.
  unfoldable pub get_all_chat_instances : ClientStore F → Slice
  get_all_chat_instances s = s.chat_instances
