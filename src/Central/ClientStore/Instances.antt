-- ===== src/Central/ClientStore/Instances.antt =====
-- The chat instances as a list: what each operation on the slice does to the list that it shows.
use distributed_matchmaking.Base.{
  ℕ, suc, ◌-◌, ◌<◌, ◌≡◌, ◌⊎◌, inl, inr, refl, List, [], ◌∷◌, ◌++◌, Option, some, none, Bool, true,
  ◌==◌, if◌then◌else◌, arith, Str, str_eq, ok, err, length, get_elem?, Bool-cases,
}
use distributed_matchmaking.Central.Slices.{IsSlice}
use distributed_matchmaking.Central.Slices.Laws.{
  remove_at, elements-append_one, append_one-IsSlice, cut_lem, length-elements, cell_at-elements,
  elements-reslice,
}
use distributed_matchmaking.Central.ClientStore.{
  ChatInstance, blank_instance, ClientStore, room_not_found, user_not_found, first_index, has_user,
  instances, insert_chat_instance, cut_instance, drop_instance, remove_chat_instance,
  remove_chat_instances_for_user,
}

module _ {A : Type 0} where
  -- The first element that passes a test.
  unfoldable pub find : (A → Bool) → List A → Option A
  find test [] = none
  find test (x ∷ xs) = if test x then some x else find test xs

  -- The list without it.
  unfoldable pub remove_first : (A → Bool) → List A → List A
  remove_first test [] = []
  remove_first test (x ∷ xs) = if test x then xs else x ∷ remove_first test xs

  first_index-find :
      (test : A → Bool) (xs : List A)
      → ((first_index test xs ≡ none) × (find test xs ≡ none) × (remove_first test xs ≡ xs))
        ⊎ ((i : ℕ) × (c : A) × (first_index test xs ≡ some i)
            × (i < length xs)
            × (get_elem? xs i ≡ some c)
            × (find test xs ≡ some c)
            × (remove_first test xs ≡ remove_at i xs))
  unfolding first_index find remove_first
  first_index-find test [] = inl (refl, refl, refl)
  first_index-find test (x ∷ xs) = elim (Bool-cases (test x)) [
    | inl hit ↦ inr (0, x, rw hit, omega arith, refl, rw hit, rw hit)
    | inr miss ↦ elim (first_index-find test xs) [
      | inl (a, b, c) ↦ inl (rw (miss, a), rw (miss, b), rw (miss, c))
      | inr (i, c, a, p, g, b, r) ↦
          inr (suc i, c, rw (miss, a), omega arith, g, rw (miss, b), rw (miss, r))
    ]
  ]

-- The store `s'` shows the instances `xs`, and has the clients and the delay lists of `s`.
pub record Shows {F : Type 0} (s s' : ClientStore F) (xs : List ChatInstance) : Type 0 where
  pub is_slice : IsSlice s'.heap s'.chat_instances
  pub shown : instances s' ≡ xs
  pub same_clients : s'.client_data ≡ s.client_data
  pub same_delays : s'.delay_lists ≡ s.delay_lists

module _ {F : Type 0} (s : ClientStore F) (v : IsSlice s.heap s.chat_instances) where
  -- On a well-formed slice, in place or after reallocation, inserting a chat instance shows the
  -- old instances and then the new active one, answers the room ID, and leaves clients and delay
  -- lists alone.
  pub insert_chat_instance_lem :
      (grow : ℕ → ℕ) (room_id chat_server : Str) (users : List Str)
      → Shows s (insert_chat_instance grow s room_id chat_server users).0 (
          instances s
          ++ record { chat_server = chat_server; users = users; room_id = room_id; active = true }
            ∷ [])
        × ((insert_chat_instance grow s room_id chat_server users).1 ≡ ok room_id)
  unfolding insert_chat_instance
  insert_chat_instance_lem grow room_id chat_server users = (
    record {
      is_slice = append_one-IsSlice grow blank_instance s.heap s.chat_instances _ v;
      shown = elements-append_one grow blank_instance s.heap s.chat_instances _ v;
      same_clients = refl;
      same_delays = refl;
    },
    refl,
  )

  cut_instance-Shows :
      (i : ℕ)
      → i < length (instances s)
      → (s' : ClientStore F) × (cut_instance s i ≡ some s') × Shows s s' (remove_at i (instances s))
  unfolding cut_instance
  cut_instance-Shows i p =
      let p' : i < s.chat_instances.len =
        omega (arith, length-elements s.heap s.chat_instances v) in
      let (h, c, e, w, shown) = cut_lem s.heap s.chat_instances i v p' in
      (
        record s { heap = h; chat_instances = c },
        rw (e, cut_instance),
        record { is_slice = w; shown = shown; same_clients = refl; same_delays = refl },
      )

  drop_instance-Shows :
      (i : ℕ)
      → i < length (instances s)
      → (s' : ClientStore F) × (drop_instance s i ≡ some s')
        × Shows s s' (remove_at i (instances s))
  unfolding drop_instance
  drop_instance-Shows i p = elim (Bool-cases (i == s.chat_instances.len - 1)) [
    | inl last ↦
        let size = length-elements s.heap s.chat_instances v in
        let e : s.chat_instances.len ≡ suc i = ground arith in
        (
          record s { chat_instances = record (s.chat_instances) { len = i } },
          rw (last, drop_instance),
          record {
            is_slice = record { allocated = v.allocated; within = omega arith };
            shown = elements-reslice s.heap s.chat_instances i e;
            same_clients = refl;
            same_delays = refl;
          },
        )
    | inr inner ↦ rw (inner, drop_instance) (cut_instance-Shows i p)
  ]

  unchanged : Shows s s (instances s)
  unchanged = record { is_slice = v; shown = refl; same_clients = refl; same_delays = refl }

  -- On a well-formed slice, removing a room never panics: it takes out the first instance with the
  -- room ID and no other, and answers the ID, or an error and no change when there is none.
  pub remove_chat_instance_lem :
      (room_id : Str)
      → let found = find (λ c. str_eq c.room_id room_id) (instances s) in
        (s' : ClientStore F) × (remove_chat_instance s room_id
          ≡ some (s', elim found [ none ↦ err (room_not_found room_id) | some _ ↦ ok room_id ]))
        × Shows s s' (remove_first (λ c. str_eq c.room_id room_id) (instances s))
  unfolding remove_chat_instance
  remove_chat_instance_lem room_id =
      elim (first_index-find (λ (c : ChatInstance). str_eq c.room_id room_id) (instances s)) [
        | inl (a, b, c) ↦ (s, rw (a, b, remove_chat_instance), rw c unchanged)
        | inr (i, c, a, p, g, b, r) ↦
            let (s', e, w) = cut_instance-Shows i p in
            (s', rw (a, b, e, remove_chat_instance), rw r w)
      ]

  -- On a well-formed slice, removing the chats of a user never panics: it takes out the first
  -- instance with the user and no other, and answers its room ID, or an error and no change when
  -- there is none.
  pub remove_chat_instances_for_user_lem :
      (user : Str)
      → let found = find (λ c. has_user user c.users) (instances s) in
        (s' : ClientStore F) × (remove_chat_instances_for_user s user
          ≡ some (s', elim found [ none ↦ err (user_not_found user) | some c ↦ ok c.room_id ]))
        × Shows s s' (remove_first (λ c. has_user user c.users) (instances s))
  unfolding remove_chat_instances_for_user
  remove_chat_instances_for_user_lem user =
      elim (first_index-find (λ (c : ChatInstance). has_user user c.users) (instances s)) [
        | inl (a, b, c) ↦ (s, rw (a, b, remove_chat_instances_for_user), rw c unchanged)
        | inr (i, c, a, p, g, b, r) ↦
            let (s', e, w) = drop_instance-Shows i p in
            let size = length-elements s.heap s.chat_instances v in
            (
              s',
              rw (
                a,
                b,
                cell_at-elements s.heap s.chat_instances i (omega arith),
                g,
                e,
                remove_chat_instances_for_user,
              ),
              rw r w,
            )
      ]
