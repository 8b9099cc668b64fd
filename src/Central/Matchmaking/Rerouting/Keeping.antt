-- ===== src/Central/Matchmaking/Rerouting/Keeping.antt =====
-- That the moves of `backgroundAnalysis` leave two users in every cell that its loop may read.
use distributed_matchmaking.Base.{
  ℕ, ◌<◌, ◌≡◌, inl, inr, sym, List, [], ◌∷◌, Option, some, none, All, arith, length, Bool,
  Bool-cases, Option-cases, Map, Str, str_eq, Result, ok, err, ◌==◌, ◌-◌,
}
use distributed_matchmaking.Central.Slices.{IsSlice, cells, elements, cell_at, cut}
use distributed_matchmaking.Central.Slices.Cells.{
  Kept-refl, Kept-trans, All-Holds, Sound, Kept, append_one-Kept, cut-Kept,
}
use distributed_matchmaking.Central.ClientStore.{
  ChatInstance, blank_instance, ClientStore, StoreError, has_user, instances, first_index,
  insert_chat_instance, cut_instance, drop_instance, remove_chat_instances_for_user,
}
use distributed_matchmaking.Central.ClientStore.Instances.{
  Shows, remove_first, remove_chat_instances_for_user_lem,
}
use distributed_matchmaking.Central.Matchmaking.Optimal.{Floats, MatchError}
use distributed_matchmaking.Central.Matchmaking.Rerouting.{move_room, reroute, compare_servers}
use mathlib.Core.Path.{subst}

-- A chat instance of two users or more, as both handlers make them.
abbrev pub IsPaired : ChatInstance → Type 0
IsPaired c = 1 < length c.users

-- A property of the result of a call that does not panic.
unfoldable pub Each : {A : Type 0} → (A → Type 0) → Option A → Type 0
Each Q none = Unit
Each Q (some a) = Q a

pub All-remove_first :
    (P : ChatInstance → Type 0) (test : ChatInstance → Bool) (xs : List ChatInstance)
    → All P xs
    → All P (remove_first test xs)
unfolding remove_first
All-remove_first P test [] all = tt
All-remove_first P test (x ∷ xs) (here, more) = elim (Bool-cases (test x)) [
  | inl hit ↦ rw (hit, remove_first) more
  | inr miss ↦ rw (miss, remove_first) (here, All-remove_first P test xs more)
]

pub Each-some : {A : Type 0} (Q : A → Type 0) {o : Option A} {a : A} → o ≡ some a → Each Q o → Q a
unfolding Each
Each-some Q e each = subst (Each Q) e each

-- The instances are shown by a well-formed slice, and each has two users.
pub record IsPairedStore {F : Type 0} (s : ClientStore F) : Type 0 where
  pub is_slice : IsSlice s.heap s.chat_instances
  pub paired : All IsPaired (instances s)

module _ {F : Type 0} where
  abbrev pub Keeps : ClientStore F → ClientStore F → Type 0
  Keeps s s' = Kept IsPaired s.heap s'.heap

  pub shown-IsPairedStore :
      {s s' : ClientStore F} {xs : List ChatInstance}
      → Shows s s' xs
      → All IsPaired xs
      → IsPairedStore s'
  shown-IsPairedStore w all = record {
    is_slice = w.is_slice;
    paired = subst (All IsPaired) (sym w.shown) all;
  }

  pub store-Sound : (s : ClientStore F) → IsPairedStore s → Sound IsPaired s.heap s.chat_instances
  unfolding elements
  store-Sound s p = record {
    is_slice = p.is_slice;
    holds = All-Holds IsPaired s.chat_instances.len (cells s.heap s.chat_instances.arr) p.paired;
  }

  cut_instance-Keeps :
      (s : ClientStore F) (i : ℕ) → IsPairedStore s → Each (Keeps s) (cut_instance s i)
  unfolding cut_instance Each
  cut_instance-Keeps s i p = elim (Option-cases (cut s.heap s.chat_instances i)) [
    | inl e ↦ rw (e, cut_instance) tt
    | inr ((h, t), e) ↦
        rw (e, cut_instance) (cut-Kept IsPaired s.heap h s.chat_instances t i (store-Sound s p) e)
  ]

  drop_instance-Keeps :
      (s : ClientStore F) (i : ℕ) → IsPairedStore s → Each (Keeps s) (drop_instance s i)
  unfolding drop_instance Each
  drop_instance-Keeps s i p = elim (Bool-cases (i == s.chat_instances.len - 1)) [
    | inl last ↦ rw (last, drop_instance) (Kept-refl IsPaired s.heap)
    | inr inner ↦ rw (inner, drop_instance) (cut_instance-Keeps s i p)
  ]

  remove-Keeps :
      (s : ClientStore F) (user : Str)
      → IsPairedStore s
      → Each (λ r. Keeps s r.0) (remove_chat_instances_for_user s user)
  unfolding remove_chat_instances_for_user Each
  remove-Keeps s user p =
      elim (Option-cases
        (first_index (λ (c : ChatInstance). has_user user c.users) (instances s))) [
          | inl e ↦ rw (e, remove_chat_instances_for_user) (Kept-refl IsPaired s.heap)
          | inr (i, e) ↦ elim (Option-cases (cell_at s.heap s.chat_instances i)) [
            | inl e' ↦ rw (e, e', remove_chat_instances_for_user) tt
            | inr (c, e') ↦ elim (Option-cases (drop_instance s i)) [
              | inl e'' ↦ rw (e, e', e'', remove_chat_instances_for_user) tt
              | inr (s', e'') ↦
                  rw (e, e', e'', remove_chat_instances_for_user)
                    (Each-some (Keeps s) e'' (drop_instance-Keeps s i p))
            ]
          ]
        ]

  -- The removal of a chat of a user.
  removed :
      (s : ClientStore F) (user : Str)
      → IsPairedStore s
      → (s' : ClientStore F) × (r : Result StoreError Str) × (remove_chat_instances_for_user s user
          ≡ some (s', r))
        × IsPairedStore s'
        × Keeps s s'
  removed s user p =
      let (s', e, w) = remove_chat_instances_for_user_lem s p.is_slice user in
      (
        s',
        _,
        e,
        shown-IsPairedStore w (All-remove_first IsPaired _ (instances s) p.paired),
        Each-some (λ r. Keeps s r.0) e (remove-Keeps s user p),
      )

  inserted-Keeps :
      (grow : ℕ → ℕ) (s : ClientStore F) (room_id server client1 client2 : Str)
      → IsPairedStore s
      → Keeps s (insert_chat_instance grow s room_id server (client1 ∷ client2 ∷ [])).0
  unfolding insert_chat_instance
  inserted-Keeps grow s room_id server client1 client2 p =
      append_one-Kept IsPaired grow blank_instance s.heap s.chat_instances _ p.is_slice
        (omega arith)

module _ (fl : Floats) (grow intn : ℕ → ℕ) (dial : Str → Bool) where
  open fl use {F32}

  move_room-Keeps :
      (s : ClientStore F32) (room_id client1 client2 server : Str)
      → IsPairedStore s
      → Each (Keeps s) (move_room fl grow intn dial s room_id client1 client2 server)
  unfolding move_room Each
  move_room-Keeps s room_id client1 client2 server p =
      let (s1, r1, e1, p1, k1) = removed s client1 p in
      let (s2, r2, e2, p2, k2) = removed s1 client2 p1 in
      rw (e1, e2, move_room)
        (Kept-trans IsPaired s.heap s1.heap _ k1 (
          Kept-trans IsPaired s1.heap s2.heap _ k2
            (inserted-Keeps grow s2 room_id server client1 client2 p2)))

  reroute-Keeps :
      (s : ClientStore F32) (c : ChatInstance) (client1 client2 : Str)
      (result : Option (Result MatchError Str))
      → IsPairedStore s
      → Each (λ r. Keeps s r.0) (reroute fl grow intn dial s c client1 client2 result)
  unfolding reroute Each
  reroute-Keeps s c client1 client2 none p = tt
  reroute-Keeps s c client1 client2 (some (err e)) p = Kept-refl IsPaired s.heap
  reroute-Keeps s c client1 client2 (some (ok server)) p =
      elim (Bool-cases (str_eq server c.chat_server)) [
        | inl same ↦ rw (same, reroute) (Kept-refl IsPaired s.heap)
        | inr other ↦
            elim (Option-cases (move_room fl grow intn dial s c.room_id client1 client2 server)) [
              | inl e ↦ rw (other, e, reroute) tt
              | inr (s', e) ↦
                  rw (other, e, reroute)
                    (Each-some (Keeps s) e (move_room-Keeps s c.room_id client1 client2 server p))
            ]
      ]

  pub compare_servers-Keeps :
      (s : ClientStore F32) (c : ChatInstance) (client1 client2 : Str)
      (r1 r2 : Result StoreError (Map F32))
      → IsPairedStore s
      → Each (λ r. Keeps s r.0) (compare_servers fl grow intn dial s c client1 client2 r1 r2)
  unfolding compare_servers Each
  compare_servers-Keeps s c client1 client2 (err e) r2 p = Kept-refl IsPaired s.heap
  compare_servers-Keeps s c client1 client2 (ok d1) (err e) p = Kept-refl IsPaired s.heap
  compare_servers-Keeps s c client1 client2 (ok d1) (ok d2) p =
      reroute-Keeps s c client1 client2 _ p
