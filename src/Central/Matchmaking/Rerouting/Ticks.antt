-- ===== src/Central/Matchmaking/Rerouting/Ticks.antt =====
-- A whole tick of `backgroundAnalysis`, over a slice that its own moves change.
use distributed_matchmaking.Base.{
  ℕ, zero, suc, ◌+◌, ◌<◌, ◌≡◌, inl, inr, refl, sym, ◌∙◌, List, [], ◌∷◌, ◌++◌, some, Bool, All,
  All-append, arith, length, get_elem?, Str,
}
use distributed_matchmaking.Central.Slices.{Slice, cells, cell_at}
use distributed_matchmaking.Central.Slices.Cells.{Holds, Sound, Kept}
use distributed_matchmaking.Central.ClientStore.{
  ChatInstance, ClientStore, instances, get_all_chat_instances,
}
use distributed_matchmaking.Central.Matchmaking.Optimal.{Floats}
use distributed_matchmaking.Central.Matchmaking.Rerouting.{analyse, analysis_loop, background_tick}
use distributed_matchmaking.Central.Matchmaking.Rerouting.Keeping.{
  IsPaired, IsPairedStore, Keeps, Each-some, All-remove_first, shown-IsPairedStore, store-Sound,
  compare_servers-Keeps,
}
use distributed_matchmaking.Central.Matchmaking.Rerouting.Moves.{
  Outcomes, analyse_lem, moved, without,
}
use mathlib.Core.Path.{subst}

in_range : {A : Type 0} (i : ℕ) (xs : List A) → i < length xs → (x : A) × (get_elem? xs i ≡ some x)
in_range i [] h = absurd (omega arith)
in_range zero (x ∷ xs) h = (x, refl)
in_range (suc i) (x ∷ xs) h = in_range i xs (omega arith)

moved-IsPaired :
    (room_id client1 client2 server : Str) (xs : List ChatInstance)
    → All IsPaired xs
    → All IsPaired (moved room_id client1 client2 server xs)
unfolding moved
moved-IsPaired room_id client1 client2 server xs all =
    All-append IsPaired (without client2 (without client1 xs)) _ (
      All-remove_first IsPaired _ (without client1 xs) (All-remove_first IsPaired _ xs all),
      (omega arith, tt),
    )

-- What a call leaves: a store of instances of two users, the clients and the delays.
pub record Remains {F : Type 0} (s s' : ClientStore F) : Type 0 where
  pub paired_store : IsPairedStore s'
  pub same_clients : s'.client_data ≡ s.client_data
  pub same_delays : s'.delay_lists ≡ s.delay_lists

module _ {F : Type 0} (s : ClientStore F) (captured : Slice) (i : ℕ) where
  read_cell :
      Sound IsPaired s.heap captured
      → i < captured.len
      → (c : ChatInstance) × (cell_at s.heap captured i ≡ some c)
  unfolding cell_at
  read_cell sound small =
      in_range i (cells s.heap captured.arr) (omega (arith, sound.is_slice.within))

  two_users :
      (c : ChatInstance)
      → Sound IsPaired s.heap captured
      → i < captured.len
      → cell_at s.heap captured i ≡ some c
      → IsPaired c
  unfolding cell_at Holds
  two_users c sound small e = sound.holds i c small e

module _ (fl : Floats) (grow intn : ℕ → ℕ) (dial : Str → Bool)
    (below : (n : ℕ) → 0 < n → intn n < n) where
  open fl use {F32}

  outcome-Remains :
      (s : ClientStore F32) (c : ChatInstance) (client1 client2 : Str)
      (after : ClientStore F32 × List (Str × Str))
      → IsPairedStore s
      → Outcomes fl grow intn dial s c client1 client2 after
      → Remains s after.0
  unfolding Outcomes
  outcome-Remains s c client1 client2 after p (inl (same, _)) =
      subst (Remains s) (sym same)
        (record { paired_store = p; same_clients = refl; same_delays = refl })
  outcome-Remains s c client1 client2 after p (inr (server, _, w, _)) = record {
    paired_store =
        shown-IsPairedStore w
          (moved-IsPaired c.room_id client1 client2 server (instances s) p.paired);
    same_clients = w.same_clients;
    same_delays = w.same_delays;
  }

  analysed :
      (s : ClientStore F32) (c : ChatInstance) (users : List Str)
      → IsPairedStore s
      → 1 < length users
      → (after : ClientStore F32 × List (Str × Str)) × (analyse fl grow intn dial s c users
          ≡ some after)
        × Remains s after.0
        × Keeps s after.0
  unfolding analyse
  analysed s c [] p two = absurd (omega arith)
  analysed s c (client ∷ []) p two = absurd (omega arith)
  analysed s c (client1 ∷ client2 ∷ more) p two =
      let (after, e, o) = analyse_lem fl grow intn dial s p.is_slice below c client1 client2 more in
      (
        after,
        e,
        outcome-Remains s c client1 client2 after p o,
        Each-some (λ r. Keeps s r.0) e
            (compare_servers-Keeps fl grow intn dial s c client1 client2 _ _ p),
      )

  loop_lem :
      (captured : Slice) (left i : ℕ) (s : ClientStore F32) (sent : List (Str × Str))
      → i + left ≡ captured.len
      → IsPairedStore s
      → Sound IsPaired s.heap captured
      → (after : ClientStore F32 × List (Str × Str)) × (analysis_loop fl grow intn dial captured
            left i s sent
          ≡ some after)
        × Remains s after.0
  unfolding analysis_loop Kept
  loop_lem captured zero i s sent size p sound =
      ((s, sent), refl, record { paired_store = p; same_clients = refl; same_delays = refl })
  loop_lem captured (suc left) i s sent size p sound =
      let (c, e) = read_cell s captured i sound (omega arith) in
      let ((s', more), e', r, k) =
        analysed s c c.users p (two_users s captured i c sound (omega arith) e) in
      let (after, e'', r') =
        loop_lem captured left (suc i) s' (sent ++ more) (omega arith) r.paired_store
          (k captured sound) in
      (
        after,
        rw (e, e', analysis_loop) e'',
        record {
          paired_store = r'.paired_store;
          same_clients = r'.same_clients ∙ r.same_clients;
          same_delays = r'.same_delays ∙ r.same_delays;
        },
      )

  -- If the instances are shown by a well-formed slice and have two users each, and the random index
  -- is below its bound, then a tick does not panic, although the loop reads cells that its own moves
  -- have shifted; the instances that it leaves are again shown by a well-formed slice and have two
  -- users each, and the clients and their delays are as before.
  pub background_tick-Remains :
      (s : ClientStore F32)
      → IsPairedStore s
      → (after : ClientStore F32 × List (Str × Str)) × (background_tick fl grow intn dial s
          ≡ some after)
        × Remains s after.0
  unfolding background_tick get_all_chat_instances
  background_tick-Remains s p =
      loop_lem s.chat_instances s.chat_instances.len 0 s [] (omega arith) p (store-Sound s p)
