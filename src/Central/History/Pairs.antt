-- ===== src/Central/History/Pairs.antt =====
-- Every instance that the store ever shows has two users, so no tick panics.
use distributed_matchmaking.Base.{
  ℕ, ◌<◌, ◌≡◌, refl, sym, ap, ◌∙◌, List, [], ◌∷◌, Option, some, none, All-append, Bool, Str, Map,
  arith,
}
use distributed_matchmaking.Central.ClientApi.{
  register_client, delete_client_handler, update_delay_list_handler,
}
use distributed_matchmaking.Central.ClientStore.{
  ClientStore, create, delete_client, update_delay_list, insert_chat_instance, instances,
  get_in_memory_store,
}
use distributed_matchmaking.Central.ClientStore.Instances.{insert_chat_instance_lem}
use distributed_matchmaking.Central.History.{
  Step, registers, deletes, reports, rooms, ticks, Reaches, still, onward,
}
use distributed_matchmaking.Central.Matchmaking.Optimal.{Floats}
use distributed_matchmaking.Central.Matchmaking.Rerouting.{background_tick}
use distributed_matchmaking.Central.Matchmaking.Rerouting.Keeping.{
  IsPaired, IsPairedStore, shown-IsPairedStore,
}
use distributed_matchmaking.Central.Matchmaking.Rerouting.Ticks.{Remains, background_tick-Remains}
use distributed_matchmaking.Central.Slices.{cells, elements}
use mathlib.Core.Option.{some-injective}
use mathlib.Core.Path.{subst}

module _ (fl : Floats) where
  open fl use {F32}

  empty-IsPairedStore : IsPairedStore (get_in_memory_store {F = F32})
  unfolding get_in_memory_store elements cells
  empty-IsPairedStore = record {
    is_slice = record { allocated = omega arith; within = omega arith };
    paired = tt;
  }

  -- A call that leaves the instances as they are.
  same-IsPairedStore :
      (s s' : ClientStore F32)
      → s'.heap ≡ s.heap
      → s'.chat_instances ≡ s.chat_instances
      → IsPairedStore s
      → IsPairedStore s'
  same-IsPairedStore s s' h c p = record {
    is_slice = rw (h, c) p.is_slice;
    paired = rw (h, c) p.paired;
  }

  register_client-IsPairedStore :
      (s : ClientStore F32) (client_ip : Str) (request : Option Str)
      → IsPairedStore s
      → IsPairedStore (register_client s client_ip request).0
  unfolding register_client create
  register_client-IsPairedStore s client_ip none p = p
  register_client-IsPairedStore s client_ip (some username) p =
      same-IsPairedStore s _ (ground arith) (ground arith) p

  delete_client_handler-IsPairedStore :
      (s : ClientStore F32) (client_ip : Str)
      → IsPairedStore s
      → IsPairedStore (delete_client_handler s client_ip).0
  unfolding delete_client_handler delete_client
  delete_client_handler-IsPairedStore s client_ip p =
      same-IsPairedStore s _ (ground arith) (ground arith) p

  update_delay_list_handler-IsPairedStore :
      (s : ClientStore F32) (request : Option (Str × Map F32))
      → IsPairedStore s
      → IsPairedStore (update_delay_list_handler s request).0
  unfolding update_delay_list_handler update_delay_list
  update_delay_list_handler-IsPairedStore s none p = p
  update_delay_list_handler-IsPairedStore s (some (username, delays)) p =
      same-IsPairedStore s _ refl refl p

  pub insert_chat_instance-IsPairedStore :
      (s : ClientStore F32) (grow : ℕ → ℕ) (room_id server_ip username req_user : Str)
      → IsPairedStore s
      → IsPairedStore (insert_chat_instance grow s room_id server_ip (username ∷ req_user ∷ [])).0
  insert_chat_instance-IsPairedStore s grow room_id server_ip username req_user p =
      shown-IsPairedStore
        (insert_chat_instance_lem s p.is_slice grow room_id server_ip (username ∷ req_user ∷ [])).0
        (All-append IsPaired (instances s) _ (p.paired, (omega arith, tt)))

  step-IsPairedStore : (s s' : ClientStore F32) → Step fl s s' → IsPairedStore s → IsPairedStore s'
  step-IsPairedStore _ _ (registers s client_ip request) p =
      register_client-IsPairedStore s client_ip request p
  step-IsPairedStore _ _ (deletes s client_ip) p = delete_client_handler-IsPairedStore s client_ip p
  step-IsPairedStore _ _ (reports s request) p = update_delay_list_handler-IsPairedStore s request p
  step-IsPairedStore _ _ (rooms s grow room_id server_ip username req_user) p =
      insert_chat_instance-IsPairedStore s grow room_id server_ip username req_user p
  step-IsPairedStore _ _ (ticks s s' grow intn dial below sent e) p =
      let (after, e', r) = background_tick-Remains fl grow intn dial below s p in
      subst (λ (t : ClientStore F32). IsPairedStore t)
        (ap (λ o. o.0) (some-injective _ _ (sym e' ∙ e))) r.paired_store

  Reaches-IsPairedStore :
      (s s' : ClientStore F32) → Reaches fl s s' → IsPairedStore s → IsPairedStore s'
  Reaches-IsPairedStore _ _ (still s) p = p
  Reaches-IsPairedStore _ _ (onward s t s' more step) p =
      step-IsPairedStore t s' step (Reaches-IsPairedStore s t more p)

  -- From the empty store on, after any requests, sessions and ticks in any order, each instance that
  -- is shown has two users, and one more tick does not panic, if the random index is below its
  -- bound: it leaves such a store again, and the clients and their delays as they are.
  pub reached-Remains :
      (s : ClientStore F32) (grow intn : ℕ → ℕ) (dial : Str → Bool)
      → ((n : ℕ) → 0 < n → intn n < n)
      → Reaches fl get_in_memory_store s
      → (after : ClientStore F32 × List (Str × Str)) × (background_tick fl grow intn dial s
          ≡ some after)
        × IsPairedStore s
        × Remains s after.0
  reached-Remains s grow intn dial below reaches =
      let p = Reaches-IsPairedStore get_in_memory_store s reaches empty-IsPairedStore in
      let (after, e, r) = background_tick-Remains fl grow intn dial below s p in (after, e, p, r)
