-- ===== src/World/Tick/Access.antt =====
-- What the systems of a tick may do to the world: the calls of WorldContext, world_context.go, and
-- the store's own methods.
use world_engine.Base.{
  ℕ, String, List, [], ◌∷◌, ◌++◌, ◌≡◌, refl, sym, subst, ◌∙◌, nat_eq, ◌==◌, Bool-cases, inl, inr,
  set, length-set,
}
use world_engine.Base.Exec.{Result, ok, err, Exec}
use world_engine.Receipt.{Receipts, add_error, set_result}
use world_engine.Receipt.Ring.{IsRing}
use world_engine.World.Systems.{
  Fault, returned, panicked, SystemType, SystemManager, SystemError, run_each, run_systems,
  systems_to_run, continue_systems,
}
use world_engine.World.Types.{Services, World, Game, Pool, Running}
use world_engine.World.Context.{
  emit_event, emit_string_event, add_message_error, set_message_result, world_add_transaction,
}

module _ {s : Services} where
  -- One call, from the world `w` to the world `u`. Whatever a method of the store does, no method that
  -- a system reaches changes the last finalized tick.
  pub data Call (w u : World s) : Type 0 where
    emits : (event : s.Any) → u ≡ (emit_event event w).1 → Call w u
    emits_string : (e : s.Bytes) → u ≡ emit_string_event e w → Call w u
    adds_error : (id : String) (error : s.Err) → u ≡ add_message_error id error w → Call w u
    sets_result : (id : String) (a : s.Any) → u ≡ set_message_result id a w → Call w u
    adds_transaction :
        (id : ℕ) (v : s.Any) (sig : s.Tx) → u ≡ (world_add_transaction id v sig w).1 → Call w u
    uses_store :
        (store : s.Store)
        → s.get_last_finalized_tick store ≡ s.get_last_finalized_tick w.entity_store
        → u ≡ record w { entity_store = store }
        → Call w u

  pub data Calls (w : World s) : World s → Type 0 where
    none_yet : Calls w w
    then_call : {u v : World s} → Calls w u → Call u v → Calls w v

  -- A system works through its context alone, and leaves its pool as it is.
  abbrev pub UsesContext : Exec (Fault s.Err) (Running s) (Unit {0}) → Type 0
  UsesContext fn = (p : Pool s) (w : World s) → ((fn (p, w)).1.0 ≡ p) × Calls w (fn (p, w)).1.1

  abbrev pub AllUseContext : List (SystemType s.Err (Running s)) → Type 0
  AllUseContext [] = Unit
  AllUseContext (sys ∷ rest) = UsesContext sys.fn × AllUseContext rest

  abbrev pub SystemsUseContext : Game s → Type 0
  SystemsUseContext g =
      AllUseContext g.systems.registered_init_systems × AllUseContext g.systems.registered_systems

  -- What such calls keep.
  pub record Keeps (w u : World s) : Type 0 where
    pub same_tick : u.tick ≡ w.tick
    pub same_timestamp : u.timestamp ≡ w.timestamp
    pub same_stage : u.world_stage ≡ w.world_stage
    pub same_router : u.router ≡ w.router
    pub same_server : u.server ≡ w.server
    pub same_last :
        s.get_last_finalized_tick u.entity_store ≡ s.get_last_finalized_tick w.entity_store
    pub same_curr : u.receipt_history.curr_tick ≡ w.receipt_history.curr_tick
    pub same_size : u.receipt_history.ticks_to_store ≡ w.receipt_history.ticks_to_store
    pub still_ring : IsRing w.receipt_history → IsRing u.receipt_history

  refl-Keeps : (w : World s) → Keeps w w
  refl-Keeps w = record {
    same_tick = refl;
    same_timestamp = refl;
    same_stage = refl;
    same_router = refl;
    same_server = refl;
    same_last = refl;
    same_curr = refl;
    same_size = refl;
    still_ring = λ r. r;
  }

  trans-Keeps : {w u v : World s} → Keeps w u → Keeps u v → Keeps w v
  trans-Keeps h k = record {
    same_tick = k.same_tick ∙ h.same_tick;
    same_timestamp = k.same_timestamp ∙ h.same_timestamp;
    same_stage = k.same_stage ∙ h.same_stage;
    same_router = k.same_router ∙ h.same_router;
    same_server = k.same_server ∙ h.same_server;
    same_last = k.same_last ∙ h.same_last;
    same_curr = k.same_curr ∙ h.same_curr;
    same_size = k.same_size ∙ h.same_size;
    still_ring = λ r. k.still_ring (h.still_ring r);
  }

  -- A change of the events, of the pool or of the store.
  abbrev beside_receipts :
      (w : World s) (results : _) (pool : Pool s) (store : s.Store)
      → s.get_last_finalized_tick store ≡ s.get_last_finalized_tick w.entity_store
      → Keeps w (record w { tick_results = results; tx_pool = pool; entity_store = store })
  beside_receipts w results pool store same = record {
    same_tick = refl;
    same_timestamp = refl;
    same_stage = refl;
    same_router = refl;
    same_server = refl;
    same_last = same;
    same_curr = refl;
    same_size = refl;
    still_ring = λ r. r;
  }

  -- A write into the receipts of the current tick.
  abbrev into_receipts :
      (w : World s) (i : ℕ) (recs : Receipts s.Any s.Err)
      → let h = w.receipt_history in
        Keeps w (record w { receipt_history = record h { history = set h.history i recs } })
  into_receipts w i recs = record {
    same_tick = refl;
    same_timestamp = refl;
    same_stage = refl;
    same_router = refl;
    same_server = refl;
    same_last = refl;
    same_curr = refl;
    same_size = refl;
    still_ring = λ r. record {
      whole = length-set w.receipt_history.history i recs ∙ r.whole;
      some_place = r.some_place;
    };
  }

  Call-Keeps : (w u : World s) → Call w u → Keeps w u
  unfolding emit_event emit_string_event add_message_error set_message_result world_add_transaction
      add_error set_result
  Call-Keeps w u (emits event e) =
      subst (Keeps w) (sym e) (beside_receipts w _ w.tx_pool w.entity_store refl)
  Call-Keeps w u (emits_string b e) =
      subst (Keeps w) (sym e) (beside_receipts w _ w.tx_pool w.entity_store refl)
  Call-Keeps w u (adds_error id error e) = subst (Keeps w) (sym e) (into_receipts w _ _)
  Call-Keeps w u (sets_result id a e) = subst (Keeps w) (sym e) (into_receipts w _ _)
  Call-Keeps w u (adds_transaction id v sig e) =
      subst (Keeps w) (sym e) (beside_receipts w w.tick_results _ w.entity_store refl)
  Call-Keeps w u (uses_store store same e) =
      subst (Keeps w) (sym e) (beside_receipts w w.tick_results w.tx_pool store same)

  pub Calls-Keeps : {w u : World s} → Calls w u → Keeps w u
  Calls-Keeps none_yet = refl-Keeps _
  Calls-Keeps (then_call calls call) = trans-Keeps (Calls-Keeps calls) (Call-Keeps _ _ call)

  join : {w u v : World s} → Calls w u → Calls u v → Calls w v
  join a none_yet = a
  join a (then_call b call) = then_call (join a b) call

  -- However the systems end, they made their calls and left the pool.
  abbrev RanCalls :
      Pool s → World s → Result (Fault (SystemError s.Err)) (Unit {0}) × String × Running s → Type 0
  RanCalls p w r = (r.2.0 ≡ p) × Calls w r.2.1

  continue-RanCalls :
      (current : String) (r : Result (Fault s.Err) (Unit {0})) (p q : Pool s) (w u : World s)
      (next : Running s → Result (Fault (SystemError s.Err)) (Unit {0}) × String × Running s)
      → q ≡ p
      → Calls w u
      → RanCalls p u (next (p, u))
      → RanCalls p w (continue_systems current (r, (q, u)) next)
  continue-RanCalls current (ok _) p q w u next same calls rest =
      subst (λ t. RanCalls p w (next (t, u))) (sym same) (rest.0, join calls rest.1)
  continue-RanCalls current (err (returned e)) p q w u next same calls rest = (same, calls)
  continue-RanCalls current (err panicked) p q w u next same calls rest = (same, calls)

  run_each-RanCalls :
      (systems : List (SystemType s.Err (Running s))) (p : Pool s) (w : World s)
      → AllUseContext systems
      → RanCalls p w (run_each systems (p, w))
  unfolding run_each
  run_each-RanCalls [] p w h = (refl, none_yet)
  run_each-RanCalls (sys ∷ rest) p w h =
      let r = sys.fn (p, w) in
      continue-RanCalls sys.name r.0 p r.1.0 w r.1.1 (run_each rest) (h.0 p w).0 (h.0 p w).1
        (run_each-RanCalls rest p r.1.1 h.1)

  append-AllUseContext :
      (a b : List (SystemType s.Err (Running s)))
      → AllUseContext a
      → AllUseContext b
      → AllUseContext (a ++ b)
  append-AllUseContext [] b h k = k
  append-AllUseContext (sys ∷ a) b h k = (h.0, append-AllUseContext a b h.1 k)

  pub run_systems-Keeps :
      (tick : ℕ) (m : SystemManager s.Err (Running s)) (p : Pool s) (w : World s)
      → AllUseContext m.registered_init_systems × AllUseContext m.registered_systems
      → Keeps w (run_systems tick m (p, w)).2.1
  unfolding run_systems systems_to_run
  run_systems-Keeps tick m p w h =
      Calls-Keeps
        (run_each-RanCalls (systems_to_run tick m) p w (elim (Bool-cases (tick == 0)) [
          | inl e ↦
              rw e (append-AllUseContext m.registered_init_systems m.registered_systems h.0 h.1)
          | inr e ↦ rw e h.1
        ])).1
