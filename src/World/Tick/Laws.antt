-- ===== src/World/Tick/Laws.antt =====
-- The parts of a tick that succeeded, doTick of cardinal/world.go.
use world_engine.Base.{
  ℕ, String, Bool, true, false, Option, none, some, ◌≡◌, refl, sym, ap, subst, ◌∙◌, ◌==◌,
  Bool-cases, inl, inr,
}
use world_engine.Base.GoMap.{GoMap}
use world_engine.Base.Exec.{Result, ok, err, modify, bind-ok, bind-step}
use world_engine.TxPool.{copy_transactions, get_evm_txs, transactions, reset}
use world_engine.Worldstage.{recovering, stage_eq, current}
use world_engine.World.Systems.{Fault, returned, panicked, run_systems}
use world_engine.World.Types.{Services, World, Game, Pool, TickError, EvmTxReceipt}
use world_engine.World.Tick.EvmResults.{set_evm_results-OnlyEvm}
use world_engine.World.Tick.{
  wrap, wrap_fault, can_tick, put_world, take_transactions, store_timestamp, run_registered,
  finalize_store, set_results, submit, submit_to, advance, broadcast, ticking, do_tick,
}

module _ {A B F : Type 0} where
  pub wrap-ok : (f : B → F) (r : Result B A) {a : A} → wrap f r ≡ ok a → r ≡ ok a
  wrap-ok f (ok a) h = cc
  wrap-ok f (err e) h = cc

  pub wrap_fault-ok :
      (f : B → F) (r : Result (Fault B) A) {a : A} → wrap_fault f r ≡ ok a → r ≡ ok a
  wrap_fault-ok f (ok a) h = cc
  wrap_fault-ok f (err (returned e)) h = cc
  wrap_fault-ok f (err panicked) h = cc

-- What the submission does: nothing without a router or while recovering; else the router's call
-- succeeded, with the transactions, the tick and the timestamp.
pub data Submitted (s : Services) (tx_pool : Pool s) (is_recovering : Bool)
    (router : Option s.Router) (tick timestamp : ℕ) (after : Option s.Router) : Type 0 where
  recovers :
      is_recovering ≡ true
      → after ≡ router
      → Submitted s tx_pool is_recovering router tick timestamp after
  no_router :
      router ≡ none → after ≡ none → Submitted s tx_pool is_recovering router tick timestamp after
  submits :
      (r r' : s.Router)
      → is_recovering ≡ false
      → router ≡ some r
      → s.submit_tx_blob (transactions tx_pool) tick timestamp r ≡ (ok tt, r')
      → after ≡ some r'
      → Submitted s tx_pool is_recovering router tick timestamp after

module _ {s : Services} where
  abbrev pub SubmittedBy : Pool s → World s → Option s.Router → Type 0
  SubmittedBy tx_pool w after =
      Submitted s tx_pool (w.world_stage.current == recovering) w.router w.tick w.timestamp after

  pub record Ticked (timestamp : ℕ) (g n : Game s) : Type 0 where
    pub guard : can_tick g.world.world_stage.current ≡ true
    pub ran : World s
    pub pool : Pool s
    pub systems_ran :
        run_systems g.world.tick g.systems (
          g.world.tx_pool,
          record g.world { tx_pool = reset g.world.tx_pool; timestamp = timestamp },
        )
        ≡ (ok tt, n.systems, (pool, ran))
    pub store : s.Store
    pub finalized : s.finalize_tick ran.entity_store ≡ (ok tt, store)
    pub receipts : GoMap String (EvmTxReceipt s.Bytes s.Err)
    pub router : Option s.Router
    pub submitted : SubmittedBy g.world.tx_pool ran router
    pub after :
        n.world
        ≡ broadcast (
            advance
              (record ran { entity_store = store; evm_tx_receipts = receipts; router = router }))

  pub run_registered-ok :
      (pool : Pool s) (g : Game s) {u : Unit {0}} {n : Game s}
      → run_registered pool g ≡ (ok u, n)
      → let r = run_systems g.world.tick g.systems (pool, g.world) in
        (r.0 ≡ ok u) × (n.systems ≡ r.1) × (n.world ≡ r.2.1)
  unfolding run_registered
  run_registered-ok pool g h =
      let r = run_systems g.world.tick g.systems (pool, g.world) in
      (
        wrap_fault-ok _ r.0 (ap (λ t. t.0) h),
        cc (ap (λ t. t.1.systems) h),
        cc (ap (λ t. t.1.world) h),
      )

  pub finalize_store-ok :
      (g : Game s) {u : Unit {0}} {n : Game s}
      → finalize_store g ≡ (ok u, n)
      → let r = s.finalize_tick g.world.entity_store in
        (r.0 ≡ ok u) × (n ≡ put_world (record g.world { entity_store = r.1 }) g)
  unfolding finalize_store
  finalize_store-ok g h =
      let r = s.finalize_tick g.world.entity_store in
      (wrap-ok _ r.0 (ap (λ t. t.0) h), sym (ap (λ t. t.1) h))

  pub set_results-ok :
      (pool : Pool s) (g : Game s) {u : Unit {0}} {n : Game s}
      → set_results pool g ≡ (ok u, n)
      → n ≡ put_world (record g.world { evm_tx_receipts = n.world.evm_tx_receipts }) g
  unfolding set_results
  set_results-ok pool g h =
      let only = set_evm_results-OnlyEvm (TickError s.Err) (get_evm_txs pool) g.world in
      subst (λ m. m ≡ put_world (record g.world { evm_tx_receipts = m.world.evm_tx_receipts }) g)
        (ap (λ t. t.1) h) (ap (λ w. put_world w g) only.1)

  submit_to-ok :
      (o : Option s.Router) (pool : Pool s) (g : Game s) {u : Unit {0}} {n : Game s}
      → (g.world.world_stage.current == recovering) ≡ false
      → g.world.router ≡ o
      → submit_to o pool g ≡ (ok u, n)
      → SubmittedBy pool g.world n.world.router
        × (n ≡ put_world (record g.world { router = n.world.router }) g)
  submit_to-ok none pool g st e h =
      subst
        (λ m.
          SubmittedBy pool g.world m.world.router
          × (m ≡ put_world (record g.world { router = m.world.router }) g))
        (ap (λ t. t.1) h) (no_router e e, refl)
  submit_to-ok (some router) pool g st e h =
      let call = s.submit_tx_blob (transactions pool) g.world.tick g.world.timestamp router in
      let done : call.0 ≡ ok tt = wrap-ok _ call.0 (ap (λ t. t.0) h) in
      subst
        (λ m.
          SubmittedBy pool g.world m.world.router
          × (m ≡ put_world (record g.world { router = m.world.router }) g))
        (ap (λ t. t.1) h) (submits router call.1 st e (ap (λ r. (r, call.1)) done) refl, refl)

  pub submit-ok :
      (pool : Pool s) (g : Game s) {u : Unit {0}} {n : Game s}
      → submit pool g ≡ (ok u, n)
      → SubmittedBy pool g.world n.world.router
        × (n ≡ put_world (record g.world { router = n.world.router }) g)
  unfolding submit current
  submit-ok pool g {n = n} h = elim (Bool-cases (g.world.world_stage.current == recovering)) [
    | inl e ↦
        let same : g ≡ n = ap (λ t. t.1) (rw e at h) in
        subst
          (λ m.
            SubmittedBy pool g.world m.world.router
            × (m ≡ put_world (record g.world { router = m.world.router }) g))
          same (recovers e refl, refl)
    | inr e ↦ submit_to-ok g.world.router pool g e refl (rw e at h)
  ]

  -- The state at the start of the systems.
  abbrev pub begun : ℕ → Game s → Game s
  begun timestamp g =
      put_world (record g.world { tx_pool = reset g.world.tx_pool; timestamp = timestamp }) g

  assembled :
      (timestamp : ℕ) (g g3 g4 g5 g6 n : Game s)
      → can_tick g.world.world_stage.current ≡ true
      → run_registered g.world.tx_pool (begun timestamp g) ≡ (ok tt, g3)
      → finalize_store g3 ≡ (ok tt, g4)
      → set_results g.world.tx_pool g4 ≡ (ok tt, g5)
      → submit g.world.tx_pool g5 ≡ (ok tt, g6)
      → n ≡ put_world (broadcast (advance g6.world)) g6
      → Ticked timestamp g n
  assembled timestamp g g3 g4 g5 g6 n guard e3 e4 e5 e6 ended =
      let (ran, systems, world) = run_registered-ok g.world.tx_pool (begun timestamp g) e3 in
      let (finalized, stored) = finalize_store-ok g3 e4 in
      let evm = set_results-ok g.world.tx_pool g4 e5 in
      let (sent, routed) = submit-ok g.world.tx_pool g5 e6 in
      let w4 =
        ap (λ (m : Game s). m.world) stored
        ∙ ap (λ (w : World s). record w { entity_store = (s.finalize_tick w.entity_store).1 })
            world in
      let w5 =
        ap (λ (m : Game s). m.world) evm
        ∙ ap (λ (w : World s). record w { evm_tx_receipts = g5.world.evm_tx_receipts }) w4 in
      let w6 =
        ap (λ (m : Game s). m.world) routed
        ∙ ap (λ (w : World s). record w { router = g6.world.router }) w5 in
      let same_systems =
        ap (λ (m : Game s). m.systems) routed
        ∙ ap (λ (m : Game s). m.systems) evm
        ∙ ap (λ (m : Game s). m.systems) stored
        ∙ systems in
      let r = run_systems g.world.tick g.systems (g.world.tx_pool, (begun timestamp g).world) in
      let same : n.systems ≡ r.1 = ap (λ (m : Game s). m.systems) ended ∙ same_systems in
      record {
        guard = guard;
        pool = r.2.0;
        ran = r.2.1;
        systems_ran = λ i. (ran i, sym same i, r.2);
        store = (s.finalize_tick r.2.1.entity_store).1;
        finalized =
            subst
              (λ (w : World s).
                s.finalize_tick w.entity_store ≡ (ok tt, (s.finalize_tick w.entity_store).1))
              world (λ i. (finalized i, (s.finalize_tick g3.world.entity_store).1));
        receipts = g5.world.evm_tx_receipts;
        router = g6.world.router;
        submitted = subst (λ w. SubmittedBy g.world.tx_pool w g6.world.router) w5 sent;
        after = ap (λ (m : Game s). m.world) ended ∙ ap (λ w. broadcast (advance w)) w6;
      }

  ticking-Ticked :
      (timestamp : ℕ) (g : Game s) {n : Game s}
      → can_tick g.world.world_stage.current ≡ true
      → ticking timestamp g ≡ (ok tt, n)
      → Ticked timestamp g n
  unfolding ticking take_transactions store_timestamp copy_transactions modify
  ticking-Ticked timestamp g {n = n} guard h =
      let h1 = sym (bind-step take_transactions _ g refl) ∙ h in
      let h2 = sym (bind-step (store_timestamp timestamp) _ _ refl) ∙ h1 in
      let (_, g3, e3, h3) = bind-ok (run_registered g.world.tx_pool) _ _ h2 in
      let (_, g4, e4, h4) = bind-ok finalize_store _ g3 h3 in
      let (_, g5, e5, h5) = bind-ok (set_results g.world.tx_pool) _ g4 h4 in
      let (_, g6, e6, h6) = bind-ok (submit g.world.tx_pool) _ g5 h5 in
      assembled timestamp g g3 g4 g5 g6 n guard e3 e4 e5 e6 (sym (ap (λ t. t.1) h6))

  -- What a doTick that succeeded did.
  pub do_tick-Ticked :
      (timestamp : ℕ) (g : Game s) {n : Game s}
      → do_tick timestamp g ≡ (ok tt, n)
      → Ticked timestamp g n
  unfolding do_tick current
  do_tick-Ticked timestamp g h = elim (Bool-cases (can_tick g.world.world_stage.current)) [
    | inr e ↦ let k = (rw e at h) in cc
    | inl e ↦ ticking-Ticked timestamp g e (rw e at h)
  ]
