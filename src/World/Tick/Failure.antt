-- ===== src/World/Tick/Failure.antt =====
-- A doTick of cardinal/world.go that fails, by an error or a panic: how far the world has got.
use world_engine.Base.{
  ℕ, String, Bool, true, false, Option, none, some, ◌≡◌, refl, sym, ap, subst, ◌∙◌, ◌==◌, nat_eq,
  Bool-cases, inl, inr,
}
use world_engine.Base.GoMap.{GoMap}
use world_engine.Base.Exec.{Result, ok, err, bind-err, bind-step, modify}
use world_engine.TxPool.{copy_transactions, get_evm_txs, transactions}
use world_engine.Worldstage.{recovering, stage_eq, current}
use world_engine.World.Systems.{Fault, returned, panicked, SystemError, run_systems}
use world_engine.World.Types.{
  Services, World, Game, Pool, EvmTxReceipt, TickError, not_in_a_valid_state, system_failed,
  finalize_failed, failed_to_submit_transactions,
}
use world_engine.World.Context.{set_evm_results}
use world_engine.World.Tick.{
  do_tick, ticking, can_tick, wrap, wrap_fault, take_transactions, store_timestamp, run_registered,
  finalize_store, set_results, submit, submit_to,
}
use world_engine.World.Tick.EvmResults.{returns_no_error, set_evm_results-OnlyEvm}
use world_engine.World.Tick.Laws.{begun, run_registered-ok, finalize_store-ok, set_results-ok}

-- Whether it is the router that failed.
abbrev pub is_submission : {E : Type 0} → Fault (TickError E) → Bool
is_submission panicked = false
is_submission (returned not_in_a_valid_state) = false
is_submission (returned (system_failed e)) = false
is_submission (returned (finalize_failed e)) = false
is_submission (returned (failed_to_submit_transactions e)) = true

module _ {A E : Type 0} where
  abbrev submission_failed : Result (Fault (TickError E)) A → Bool
  submission_failed (ok a) = false
  submission_failed (err e) = is_submission e

  system-submission :
      (r : Result (Fault (SystemError E)) A)
      → submission_failed (wrap_fault system_failed r) ≡ false
  system-submission (ok a) = refl
  system-submission (err (returned e)) = refl
  system-submission (err panicked) = refl

  finalize-submission : (r : Result E A) → submission_failed (wrap finalize_failed r) ≡ false
  finalize-submission (ok a) = refl
  finalize-submission (err e) = refl

  wrapped-submission :
      (r : Result E A) {e : Fault (TickError E)}
      → wrap failed_to_submit_transactions r ≡ err e
      → is_submission e ≡ true
  wrapped-submission (ok a) h = cc
  wrapped-submission (err x) h = subst (λ t. submission_failed t ≡ true) h refl

  panic-submission :
      (r : Result (Fault (TickError E)) A) → returns_no_error r ≡ true → submission_failed r ≡ false
  panic-submission (ok a) h = refl
  panic-submission (err (returned e)) h = cc
  panic-submission (err panicked) h = refl

module _ {s : Services} where
  -- The world after the systems.
  abbrev pub after_systems : ℕ → Game s → World s
  after_systems timestamp g =
      (run_systems g.world.tick g.systems (g.world.tx_pool, (begun timestamp g).world)).2.1

  abbrev pub left_at : s.Store → GoMap String (EvmTxReceipt s.Bytes s.Err) → World s → World s
  left_at store receipts w = record w { entity_store = store; evm_tx_receipts = receipts }

  pub data Failed (timestamp : ℕ) (g : Game s) (e : Fault (TickError s.Err)) (n : Game s)
      : Type 0 where
    refused : e ≡ returned not_in_a_valid_state → n ≡ g → Failed timestamp g e n
    before_submission :
        (store : s.Store) (receipts : GoMap String (EvmTxReceipt s.Bytes s.Err))
        → is_submission e ≡ false
        → n.world ≡ left_at store receipts (after_systems timestamp g)
        → Failed timestamp g e n
    in_submission :
        (store : s.Store) (receipts : GoMap String (EvmTxReceipt s.Bytes s.Err))
        (router : Option s.Router)
        → is_submission e ≡ true
        → s.finalize_tick (after_systems timestamp g).entity_store ≡ (ok tt, store)
        → n.world ≡ record (left_at store receipts (after_systems timestamp g)) { router = router }
        → Failed timestamp g e n

  run_registered-err :
      (timestamp : ℕ) (g : Game s) {e : Fault (TickError s.Err)} {n : Game s}
      → run_registered g.world.tx_pool (begun timestamp g) ≡ (err e, n)
      → Failed timestamp g e n
  unfolding run_registered
  run_registered-err timestamp g h =
      let r = run_systems g.world.tick g.systems (g.world.tx_pool, (begun timestamp g).world) in
      before_submission r.2.1.entity_store r.2.1.evm_tx_receipts
        (subst (λ t. submission_failed t ≡ false) (ap (λ t. t.0) h) (system-submission r.0))
        (sym (ap (λ t. t.1.world) h))

  finalize_store-err :
      (timestamp : ℕ) (g g3 : Game s) {e : Fault (TickError s.Err)} {n : Game s}
      → g3.world ≡ after_systems timestamp g
      → finalize_store g3 ≡ (err e, n)
      → Failed timestamp g e n
  unfolding finalize_store
  finalize_store-err timestamp g g3 w3 h =
      let r = s.finalize_tick g3.world.entity_store in
      before_submission r.1 g3.world.evm_tx_receipts
        (subst (λ t. submission_failed t ≡ false) (ap (λ t. t.0) h) (finalize-submission r.0))
        (sym (ap (λ t. t.1.world) h) ∙ ap (left_at r.1 g3.world.evm_tx_receipts) w3)

  set_results-err :
      (timestamp : ℕ) (g g4 : Game s) (store : s.Store) {e : Fault (TickError s.Err)} {n : Game s}
      → g4.world ≡ record (after_systems timestamp g) { entity_store = store }
      → set_results g.world.tx_pool g4 ≡ (err e, n)
      → Failed timestamp g e n
  unfolding set_results
  set_results-err timestamp g g4 store w4 h =
      let only = set_evm_results-OnlyEvm (TickError s.Err) (get_evm_txs g.world.tx_pool) g4.world in
      let receipts =
        (set_evm_results {E = TickError s.Err} (get_evm_txs g.world.tx_pool)
          g4.world).1.evm_tx_receipts in
      before_submission store receipts
        (subst (λ t. submission_failed t ≡ false) (ap (λ t. t.0) h) (panic-submission _ only.0))
        (sym (ap (λ t. t.1.world) h)
          ∙ only.1
          ∙ ap (λ (w : World s). record w { evm_tx_receipts = receipts }) w4)

  submit_to-world :
      (o : Option s.Router) (pool : Pool s) (g n : Game s) {r : _}
      → g.world.router ≡ o
      → submit_to o pool g ≡ (r, n)
      → n.world ≡ record g.world { router = n.world.router }
  submit_to-world none pool g n e h =
      subst (λ m. m.world ≡ record g.world { router = m.world.router }) (ap (λ t. t.1) h) refl
  submit_to-world (some router) pool g n e h =
      subst (λ m. m.world ≡ record g.world { router = m.world.router }) (ap (λ t. t.1) h) refl

  submit_to-submission :
      (o : Option s.Router) (pool : Pool s) (g n : Game s) {e : Fault (TickError s.Err)}
      → submit_to o pool g ≡ (err e, n)
      → is_submission e ≡ true
  submit_to-submission none pool g n h = cc (ap (λ t. t.0) h)
  submit_to-submission (some router) pool g n h =
      wrapped-submission
        (s.submit_tx_blob (transactions pool) g.world.tick g.world.timestamp router).0
        (ap (λ t. t.0) h)

  submit-submission :
      (pool : Pool s) (g n : Game s) {e : Fault (TickError s.Err)}
      → submit pool g ≡ (err e, n)
      → is_submission e ≡ true
  unfolding submit current
  submit-submission pool g n h = elim (Bool-cases (g.world.world_stage.current == recovering)) [
    | inl e ↦ cc (ap (λ t. t.0) (rw e at h))
    | inr e ↦ submit_to-submission g.world.router pool g n (rw e at h)
  ]

  submit-world :
      (pool : Pool s) (g n : Game s) {r : _}
      → submit pool g ≡ (r, n)
      → n.world ≡ record g.world { router = n.world.router }
  unfolding submit current
  submit-world pool g n h = elim (Bool-cases (g.world.world_stage.current == recovering)) [
    | inl e ↦
        subst (λ m. m.world ≡ record g.world { router = m.world.router })
          (ap (λ t. t.1) (rw e at h)) refl
    | inr e ↦ submit_to-world g.world.router pool g n refl (rw e at h)
  ]

  ticking-Failed :
      (timestamp : ℕ) (g : Game s) {e : Fault (TickError s.Err)} {n : Game s}
      → ticking timestamp g ≡ (err e, n)
      → Failed timestamp g e n
  unfolding ticking take_transactions store_timestamp copy_transactions modify
  ticking-Failed timestamp g {e = e} {n = n} h =
      let h1 = sym (bind-step take_transactions _ g refl) ∙ h in
      let h2 = sym (bind-step (store_timestamp timestamp) _ _ refl) ∙ h1 in
      elim (bind-err (run_registered g.world.tx_pool) _ _ h2) [
        | inl f ↦ run_registered-err timestamp g f
        | inr (_, g3, e3, h3) ↦
            let w3 = (run_registered-ok g.world.tx_pool _ e3).2 in
            elim (bind-err finalize_store _ g3 h3) [
              | inl f ↦ finalize_store-err timestamp g g3 w3 f
              | inr (_, g4, e4, h4) ↦
                  let (finalized, m4) = finalize_store-ok g3 e4 in
                  let r4 = s.finalize_tick g3.world.entity_store in
                  let store = (s.finalize_tick (after_systems timestamp g).entity_store).1 in
                  let w4 : g4.world ≡ record (after_systems timestamp g) { entity_store = store } =
                    ap (λ (m : Game s). m.world) m4
                    ∙ ap
                        (λ (w : World s). record w {
                          entity_store = (s.finalize_tick w.entity_store).1;
                        })
                        w3 in
                  elim (bind-err (set_results g.world.tx_pool) _ g4 h4) [
                    | inl f ↦ set_results-err timestamp g g4 store w4 f
                    | inr (_, g5, e5, h5) ↦
                        let m5 = set_results-ok g.world.tx_pool g4 e5 in
                        let w5 =
                          ap (λ (m : Game s). m.world) m5
                          ∙ ap
                              (λ (w : World s). record w {
                                evm_tx_receipts = g5.world.evm_tx_receipts;
                              })
                              w4 in
                        elim (bind-err (submit g.world.tx_pool) _ g5 h5) [
                          | inl f ↦
                              in_submission store g5.world.evm_tx_receipts n.world.router
                                (submit-submission g.world.tx_pool g5 n f)
                                (subst
                                  (λ (w : World s).
                                    s.finalize_tick w.entity_store
                                    ≡ (ok tt, (s.finalize_tick w.entity_store).1))
                                  w3 (λ i. (finalized i, r4.1)))
                                (submit-world g.world.tx_pool g5 n f
                                  ∙ ap (λ (w : World s). record w { router = n.world.router }) w5)
                          | inr (_, g6, e6, h6) ↦ let x = ap (λ t. t.0) h6 in cc
                        ]
                  ]
            ]
      ]

  pub do_tick-Failed :
      (timestamp : ℕ) (g : Game s) {e : Fault (TickError s.Err)} {n : Game s}
      → do_tick timestamp g ≡ (err e, n)
      → Failed timestamp g e n
  unfolding do_tick current
  do_tick-Failed timestamp g h = elim (Bool-cases (can_tick g.world.world_stage.current)) [
    | inl e ↦ ticking-Failed timestamp g (rw e at h)
    | inr e ↦ let k = (rw e at h) in refused (cc (ap (λ t. t.0) k)) (sym (ap (λ t. t.1) k))
  ]
