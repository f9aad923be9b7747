-- ===== src/World/Lifecycle/Start.antt =====
-- Starting a game, cardinal/world.go: the world is in step when the loop begins.
use world_engine.Base.{
  ℕ, Bool, true, false, ◌&&◌, Option, none, some, is_some, ◌≡◌, refl, sym, ap, subst, ◌∙◌, ◌==◌,
  arith, Bool-cases, Option-cases, inl, inr,
}
use world_engine.Base.Exec.{Result, ok, err, Exec, ◌>>◌, bind-ok}
use world_engine.Receipt.{set_tick}
use world_engine.Receipt.Ring.{IsRing}
use world_engine.Worldstage.{
  Stage, stage_eq, recovering, running, Outcome, done, panic, Manager, close, store, current,
}
use world_engine.World.Types.{Services, Game}
use world_engine.World.Tick.Laws.{wrap_fault-ok}
use world_engine.World.Tick.Access.{SystemsUseContext}
use world_engine.World.Tick.InStep.{CountsTicks, IsInStep}
use world_engine.World.Recovery.{recover_from_chain}
use world_engine.World.Recovery.Ticks.{IsRecovering, AscendingFrom}
use world_engine.World.Recovery.Replay.{recover_from_chain-Arrives}
use world_engine.World.Lifecycle.{
  StartError, failed_to_start_router_service, failed_to_register_game_shard,
  failed_to_recover_from_chain, is_game_running, put_stage, swapped, stored, enter_starting, enter,
  load_components, on_router, start_router, put_tick, load_tick, recover, sync_receipts, boot,
}

-- The router's iterator hands on recorded ticks in ascending order, from the tick it is asked for.
abbrev pub IteratesInOrder : Services → Type 0
IteratesInOrder s =
    (router : s.Router) (tick : ℕ) → AscendingFrom tick (s.transaction_iterator router tick).0

store-current :
    (stage : Stage) (m : Manager) {n : Manager} → store stage m ≡ done n → n.current ≡ stage
unfolding store close
store-current stage m {n = n} h = elim (Bool-cases (m.at_stage stage)) [
  | inl e ↦ let k = (rw e at h) in cc
  | inr e ↦ let k = (rw e at h) in cc
]

module _ {s : Services} where
  -- What the steps of StartGame leave alone.
  record Kept (g n : Game s) : Type 0 where
    access : SystemsUseContext g → SystemsUseContext n
    ring : IsRing g.world.receipt_history → IsRing n.world.receipt_history

  abbrev same : (g : Game s) → Kept g g
  same g = record { access = λ h. h; ring = λ h. h }

  trans-Kept : {g m n : Game s} → Kept g m → Kept m n → Kept g n
  trans-Kept a b = record { access = λ h. b.access (a.access h); ring = λ h. b.ring (a.ring h) }

  stored-at :
      (o : Outcome Manager) (g : Game s) {u : Unit {0}} {n : Game s}
      → stored o g ≡ (ok u, n)
      → (m : Manager) × (o ≡ done m) × (n ≡ put_stage m g)
  stored-at panic g h = let x = ap (λ t. t.0) h in cc
  stored-at (done m) g h = (m, refl, sym (ap (λ t. t.1) h))

  enter-at :
      (stage : Stage) (g : Game s) {u : Unit {0}} {n : Game s}
      → enter stage g ≡ (ok u, n)
      → (m : Manager) × (m.current ≡ stage) × (n ≡ put_stage m g)
  unfolding enter
  enter-at stage g h =
      let (m, e, put) = stored-at (store stage g.world.world_stage) g h in
      (m, store-current stage g.world.world_stage e, put)

  swapped-Kept :
      (o : Outcome (Bool × Manager)) (g : Game s) {u : Unit {0}} {n : Game s}
      → swapped o g ≡ (ok u, n)
      → Kept g n
  swapped-Kept panic g h = let x = ap (λ t. t.0) h in cc
  swapped-Kept (done (true, m)) g h =
      subst (Kept g) (ap (λ t. t.1) h) (record { access = λ h. h; ring = λ h. h })
  swapped-Kept (done (false, m)) g h = let x = ap (λ t. t.0) h in cc

  on_router-Kept :
      (call : Exec s.Err s.Router (Unit {0})) (f : s.Err → StartError s.Err) (o : Option s.Router)
      (g : Game s) {u : Unit {0}} {n : Game s}
      → on_router call f o g ≡ (ok u, n)
      → Kept g n
  on_router-Kept call f none g h = subst (Kept g) (ap (λ t. t.1) h) (same g)
  on_router-Kept call f (some r) g h =
      subst (Kept g) (ap (λ t. t.1) h) (record { access = λ h. h; ring = λ h. h })

  -- The steps before the stage of recovery.
  opened :
      (g : Game s) {u v w : Unit {0}} {g1 g2 g3 : Game s}
      → enter_starting g ≡ (ok u, g1)
      → load_components g1 ≡ (ok v, g2)
      → start_router g2 ≡ (ok w, g3)
      → Kept g g3
  unfolding enter_starting load_components start_router
  opened g {g1 = g1} {g2 = g2} a b c =
      let k1 = swapped-Kept _ g a in
      let k2 = subst (Kept g1) (ap (λ t. t.1) b) (record { access = λ h. h; ring = λ h. h }) in
      let (_, g', e, f) =
        bind-ok (λ g. on_router s.start failed_to_start_router_service g.world.router g)
          (λ _ g. on_router s.register_game_shard failed_to_register_game_shard g.world.router g) g2
          c in
      trans-Kept k1 (
        trans-Kept k2 (
          trans-Kept (on_router-Kept s.start _ g2.world.router g2 e)
            (on_router-Kept s.register_game_shard _ g'.world.router g' f)))

  -- With the last finalized tick loaded, the world is as a recovery wants it.
  loaded :
      (g : Game s) (o : Result s.Err ℕ) {u : Unit {0}} {n : Game s}
      → o ≡ s.get_last_finalized_tick g.world.entity_store
      → g.world.world_stage.current ≡ recovering
      → SystemsUseContext g
      → IsRing g.world.receipt_history
      → put_tick o g ≡ (ok u, n)
      → IsRecovering n
  loaded g (err e) last stage access ring h = let x = ap (λ t. t.0) h in cc
  loaded g (ok t) last stage access ring h = subst IsRecovering (ap (λ t. t.1) h) (record {
    stage = ap (λ c. c == recovering) stage;
    stored = sym last;
    access = access;
    ring = ring;
  })

  recovered :
      CountsTicks s
      → IteratesInOrder s
      → (is_done : ℕ → Bool) (g : Game s) {u : Unit {0}} {n : Game s} → IsRecovering g
      → recover is_done g ≡ (ok u, n)
      → IsRecovering n
  unfolding recover
  recovered law order is_done g {n = n} h found =
      elim (Bool-cases (g.world.rollup_enabled && is_some g.world.router)) [
        | inr e ↦ subst IsRecovering (ap (λ t. t.1) (rw e at found)) h
        | inl e ↦
            let r = recover_from_chain is_done g in
            let all = (rw e at found) in
            let ended : r ≡ (ok tt, n) = λ i.
              (wrap_fault-ok failed_to_recover_from_chain r.0 (ap (λ t. t.0) all) i, (all i).1) in
            elim (Option-cases g.world.router) [
              | inl none_there ↦ ground (arith, e, none_there)
              | inr (router, there) ↦
                  (recover_from_chain-Arrives law is_done g router h there
                    (order router g.world.tick) ended).1
            ]
      ]

  abbrev InPlace : Game s → Type 0
  InPlace n = IsInStep n.world × SystemsUseContext n × (is_game_running n.world ≡ true)

  -- The receipts are set to the tick that was recovered.
  synced :
      (g : Game s) {u v : Unit {0}} {m n : Game s}
      → IsRecovering g
      → sync_receipts g ≡ (ok u, m)
      → enter running m ≡ (ok v, n)
      → InPlace n
  unfolding sync_receipts set_tick is_game_running current
  synced g {m = m} h a b =
      let (stage, at, put) = enter-at running m b in
      let step : IsInStep m.world =
        subst (λ (t : Game s). IsInStep t.world) (ap (λ t. t.1) a)
          (record {
            stored = h.stored;
            counted = refl;
            ring = record { whole = h.ring.whole; some_place = h.ring.some_place };
          }) in
      let access = subst SystemsUseContext (ap (λ t. t.1) a) h.access in
      subst InPlace (sym put) (
        record { stored = step.stored; counted = step.counted; ring = step.ring },
        access,
        ap (λ c. c == running) at,
      )

  -- The stage of recovery, with the last finalized tick.
  ready_to_recover :
      (g : Game s) {u v : Unit {0}} {m n : Game s}
      → SystemsUseContext g
      → IsRing g.world.receipt_history
      → enter recovering g ≡ (ok u, m)
      → load_tick m ≡ (ok v, n)
      → IsRecovering n
  unfolding load_tick
  ready_to_recover g {m = m} access ring a b =
      let (stage, at, put) = enter-at recovering g a in
      loaded m (s.get_last_finalized_tick m.world.entity_store) refl
        (ap (λ (t : Game s). t.world.world_stage.current) put ∙ at)
        (subst SystemsUseContext (sym put) access)
        (subst (λ (t : Game s). IsRing t.world.receipt_history) (sym put) ring) b

  -- StartGame reaches its loop, if it does, in the stage Running and with the world, its receipts and
  -- its store in step, from a world with systems that work through their context and a history of
  -- receipts. (A FinalizeTick that succeeds counts one tick, and the router's iterator hands on
  -- recorded ticks in ascending order, below 2^64, from the tick that it is asked for.)
  pub boot-IsInStep :
      CountsTicks s
      → IteratesInOrder s
      → (is_done : ℕ → Bool) (g : Game s) {n : Game s} → SystemsUseContext g
      → IsRing g.world.receipt_history
      → boot is_done g ≡ (ok tt, n)
      → IsInStep n.world × SystemsUseContext n × (is_game_running n.world ≡ true)
  unfolding boot
  boot-IsInStep law order is_done g access ring h =
      let (_, g1, e1, h1) = bind-ok enter_starting _ g h in
      let (_, g2, e2, h2) = bind-ok load_components _ g1 h1 in
      let (_, g3, e3, h3) = bind-ok start_router _ g2 h2 in
      let (_, g4, e4, h4) = bind-ok (enter recovering) _ g3 h3 in
      let (_, g5, e5, h5) = bind-ok load_tick _ g4 h4 in
      let (_, g6, e6, h6) = bind-ok (recover is_done) (λ _. sync_receipts >> enter running) g5 h5 in
      let (_, g7, e7, h7) = bind-ok sync_receipts (λ _. enter running) g6 h6 in
      let k = opened g e1 e2 e3 in
      synced g6
        (recovered law order is_done g5 (ready_to_recover g3 (k.access access) (k.ring ring) e4 e5)
          e6)
        e7 h7
