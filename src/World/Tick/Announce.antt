-- ===== src/World/Tick/Announce.antt =====
-- What a doTick of cardinal/world.go sends out: the transactions to the router, the results to the
-- clients of the server.
use world_engine.Base.{
  ℕ, ◌+◌, ◌-◌, ◌%◌, ◌^◌, ◌<◌, [], Bool, true, false, Option, ◌≡◌, refl, sym, ap, subst, ◌∙◌, ◌==◌,
  nat_eq, if◌then◌else◌, arith, Bool-cases, inl, inr, leb,
}
use world_engine.Base.GoMap.{values}
use world_engine.Base.Exec.{ok}
use world_engine.TxPool.{reset}
use world_engine.Receipt.{History, at, next_tick, get_receipts_for_tick}
use world_engine.Receipt.Ring.{IsRing, receipts_window, run}
use world_engine.Worldstage.{Manager, recovering, stage_eq, current}
use world_engine.World.Systems.{run_systems}
use world_engine.World.Types.{
  Services, World, Game, TickResults, set_receipts, set_results_tick, clear,
}
use world_engine.World.Tick.{do_tick, advance, broadcast, broadcast_tick_results}
use world_engine.World.Tick.Laws.{Submitted, do_tick-Ticked}
use world_engine.World.Tick.Access.{SystemsUseContext, Keeps}
use world_engine.World.Tick.InStep.{ran-Keeps}

-- The receipts of a tick that has just ended, in a history of two places or more.
ended_receipts :
    {Any Err : Type 0} (h : History Any Err)
    → IsRing h
    → 1 < h.ticks_to_store
    → h.curr_tick + 1 < 2 ^ 64
    → get_receipts_for_tick h.curr_tick (next_tick h)
      ≡ ok (values (at (h.curr_tick % h.ticks_to_store) h))
unfolding run
ended_receipts h r two bound =
    let young : leb h.ticks_to_store (1 + 0) ≡ false = ground arith in
    (receipts_window [] h (omega arith) r).1 ∙ rw young refl

-- `w.CurrentTick() - 1`
last_tick : (t : ℕ) → t + 1 < 2 ^ 64 → ((t + 1) % 2 ^ 64 + (2 ^ 64 - 1)) % 2 ^ 64 ≡ t
last_tick t h = omega arith

module _ {s : Services} where
  abbrev pub is_recovering : World s → Bool
  is_recovering w = w.world_stage.current == recovering

  -- The tick results that the clients are sent: the tick, the receipts as the systems left them, and
  -- the events.
  abbrev pub results_of : ℕ → World s → TickResults s.Any s.Err s.Bytes
  results_of tick w = record {
    tick = tick;
    receipts = values (at (tick % w.receipt_history.ticks_to_store) w.receipt_history);
    events = w.tick_results.events;
  }

  pub record Announced (timestamp : ℕ) (g n : Game s) : Type 0 where
    pub ran : World s
    pub systems_ran :
        (run_systems g.world.tick g.systems (
          g.world.tx_pool,
          record g.world { tx_pool = reset g.world.tx_pool; timestamp = timestamp },
        )).2.1
        ≡ ran
    pub submitted :
        Submitted s g.world.tx_pool
          (is_recovering g.world)
          g.world.router
          g.world.tick
          timestamp
          n.world.router
    pub sent : n.world.server ≡ (
        if is_recovering g.world
        then g.world.server
        else (s.broadcast_event (results_of g.world.tick ran) g.world.server).1)
    pub events :
        n.world.tick_results.events
        ≡ (if is_recovering g.world then ran.tick_results.events else [])

  -- What follows the submission, in a world `w` whose receipts are at its tick.
  broadcast_after :
      (w : World s)
      → w.receipt_history.curr_tick ≡ w.tick
      → IsRing w.receipt_history
      → 1 < w.receipt_history.ticks_to_store
      → w.tick + 1 < 2 ^ 64
      → is_recovering w ≡ false
      → ((broadcast (advance w)).server ≡ (s.broadcast_event (results_of w.tick w) w.server).1)
        × ((broadcast (advance w)).tick_results.events ≡ [])
        × ((broadcast (advance w)).router ≡ w.router)
  unfolding broadcast broadcast_tick_results advance set_receipts set_results_tick clear current
  broadcast_after w curr r two bound e =
      let receipts =
        subst
          (λ (t : ℕ).
            get_receipts_for_tick t (next_tick w.receipt_history)
            ≡ ok (values (at (t % w.receipt_history.ticks_to_store) w.receipt_history)))
          curr (ended_receipts w.receipt_history r two (omega arith)) in
      rw e (rw (last_tick w.tick bound) (rw receipts (refl, refl, refl)))

  pub broadcast_recovering : (w : World s) → is_recovering w ≡ true → broadcast w ≡ w
  unfolding broadcast current
  broadcast_recovering w e = rw e refl

  -- The world that advances, and the world that comes of it.
  abbrev Advanced : Game s → World s → World s → World s → Type 0
  Advanced g ran w u =
      (u.router ≡ w.router)
      × (u.server ≡ (
          if is_recovering g.world
          then g.world.server
          else (s.broadcast_event (results_of g.world.tick ran) g.world.server).1))
      × (u.tick_results.events ≡ (if is_recovering g.world then ran.tick_results.events else []))

  advanced :
      (g : Game s) (w0 ran : World s) (store : s.Store) (receipts : _) (router : Option s.Router)
      → Keeps w0 ran
      → w0.tick ≡ g.world.tick
      → w0.world_stage ≡ g.world.world_stage
      → w0.server ≡ g.world.server
      → ran.receipt_history.curr_tick ≡ ran.tick
      → IsRing ran.receipt_history
      → 1 < ran.receipt_history.ticks_to_store
      → g.world.tick + 1 < 2 ^ 64
      → let w = record ran { entity_store = store; evm_tx_receipts = receipts; router = router } in
        Advanced g ran w (broadcast (advance w))
  unfolding advance
  advanced g w0 ran store receipts router k tick stage server curr r two bound =
      let w = record ran { entity_store = store; evm_tx_receipts = receipts; router = router } in
      let ticks : ran.tick ≡ g.world.tick = k.same_tick ∙ tick in
      let servers : ran.server ≡ g.world.server = k.same_server ∙ server in
      let stages : is_recovering ran ≡ is_recovering g.world =
        ap (λ m. m.current == recovering) (k.same_stage ∙ stage) in
      elim (Bool-cases (is_recovering g.world)) [
        | inl e ↦
            let same = broadcast_recovering (advance w) (stages ∙ e) in
            rw e (
              ap (λ u. u.router) same,
              ap (λ u. u.server) same ∙ servers,
              ap (λ u. u.tick_results.events) same,
            )
        | inr e ↦
            let (a, b, c) = broadcast_after w curr r two (omega arith) (stages ∙ e) in
            rw e (
              c,
              a
                  ∙ ap (λ (t : ℕ). (s.broadcast_event (results_of t ran) ran.server).1) ticks
                  ∙ ap (λ v. (s.broadcast_event (results_of g.world.tick ran) v).1) servers,
              b,
            )
      ]

  -- From a world whose receipts are at its tick, in a history of two ticks or more, a doTick that
  -- succeeds, with systems that work through their context, does the following, `ran` being the world
  -- as the systems left it. While the world recovers it calls neither the router nor the server, and
  -- keeps the events. Otherwise it hands the transactions taken from the pool to the router, if there
  -- is one, under the tick's number and timestamp, and sends the clients the tick's number with all
  -- the receipts that the systems made in it and all the events, which are then dropped. (No tick
  -- reaches 2^64.)
  pub do_tick-Announced :
      (timestamp : ℕ) (g : Game s) {n : Game s}
      → SystemsUseContext g
      → g.world.receipt_history.curr_tick ≡ g.world.tick
      → IsRing g.world.receipt_history
      → 1 < g.world.receipt_history.ticks_to_store
      → g.world.tick + 1 < 2 ^ 64
      → do_tick timestamp g ≡ (ok tt, n)
      → Announced timestamp g n
  do_tick-Announced timestamp g {n = n} access counted ring two bound done =
      let t = do_tick-Ticked timestamp g done in
      let k = ran-Keeps timestamp g access t in
      let w0 = record g.world { tx_pool = reset g.world.tx_pool; timestamp = timestamp } in
      let (a, b, c) =
        advanced g w0 t.ran t.store t.receipts t.router k refl refl refl
          (k.same_curr ∙ counted ∙ sym k.same_tick) (k.still_ring ring)
          (subst (λ (x : ℕ). 1 < x) (sym k.same_size) two) bound in
      let routed : t.router ≡ n.world.router = sym (ap (λ u. u.router) t.after ∙ a) in
      record {
        ran = t.ran;
        systems_ran = ap (λ r. r.2.1) t.systems_ran;
        submitted =
            subst
              (λ (p : Manager × Option s.Router × ℕ × ℕ × Option s.Router).
                Submitted s g.world.tx_pool (p.0.current == recovering) p.1 p.2 p.3 p.4)
              (λ i. (k.same_stage i, k.same_router i, k.same_tick i, k.same_timestamp i, routed i))
              t.submitted;
        sent = ap (λ u. u.server) t.after ∙ b;
        events = ap (λ u. u.tick_results.events) t.after ∙ c;
      }
