-- ===== src/World/Tick/InStep.antt =====
-- The tick of the world, the tick of its receipts and the last finalized tick of its store: doTick of
-- cardinal/world.go moves them together.
use world_engine.Base.{
  ℕ, ◌+◌, ◌%◌, ◌<◌, ◌^◌, ◌≡◌, refl, sym, ap, subst, ◌∙◌, ◌==◌, nat_eq, arith, Bool-cases, inl, inr,
  length-set,
}
use world_engine.Base.Exec.{ok}
use world_engine.TxPool.{reset}
use world_engine.Receipt.{History, next_tick}
use world_engine.Receipt.Ring.{IsRing}
use world_engine.Worldstage.{recovering, stage_eq, current}
use world_engine.World.Systems.{SystemManager, run_systems}
use world_engine.World.Types.{Running, Services, World, Game}
use world_engine.World.Tick.{do_tick, advance, broadcast, broadcast_tick_results}
use world_engine.World.Tick.Laws.{Ticked, do_tick-Ticked}
use world_engine.World.Tick.Access.{AllUseContext, SystemsUseContext, Keeps, run_systems-Keeps}

-- What the world relies on in its store: a FinalizeTick that succeeds adds one to the last finalized
-- tick.
pub record CountsTicks (s : Services) : Type 0 where
  pub counts :
      (store store' : s.Store) (t : ℕ)
      → s.get_last_finalized_tick store ≡ ok t
      → s.finalize_tick store ≡ (ok tt, store')
      → s.get_last_finalized_tick store' ≡ ok (t + 1)

next_tick-IsRing : {Any Err : Type 0} (h : History Any Err) → IsRing h → IsRing (next_tick h)
unfolding next_tick
next_tick-IsRing h r = record {
  whole = length-set h.history _ _ ∙ r.whole;
  some_place = r.some_place;
}

module _ {s : Services} where
  pub record IsInStep (w : World s) : Type 0 where
    pub stored : s.get_last_finalized_tick w.entity_store ≡ ok w.tick
    pub counted : w.receipt_history.curr_tick ≡ w.tick
    pub ring : IsRing w.receipt_history

  -- The rest of a world that broadcastTickResults leaves alone.
  pub broadcast-world :
      (w : World s)
      → broadcast w
        ≡ record w { server = (broadcast w).server; tick_results = (broadcast w).tick_results }
  unfolding broadcast broadcast_tick_results
  broadcast-world w = elim (Bool-cases (current w.world_stage == recovering)) [
    | inl e ↦ rw e refl
    | inr e ↦ rw e refl
  ]

  -- The world after the systems, against the world before the tick.
  pub ran-Keeps :
      (timestamp : ℕ) (g : Game s) {n : Game s}
      → SystemsUseContext g
      → (t : Ticked timestamp g n)
      → Keeps (record g.world { tx_pool = reset g.world.tx_pool; timestamp = timestamp }) t.ran
  ran-Keeps timestamp g access t =
      let w = record g.world { tx_pool = reset g.world.tx_pool; timestamp = timestamp } in
      subst (Keeps w) (ap (λ r. r.2.1) t.systems_ran)
        (run_systems-Keeps g.world.tick g.systems g.world.tx_pool w access)

  -- What moves in a tick and what stays.
  pub record Moves (g n : Game s) : Type 0 where
    pub ticked : n.world.tick ≡ g.world.tick + 1
    pub stored : s.get_last_finalized_tick n.world.entity_store ≡ ok (g.world.tick + 1)
    pub curr : n.world.receipt_history.curr_tick ≡ (g.world.receipt_history.curr_tick + 1) % 2 ^ 64
    pub ring : IsRing g.world.receipt_history → IsRing n.world.receipt_history
    pub stage : n.world.world_stage ≡ g.world.world_stage

  pub do_tick-Moves :
      CountsTicks s
      → (timestamp : ℕ) (g : Game s) {n : Game s} → SystemsUseContext g
      → s.get_last_finalized_tick g.world.entity_store ≡ ok g.world.tick
      → g.world.tick + 1 < 2 ^ 64
      → do_tick timestamp g ≡ (ok tt, n)
      → Moves g n
  unfolding advance next_tick
  do_tick-Moves law timestamp g {n = n} access last bound done =
      let t = do_tick-Ticked timestamp g done in
      let k = ran-Keeps timestamp g access t in
      let w = record t.ran {
        entity_store = t.store;
        evm_tx_receipts = t.receipts;
        router = t.router;
      } in
      let after = t.after ∙ broadcast-world (advance w) in
      let tick : (t.ran.tick + 1) % 2 ^ 64 ≡ g.world.tick + 1 =
        let e = k.same_tick in omega arith in
      record {
        ticked = ap (λ u. u.tick) after ∙ tick;
        stored =
            ap (λ u. s.get_last_finalized_tick u.entity_store) after
            ∙ law.counts t.ran.entity_store t.store g.world.tick (k.same_last ∙ last) t.finalized;
        curr =
            ap (λ u. u.receipt_history.curr_tick) after
            ∙ ap (λ (x : ℕ). (x + 1) % 2 ^ 64) k.same_curr;
        ring = λ r.
            subst (λ (u : World s). IsRing u.receipt_history) (sym after)
              (next_tick-IsRing t.ran.receipt_history (k.still_ring r));
        stage = ap (λ u. u.world_stage) after ∙ k.same_stage;
      }

  -- Where the systems work through their context and a FinalizeTick that succeeds counts one tick,
  -- a doTick that succeeds moves the tick of the world, the current tick of the receipts and the
  -- last finalized tick of the store together by one, from a world in which the three agree to such a
  -- world. (No tick reaches 2^64.)
  pub do_tick-IsInStep :
      CountsTicks s
      → (timestamp : ℕ) (g : Game s) {n : Game s} → SystemsUseContext g
      → IsInStep g.world
      → g.world.tick + 1 < 2 ^ 64
      → do_tick timestamp g ≡ (ok tt, n)
      → IsInStep n.world × (n.world.tick ≡ g.world.tick + 1)
  do_tick-IsInStep law timestamp g {n = n} access h bound done =
      let m = do_tick-Moves law timestamp g access h.stored bound done in
      let tick : n.world.tick ≡ g.world.tick + 1 = m.ticked in
      let curr : (g.world.receipt_history.curr_tick + 1) % 2 ^ 64 ≡ g.world.tick + 1 =
        let e = h.counted in omega arith in
      (
        record {
          stored = m.stored ∙ ap ok (sym tick);
          counted = m.curr ∙ curr ∙ sym tick;
          ring = m.ring h.ring;
        },
        tick,
      )

  -- The systems that are registered stay registered.
  pub do_tick-SystemsUseContext :
      (timestamp : ℕ) (g : Game s) {n : Game s}
      → SystemsUseContext g
      → do_tick timestamp g ≡ (ok tt, n)
      → SystemsUseContext n
  unfolding run_systems
  do_tick-SystemsUseContext timestamp g {n = n} access done =
      let t = do_tick-Ticked timestamp g done in
      subst
        (λ (m : SystemManager s.Err (Running s)).
          AllUseContext m.registered_init_systems × AllUseContext m.registered_systems)
        (ap (λ r. r.1) t.systems_ran) access
