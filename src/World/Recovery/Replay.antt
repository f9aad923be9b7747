-- ===== src/World/Recovery/Replay.antt =====
-- Where a recovery of cardinal/world_recovery.go leads, and that it sends nothing out.
use world_engine.Base.{
  ℕ, ◌+◌, ◌^◌, ◌≤◌, ◌<◌, List, [], ◌∷◌, Bool, Option, none, some, ◌≡◌, refl, sym, ap, subst, ◌∙◌,
  nat_eq, if◌then◌else◌, arith, Bool-cases, inl, inr,
}
use world_engine.Base.Exec.{ok, ◌>>=◌, pure, fail, for_each, bind-ok, bind-step}
use world_engine.Worldstage.{stage_eq}
use world_engine.World.Systems.{returned}
use world_engine.Shard.Reader.{TxBatch}
use world_engine.World.Types.{Services, Game, Pool, RecordedTick}
use world_engine.World.Context.{world_add_transaction}
use world_engine.World.Tick.{put_world}
use world_engine.World.Tick.InStep.{CountsTicks}
use world_engine.World.Recovery.{
  context_cancelled, forward_to, add_batch, replay, replay_all, or_fail, recover_with,
  recover_from_chain,
}
use world_engine.World.Recovery.Ticks.{
  AscendingFrom, tick_after, IsRecovering, refl-IsSilent, Arrives, trans-Arrives, tick-Arrives,
  forward_to-Arrives,
}

module _ {s : Services} where
  -- The batches only fill the pool.
  filled :
      (batches : List (TxBatch s.Any s.Tx)) (g : Game s)
      → (p : Pool s) × (for_each batches add_batch g
          ≡ (ok tt, put_world (record g.world { tx_pool = p }) g))
  unfolding for_each add_batch ◌>>=◌ world_add_transaction
  filled [] g = (g.world.tx_pool, refl)
  filled (b ∷ batches) g = filled batches _

  or_fail-same :
      (last : Option s.Err) (m : Game s) {n : Game s} → or_fail last m ≡ (ok tt, n) → m ≡ n
  unfolding pure fail
  or_fail-same none m h = ap (λ t. t.1) h
  or_fail-same (some e) m h = cc (ap (λ t. t.0) h)

  module _ (law : CountsTicks s) where
    replay-Arrives :
        (t : RecordedTick s.Any s.Tx) (g : Game s) {u : Unit {0}} {n : Game s}
        → IsRecovering g
        → g.world.tick ≤ t.at_tick
        → t.at_tick + 1 < 2 ^ 64
        → replay t g ≡ (ok u, n)
        → Arrives (t.at_tick + 1) g n
    unfolding replay
    replay-Arrives t g {n = n} h le bound done =
        let (_, m, e1, h1) = bind-ok (forward_to t.at_tick t.timestamp) _ g done in
        let (pool, added) = filled t.batches m in
        let h2 = sym (bind-step (for_each t.batches add_batch) _ m added) ∙ h1 in
        let there = forward_to-Arrives law t.at_tick t.timestamp g h le (omega arith) e1 in
        let m' = put_world (record m.world { tx_pool = pool }) m in
        trans-Arrives there λ r at.
          let again : IsRecovering m' = record {
            stage = r.stage;
            stored = r.stored;
            access = r.access;
            ring = r.ring;
          } in
          let last = tick-Arrives law t.timestamp m' again (omega arith) h2 in
          (
            last.0 ∙ ap (λ (x : ℕ). x + 1) at,
            last.1,
            record { router = last.2.router; server = last.2.server; stage = last.2.stage },
          )

    replay_all-Arrives :
        (is_done : ℕ → Bool) (i : ℕ) (ts : List (RecordedTick s.Any s.Tx)) (g : Game s)
        {u : Unit {0}} {n : Game s}
        → IsRecovering g
        → AscendingFrom g.world.tick ts
        → replay_all is_done i ts g ≡ (ok u, n)
        → Arrives (tick_after g.world.tick ts) g n
    unfolding replay_all
    replay_all-Arrives is_done i [] g h asc done =
        subst (λ m. Arrives g.world.tick g m) (ap (λ t. t.1) done) (refl, h, refl-IsSilent g)
    replay_all-Arrives is_done i (t ∷ ts) g {n = n} h asc done =
        let (_, m, e1, h1) =
          bind-ok (if is_done i then fail (returned context_cancelled) else replay t)
            (λ _. replay_all is_done (i + 1) ts) g done in
        elim (Bool-cases (is_done i)) [
          | inl e ↦ let never = rw e at e1 in cc
          | inr e ↦ trans-Arrives (replay-Arrives t g h asc.0 asc.1 (rw e at e1)) λ h' at.
              subst (λ (x : ℕ). Arrives (tick_after x ts) m n) at
                (replay_all-Arrives is_done (i + 1) ts m h'
                  (subst (λ (x : ℕ). AscendingFrom x ts) (sym at) asc.2) h1)
        ]

    -- Let the router's iterator hand on recorded ticks in ascending order from the tick of the world
    -- on, all below 2^64, the systems work through their context, and a FinalizeTick that succeeds
    -- count one tick. Then a recovery that succeeds, of a recovering world whose store has finalized
    -- its tick, ends at the tick after the last recorded one, finalized in the store too, with the
    -- stage as it was; and it has given the router nothing and has sent the clients nothing.
    pub recover_from_chain-Arrives :
        (is_done : ℕ → Bool) (g : Game s) (router : s.Router) {n : Game s}
        → IsRecovering g
        → g.world.router ≡ some router
        → let ticks = (s.transaction_iterator router g.world.tick).0 in
          AscendingFrom g.world.tick ticks
          → recover_from_chain is_done g ≡ (ok tt, n)
          → Arrives (tick_after g.world.tick ticks) g n
    unfolding recover_from_chain
    recover_from_chain-Arrives is_done g router {n = n} h e asc done =
        let (ticks, last) = s.transaction_iterator router g.world.tick in
        let (_, m, e1, h1) =
          bind-ok (replay_all is_done 0 ticks) (λ _. or_fail last) g
            (subst (λ o. recover_with is_done o g ≡ (ok tt, n)) e done) in
        subst (λ m. Arrives (tick_after g.world.tick ticks) g m) (or_fail-same last m h1)
          (replay_all-Arrives is_done 0 ticks g h asc e1)
