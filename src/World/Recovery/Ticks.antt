-- ===== src/World/Recovery/Ticks.antt =====
-- The ticks of a recovery of cardinal/world_recovery.go: where they lead, and that they send nothing out.
use world_engine.Base.{
  ℕ, zero, suc, ◌+◌, ◌^◌, ◌≤◌, ◌<◌, List, [], ◌∷◌, Bool, true, false, Option, ◌≡◌, refl, sym, ap,
  subst, ◌∙◌, nat_eq, ◌==◌, arith,
}
use world_engine.Base.Exec.{ok, bind-ok}
use world_engine.Receipt.Ring.{IsRing}
use world_engine.Worldstage.{recovering, stage_eq}
use world_engine.World.Types.{Services, Game, Pool, RecordedTick}
use world_engine.World.Tick.{do_tick, advance}
use world_engine.World.Tick.Laws.{
  Submitted, recovers, no_router, submits, do_tick-Ticked, wrap_fault-ok,
}
use world_engine.World.Tick.Access.{SystemsUseContext}
use world_engine.World.Tick.InStep.{
  CountsTicks, ran-Keeps, do_tick-Moves, do_tick-SystemsUseContext,
}
use world_engine.World.Tick.Announce.{is_recovering, broadcast_recovering}
use world_engine.World.Recovery.{recovery_tick, fast_forward, rounds_to, forward_to}

module _ {Any Tx : Type 0} where
  -- The recorded ticks come in order, from a given tick on, and below 2^64.
  abbrev pub AscendingFrom : ℕ → List (RecordedTick Any Tx) → Type 0
  AscendingFrom tick [] = Unit
  AscendingFrom tick (t ∷ ts) =
      (tick ≤ t.at_tick) × (t.at_tick + 1 < 2 ^ 64) × AscendingFrom (t.at_tick + 1) ts

  -- The tick after the last of them.
  abbrev pub tick_after : ℕ → List (RecordedTick Any Tx) → ℕ
  tick_after tick [] = tick
  tick_after tick (t ∷ ts) = tick_after (t.at_tick + 1) ts

module _ {s : Services} where
  -- A world in which the recovery runs.
  pub record IsRecovering (g : Game s) : Type 0 where
    pub stage : is_recovering g.world ≡ true
    pub stored : s.get_last_finalized_tick g.world.entity_store ≡ ok g.world.tick
    pub access : SystemsUseContext g
    pub ring : IsRing g.world.receipt_history

  -- Nothing was sent to the router or to the clients, and the stage is the same.
  pub record IsSilent (g n : Game s) : Type 0 where
    pub router : n.world.router ≡ g.world.router
    pub server : n.world.server ≡ g.world.server
    pub stage : n.world.world_stage ≡ g.world.world_stage

  pub refl-IsSilent : (g : Game s) → IsSilent g g
  refl-IsSilent g = record { router = refl; server = refl; stage = refl }

  pub trans-IsSilent : {g m n : Game s} → IsSilent g m → IsSilent m n → IsSilent g n
  trans-IsSilent a b = record {
    router = b.router ∙ a.router;
    server = b.server ∙ a.server;
    stage = b.stage ∙ a.stage;
  }

  -- A router after a submission while recovering.
  pub unsubmitted :
      {pool : Pool s} {is_rec : Bool} {router after : Option s.Router} {tick timestamp : ℕ}
      → is_rec ≡ true
      → Submitted s pool is_rec router tick timestamp after
      → after ≡ router
  unsubmitted e (recovers _ same) = same
  unsubmitted e (no_router a b) = b ∙ sym a
  unsubmitted e (submits r r' never a b c) = cc

  pub tick-IsSilent :
      (timestamp : ℕ) (g : Game s) {n : Game s}
      → SystemsUseContext g
      → is_recovering g.world ≡ true
      → n.world.world_stage ≡ g.world.world_stage
      → do_tick timestamp g ≡ (ok tt, n)
      → IsSilent g n
  unfolding advance
  tick-IsSilent timestamp g {n = n} access rec stage done =
      let t = do_tick-Ticked timestamp g done in
      let k = ran-Keeps timestamp g access t in
      let w = record t.ran {
        entity_store = t.store;
        evm_tx_receipts = t.receipts;
        router = t.router;
      } in
      let still : is_recovering t.ran ≡ true =
        ap (λ m. m.current == recovering) k.same_stage ∙ rec in
      let after = t.after ∙ broadcast_recovering (advance w) still in
      record {
        router = ap (λ u. u.router) after ∙ unsubmitted still t.submitted ∙ k.same_router;
        server = ap (λ u. u.server) after ∙ k.same_server;
        stage = stage;
      }

  -- How a part of the recovery that succeeds is to end, at a given tick.
  abbrev pub Arrives : ℕ → Game s → Game s → Type 0
  Arrives tick g n = (n.world.tick ≡ tick) × IsRecovering n × IsSilent g n

  pub trans-Arrives :
      {g m n : Game s} {t u : ℕ}
      → Arrives t g m
      → (IsRecovering m → m.world.tick ≡ t → Arrives u m n)
      → Arrives u g n
  trans-Arrives a f = let b = f a.1 a.0 in (b.0, b.1, trans-IsSilent a.2 b.2)

  module _ (law : CountsTicks s) where
    pub tick-Arrives :
        (timestamp : ℕ) (g : Game s) {u : Unit {0}} {n : Game s}
        → IsRecovering g
        → g.world.tick + 1 < 2 ^ 64
        → recovery_tick timestamp g ≡ (ok u, n)
        → Arrives (g.world.tick + 1) g n
    unfolding recovery_tick
    tick-Arrives timestamp g {n = n} h bound done =
        let r = do_tick timestamp g in
        let ticked : r ≡ (ok tt, n) =
          λ i. (wrap_fault-ok _ r.0 (ap (λ t. t.0) done) i, (done i).1) in
        let m = do_tick-Moves law timestamp g h.access h.stored bound ticked in
        (
          m.ticked,
          record {
            stage = ap (λ w. w.current == recovering) m.stage ∙ h.stage;
            stored = m.stored ∙ ap ok (sym m.ticked);
            access = do_tick-SystemsUseContext timestamp g h.access ticked;
            ring = m.ring h.ring;
          },
          tick-IsSilent timestamp g h.access h.stage m.stage ticked,
        )

    pub fast_forward-Arrives :
        (rounds tick timestamp : ℕ) (g : Game s) {u : Unit {0}} {n : Game s}
        → IsRecovering g
        → g.world.tick + rounds ≡ tick
        → tick < 2 ^ 64
        → fast_forward rounds tick timestamp g ≡ (ok u, n)
        → Arrives tick g n
    unfolding fast_forward
    fast_forward-Arrives zero tick timestamp g h e bound done =
        subst (λ m. Arrives tick g m) (ap (λ t. t.1) done) (omega arith, h, refl-IsSilent g)
    fast_forward-Arrives (suc rounds) tick timestamp g {n = n} h e bound done =
        let ne : (g.world.tick == tick) ≡ false = ground arith in
        let (_, m, first, rest) =
          bind-ok (recovery_tick timestamp) (λ _. fast_forward rounds tick timestamp) g
            (rw (ne, fast_forward) at done) in
        trans-Arrives {m = m} (tick-Arrives timestamp g {n = m} h (omega arith) first)
          λ h' at. fast_forward-Arrives rounds tick timestamp m h' (omega arith) bound rest

    pub forward_to-Arrives :
        (tick timestamp : ℕ) (g : Game s) {u : Unit {0}} {n : Game s}
        → IsRecovering g
        → g.world.tick ≤ tick
        → tick < 2 ^ 64
        → forward_to tick timestamp g ≡ (ok u, n)
        → Arrives tick g n
    unfolding forward_to
    forward_to-Arrives tick timestamp g h le bound done =
        fast_forward-Arrives (rounds_to tick g.world) tick timestamp g h (omega arith) bound done
