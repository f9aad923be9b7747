-- ===== src/World/Tick/Unadvanced.antt =====
-- What a doTick of cardinal/world.go that fails leaves as it was, and what it does not.
use world_engine.Base.{ℕ, ◌+◌, true, false, Option, ◌≡◌, refl, ap, ◌∙◌, nat_eq}
use world_engine.Base.Exec.{ok, err}
use world_engine.Worldstage.{stage_eq}
use world_engine.World.Systems.{Fault}
use world_engine.World.Types.{Services, World, Game, TickError}
use world_engine.World.Tick.{do_tick}
use world_engine.World.Tick.Laws.{begun}
use world_engine.World.Tick.Access.{SystemsUseContext, Keeps, run_systems-Keeps}
use world_engine.World.Tick.InStep.{IsInStep, CountsTicks}
use world_engine.World.Tick.Failure.{
  is_submission, after_systems, left_at, refused, before_submission, in_submission, do_tick-Failed,
}

module _ {s : Services} where
  -- What a doTick that failed leaves as it was.
  abbrev pub IsUnadvanced : Game s → Game s → Type 0
  IsUnadvanced g n =
      (n.world.tick ≡ g.world.tick)
      × (n.world.receipt_history.curr_tick ≡ g.world.receipt_history.curr_tick)
      × (n.world.server ≡ g.world.server)
      × (n.world.world_stage ≡ g.world.world_stage)

  systems-Keeps :
      (timestamp : ℕ) (g : Game s)
      → SystemsUseContext g
      → Keeps (begun timestamp g).world (after_systems timestamp g)
  systems-Keeps timestamp g access =
      run_systems-Keeps g.world.tick g.systems g.world.tx_pool (begun timestamp g).world access

  kept-IsUnadvanced :
      (timestamp : ℕ) (g n : Game s) (w : World s) (store : s.Store) (receipts : _)
      (router : Option s.Router)
      → Keeps (begun timestamp g).world w
      → n.world ≡ record (left_at store receipts w) { router = router }
      → IsUnadvanced g n
  kept-IsUnadvanced timestamp g n w store receipts router k e = (
    ap (λ u. u.tick) e ∙ k.same_tick,
    ap (λ u. u.receipt_history.curr_tick) e ∙ k.same_curr,
    ap (λ u. u.server) e ∙ k.same_server,
    ap (λ u. u.world_stage) e ∙ k.same_stage,
  )

  -- A doTick that fails, by whatever error or panic, with systems that work through their context,
  -- has not moved the tick of the world or of its receipts, has sent nothing to the clients, and has
  -- left the stage; and unless it is the router that failed, it has not changed the router.
  pub do_tick-IsUnadvanced :
      (timestamp : ℕ) (g : Game s) {e : Fault (TickError s.Err)} {n : Game s}
      → SystemsUseContext g
      → do_tick timestamp g ≡ (err e, n)
      → IsUnadvanced g n × (is_submission e ≡ false → n.world.router ≡ g.world.router)
  do_tick-IsUnadvanced timestamp g {n = n} access h =
      let k = systems-Keeps timestamp g access in
      elim (do_tick-Failed timestamp g h) [
        | refused e same ↦ rw same ((refl, refl, refl, refl), λ _. refl)
        | before_submission store receipts e w ↦ (
          kept-IsUnadvanced timestamp g n (after_systems timestamp g) store receipts
              (after_systems timestamp g).router k w,
          λ _. ap (λ u. u.router) w ∙ k.same_router,
        )
        | in_submission store receipts router e f w ↦ (
          kept-IsUnadvanced timestamp g n (after_systems timestamp g) store receipts router k w,
          λ never. cc,
        )
      ]

  -- But where the router fails, in a world in step, the store has already finalized the tick: its last
  -- finalized tick is one more than the tick of the world. (A FinalizeTick that succeeds counts one
  -- tick, and the systems work through their context.)
  pub failed_submission_finalizes :
      CountsTicks s
      → (timestamp : ℕ) (g : Game s) {e : Fault (TickError s.Err)} {n : Game s}
      → SystemsUseContext g
      → IsInStep g.world
      → do_tick timestamp g ≡ (err e, n)
      → is_submission e ≡ true
      → (s.get_last_finalized_tick n.world.entity_store ≡ ok (g.world.tick + 1))
        × (n.world.tick ≡ g.world.tick)
  failed_submission_finalizes law timestamp g access step h sub =
      let k = systems-Keeps timestamp g access in
      elim (do_tick-Failed timestamp g h) [
        | refused e same ↦ cc
        | before_submission store receipts e w ↦ cc
        | in_submission store receipts router e f w ↦ (
          ap (λ u. s.get_last_finalized_tick u.entity_store) w
              ∙ law.counts (after_systems timestamp g).entity_store store g.world.tick
                  (k.same_last ∙ step.stored) f,
          ap (λ u. u.tick) w ∙ k.same_tick,
        )
      ]
