-- ===== src/World/Lifecycle.antt =====
-- StartGame, Shutdown and cleanup of cardinal/world.go. The signals, the closing of the storage, the
-- telemetry and the HTTP server are left out; entering a stage again panics, as its channel is closed.
pub mod Start
pub mod Again
use world_engine.Base.{
  ℕ, List, [], ◌∷◌, Bool, true, false, ◌&&◌, ◌||◌, Option, none, some, is_some, ◌==◌, if◌then◌else◌,
}
use world_engine.Base.Exec.{Result, ok, err, Exec, pure, fail, ◌>>=◌, ◌>>◌}
use world_engine.Receipt.{set_tick}
use world_engine.Worldstage.{
  Stage, stage_eq, init, starting, recovering, running, shutting_down, shut_down, Outcome, done,
  panic, Manager, compare_and_swap, store, current,
}
use world_engine.World.Systems.{Fault, returned, panicked}
use world_engine.World.Types.{Services, World, Game}
use world_engine.World.Tick.{put_world, wrap, wrap_fault}
use world_engine.World.Recovery.{RecoverError, recover_from_chain}
use world_engine.World.Loop.{
  Input, Ending, looping, tick_start_has_been_closed, engine_panicked, Loop, start_game_loop,
}

pub data StartError (E : Type 0) : Type 0 where
  game_has_already_been_started : StartError E
  failed_to_register_components failed_to_start_router_service : E → StartError E
  failed_to_register_game_shard failed_to_get_latest_finalized_tick : E → StartError E
  failed_to_recover_from_chain : RecoverError E → StartError E
  error_occured_while_running : StartError E

-- What the loop hands to StartGame; as long as it goes on, StartGame blocks.
abbrev pub loop_result : {E : Type 0} → Ending → Result (Fault (StartError E)) (Unit {0})
loop_result engine_panicked = err panicked
loop_result tick_start_has_been_closed = err (returned error_occured_while_running)
loop_result _ = ok tt

abbrev pub Start : Services → Type 0
Start s = Exec (Fault (StartError s.Err)) (Game s) (Unit {0})

module _ {s : Services} where
  abbrev pub put_stage : Manager → Game s → Game s
  put_stage m g = put_world (record g.world { world_stage = m }) g

  abbrev pub swapped : Outcome (Bool × Manager) → Start s
  swapped panic g = (err panicked, g)
  swapped (done (true, m)) g = (ok tt, put_stage m g)
  swapped (done (false, m)) g = (err (returned game_has_already_been_started), put_stage m g)

  abbrev pub stored : Outcome Manager → Start s
  stored panic g = (err panicked, g)
  stored (done m) g = (ok tt, put_stage m g)

  -- `w.worldStage.CompareAndSwap(worldstage.Init, worldstage.Starting)`
  unfoldable pub enter_starting : Start s
  unfolding compare_and_swap
  enter_starting g = swapped (compare_and_swap init starting g.world.world_stage) g

  unfoldable pub enter : Stage → Start s
  unfolding store
  enter stage g = stored (store stage g.world.world_stage) g

  unfoldable pub load_components : Start s
  load_components g =
      let (r, store) = s.register_components g.world.entity_store in
      (wrap failed_to_register_components r, put_world (record g.world { entity_store = store }) g)

  abbrev pub on_router :
      Exec s.Err s.Router (Unit {0}) → (s.Err → StartError s.Err) → Option s.Router → Start s
  on_router call failed none g = (ok tt, g)
  on_router call failed (some router) g =
      let (r, router') = call router in
      (wrap failed r, put_world (record g.world { router = some router' }) g)

  unfoldable pub start_router : Start s
  unfolding ◌>>=◌
  start_router = (λ g. on_router s.start failed_to_start_router_service g.world.router g) >> λ g.
      on_router s.register_game_shard failed_to_register_game_shard g.world.router g

  abbrev pub put_tick : Result s.Err ℕ → Start s
  put_tick (err e) g = (err (returned (failed_to_get_latest_finalized_tick e)), g)
  put_tick (ok tick) g = (ok tt, put_world (record g.world { tick = tick }) g)

  unfoldable pub load_tick : Start s
  load_tick g = put_tick (s.get_last_finalized_tick g.world.entity_store) g

  unfoldable pub recover : (ℕ → Bool) → Start s
  unfolding recover_from_chain
  recover is_done g =
      let (r, n) = recover_from_chain is_done g in
      if g.world.rollup_enabled && is_some g.world.router
      then (wrap_fault failed_to_recover_from_chain r, n)
      else (ok tt, g)

  unfoldable pub sync_receipts : Start s
  unfolding set_tick
  sync_receipts g = (
    ok tt,
    put_world (record g.world { receipt_history = set_tick g.world.tick g.world.receipt_history })
        g,
  )

  -- StartGame up to the start of the loop.
  unfoldable pub boot : (ℕ → Bool) → Start s
  unfolding enter_starting enter load_components start_router load_tick recover sync_receipts ◌>>=◌
  boot is_done = do
    enter_starting
    load_components
    start_router
    enter recovering
    load_tick
    recover is_done
    sync_receipts
    enter running

  unfoldable pub cleanup : Start s
  unfolding enter
  cleanup = enter shut_down

  unfoldable pub run_game : List Input → Start s
  unfolding start_game_loop
  run_game inputs g =
      let (e, l) =
        start_game_loop inputs
          (record { game = g; waiting_chs = []; closed = []; tick_done = [] }) in
      (loop_result e, l.game)

  -- `defer w.cleanup()`, after the result `r`; a panic of its own replaces it.
  abbrev pub cleaned :
      Result (Fault (StartError s.Err)) (Unit {0})
      → Result (Fault (StartError s.Err)) (Unit {0}) × Game s
      → Result (Fault (StartError s.Err)) (Unit {0}) × Game s
  cleaned r (ok _, g) = (r, g)
  cleaned r (err e, g) = (err e, g)

  -- The loop runs in a goroutine of its own, whose panic ends the process before the clean-up.
  abbrev pub after_game :
      Result (Fault (StartError s.Err)) (Unit {0}) × Game s
      → Start s
      → Result (Fault (StartError s.Err)) (Unit {0}) × Game s
  after_game (err panicked, g) clean = (err panicked, g)
  after_game (err (returned e), g) clean = cleaned (err (returned e)) (clean g)
  after_game (ok u, g) clean = cleaned (ok u) (clean g)

  abbrev pub after_boot :
      Result (Fault (StartError s.Err)) (Unit {0}) × Game s
      → List Input
      → Result (Fault (StartError s.Err)) (Unit {0}) × Game s
  after_boot (err e, g) inputs = cleaned (err e) (cleanup g)
  after_boot (ok _, g) inputs = after_game (run_game inputs g) cleanup

  unfoldable pub start_game : (ℕ → Bool) → List Input → Start s
  unfolding boot run_game cleanup
  start_game is_done inputs g = after_boot (boot is_done g) inputs

  unfoldable pub is_game_running : World s → Bool
  unfolding current
  is_game_running w = current w.world_stage == running

  -- Shutdown, up to where it cancels the context and waits for the stage ShutDown.
  unfoldable pub shutdown : Start s
  unfolding enter current
  shutdown g =
      if (current g.world.world_stage == shut_down)
        || (current g.world.world_stage == shutting_down)
      then (ok tt, g)
      else enter shutting_down g
