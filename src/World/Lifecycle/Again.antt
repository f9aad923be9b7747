-- ===== src/World/Lifecycle/Again.antt =====
-- A second call of StartGame, cardinal/world.go.
use world_engine.Base.{ℕ, List, Bool, true, false, ◌≡◌, ◌≢◌, refl, ◌==◌, if◌then◌else◌, beq_ne}
use world_engine.Base.Exec.{ok, err, ◌>>=◌}
use world_engine.Worldstage.{
  stage_eq, init, shut_down, Manager, close, compare_and_swap, store, current,
}
use world_engine.World.Systems.{returned, panicked}
use world_engine.World.Types.{Services, Game}
use world_engine.World.Loop.{Input}
use world_engine.World.Lifecycle.{
  game_has_already_been_started, put_stage, enter_starting, enter, boot, cleanup, after_boot,
  start_game, shutdown,
}

-- The stage after a clean-up.
abbrev ended : Manager → Manager
ended m = record m {
  current = shut_down;
  at_stage = λ t. if shut_down == t then true else m.at_stage t;
}

module _ {s : Services} where
  refused :
      (is_done : ℕ → Bool) (g : Game s)
      → (g.world.world_stage.current == init) ≡ false
      → boot is_done g ≡ (err (returned game_has_already_been_started), g)
  unfolding boot enter_starting compare_and_swap ◌>>=◌
  refused is_done g e = rw e refl

  cleanup-ended :
      (g : Game s)
      → g.world.world_stage.at_stage shut_down ≡ false
      → cleanup g ≡ (ok tt, put_stage (ended g.world.world_stage) g)
  unfolding cleanup enter store close
  cleanup-ended g e = rw e refl

  cleanup_again :
      (g : Game s) → g.world.world_stage.at_stage shut_down ≡ true → cleanup g ≡ (err panicked, g)
  unfolding cleanup enter store close
  cleanup_again g e = rw e refl

  -- StartGame on a world that has left the stage Init, and has not shut down, returns its error, but
  -- not before its deferred clean-up has moved the world to the stage ShutDown: Shutdown is then
  -- ignored, as the world counts as shut down, and the clean-up of the game that runs will panic.
  pub second_start_shuts_down :
      (is_done : ℕ → Bool) (inputs : List Input) (g : Game s)
      → g.world.world_stage.current ≢ init
      → g.world.world_stage.at_stage shut_down ≡ false
      → let (r, n) = start_game is_done inputs g in
        (r ≡ err (returned game_has_already_been_started))
        × (current n.world.world_stage ≡ shut_down)
        × (shutdown n ≡ (ok tt, n))
        × (cleanup n ≡ (err panicked, n))
  unfolding start_game current shutdown
  second_start_shuts_down is_done inputs g ne open_stage =
      rw (refused is_done g (beq_ne g.world.world_stage.current init ne)) (
        rw (cleanup-ended g open_stage, after_boot)
          (refl, refl, refl, cleanup_again (put_stage (ended g.world.world_stage) g) refl))
