-- ===== src/Worldstage/Tests.antt =====
-- Tests of the stage manager.
use world_engine.Base.{List, [], ◌∷◌}
use world_engine.Worldstage.{init, starting, running, ready, new_manager}
use world_engine.Worldstage.Channels.{Move, swaps, stores, run, entered, Ends, run_channels}

abbrev moves : List Move
moves = swaps init starting ∷ swaps init ready ∷ stores running ∷ []

run_channels_example : Ends (entered moves new_manager.current) new_manager (run moves new_manager)
run_channels_example = run_channels moves new_manager
