-- ===== src/World/Tests.antt =====
-- Tests of the world of World/Sample.antt, and of one over the entity command buffer.
use world_engine.Base.{
  ℕ, ◌+◌, String, List, [], ◌∷◌, true, false, Option, some, ◌≡◌, ◌≢◌, ◌⊎◌, refl, arith, nat_eq,
  string_eq,
}
use world_engine.Base.GoMap.{insert, lookup}
use world_engine.Base.Exec.{Result, ok, err, ◌>>=◌}
use world_engine.TxPool.{copy_transactions, add_transaction}
use world_engine.Worldstage.{Stage, init, current}
use world_engine.World.Systems.{
  run_systems, returned, panicked, SystemType, SystemManager, register_systems,
  duplicate_system_in_slice, SystemError,
}
use world_engine.World.Systems.Registration.{
  with_systems, HasDistinctNames, Clash, register_systems_all_or_none,
}
use world_engine.World.Types.{Game, failed_to_submit_transactions}
use world_engine.World.Context.{set_message_result}
use world_engine.World.Tick.{do_tick}
use world_engine.World.Tick.Access.{SystemsUseContext, none_yet, then_call, sets_result}
use world_engine.World.Tick.InStep.{CountsTicks, IsInStep, do_tick-IsInStep}
use world_engine.World.Tick.Announce.{Announced, do_tick-Announced}
use world_engine.World.Tick.Unadvanced.{
  IsUnadvanced, do_tick-IsUnadvanced, failed_submission_finalizes,
}
use world_engine.Gamestate.Types.{entity_does_not_exist, last_finalized_tick_key}
use world_engine.Gamestate.Store.{Stored, as_num, memory, memory-Lawful}
use world_engine.World.Buffer.{Others, buffer_services, AnswersAsRedis, buffer_services-CountsTicks}
use world_engine.World.Recovery.{recover_from_chain}
use world_engine.World.Recovery.Ticks.{Arrives}
use world_engine.World.Recovery.Replay.{recover_from_chain-Arrives}
use world_engine.World.Loop.{
  Input, context_done, tick_start, add_channel, Loop, engine_panicked, start_game_loop,
}
use world_engine.World.Loop.Release.{Releases, start_game_loop-Releases}
use world_engine.World.Lifecycle.{
  boot, start_game, cleanup, shutdown, is_game_running, game_has_already_been_started,
}
use world_engine.World.Lifecycle.Start.{boot-IsInStep}
use world_engine.World.Lifecycle.Again.{second_start_shuts_down}
use world_engine.World.Sample.{
  nothing, accepting, refusing, new_shard, accepting-CountsTicks, new_shard-CountsTicks,
  refusing-CountsTicks, game, running_game, refused_game, recovering_game, running_game-access,
  refused_game-access, in_step,
}

abbrev ticked : Game accepting
ticked = (do_tick 100 running_game).1

ticked_ok : (do_tick 100 running_game).0 ≡ ok tt
unfolding do_tick current ◌>>=◌ run_systems copy_transactions set_message_result
ticked_ok = refl

sent :
    (ticked.world.router ≡ some (3 ∷ [])) × (ticked.world.server ≡ 3 ∷ []) × (ticked.world.tick ≡ 4)
unfolding do_tick current ◌>>=◌ run_systems copy_transactions set_message_result
sent = (refl, refl, refl)

do_tick-IsInStep_example : IsInStep ticked.world × (ticked.world.tick ≡ 4)
do_tick-IsInStep_example =
    do_tick-IsInStep accepting-CountsTicks 100 running_game running_game-access in_step
      (omega arith) (λ i. (ticked_ok i, ticked))

do_tick-Announced_example : Announced 100 running_game ticked
do_tick-Announced_example =
    do_tick-Announced 100 running_game running_game-access refl
      (record { whole = refl; some_place = omega arith }) (omega arith) (omega arith)
      (λ i. (ticked_ok i, ticked))

-- The router refuses the transactions of the tick.
abbrev refused : Game refusing
refused = (do_tick 100 refused_game).1

refused_err :
    (do_tick 100 refused_game).0 ≡ err (returned (failed_to_submit_transactions "unavailable"))
unfolding do_tick current ◌>>=◌ run_systems copy_transactions set_message_result
refused_err = refl

do_tick-IsUnadvanced_example :
    IsUnadvanced refused_game refused × (true ≡ false → refused.world.router ≡ some [])
do_tick-IsUnadvanced_example =
    do_tick-IsUnadvanced 100 refused_game
      {e = returned (failed_to_submit_transactions "unavailable")} refused_game-access
      (λ i. (refused_err i, refused))

failed_submission_finalizes_example :
    (◌≡◌ {A = Result String ℕ} (ok refused.world.entity_store) (ok 4)) × (refused.world.tick ≡ 3)
failed_submission_finalizes_example =
    failed_submission_finalizes refusing-CountsTicks 100 refused_game
      {e = returned (failed_to_submit_transactions "unavailable")} refused_game-access
      (record {
        stored = refl;
        counted = refl;
        ring = record { whole = refl; some_place = omega arith };
      })
      (λ i. (refused_err i, refused)) refl

-- Ticks 3, 4 and 5 run again, the last with the recorded transaction.
abbrev recovered : Game accepting
recovered = (recover_from_chain (λ i. false) recovering_game).1

recovered_ok : (recover_from_chain (λ i. false) recovering_game).0 ≡ ok tt
unfolding do_tick current ◌>>=◌ run_systems copy_transactions set_message_result recover_from_chain
    add_transaction insert lookup
recovered_ok = refl

recover_from_chain-Arrives_example : Arrives 6 recovering_game recovered
recover_from_chain-Arrives_example =
    recover_from_chain-Arrives accepting-CountsTicks (λ i. false) recovering_game []
      (record {
        stage = refl;
        stored = refl;
        access = running_game-access;
        ring = record { whole = refl; some_place = omega arith };
      })
      refl (omega arith, omega arith, tt) (λ i. (recovered_ok i, recovered))

-- Two callers wait, a tick runs, and a third comes while the loop ends.
abbrev inputs : List Input
inputs = add_channel 8 ∷ add_channel 9 ∷ tick_start 100 ∷ context_done ∷ add_channel 10 ∷ []

abbrev loop : Loop accepting
loop = record { game = running_game; waiting_chs = []; closed = []; tick_done = [] }

loop_runs :
    ((start_game_loop inputs loop).1.closed ≡ 8 ∷ 9 ∷ 10 ∷ [])
    × ((start_game_loop inputs loop).1.tick_done ≡ 3 ∷ [])
unfolding do_tick current ◌>>=◌ run_systems copy_transactions set_message_result start_game_loop
loop_runs = (refl, refl)

-- Where the router refuses, the first tick panics, and the callers still wait.
failed_tick_panics :
    let (e, m) =
      start_game_loop inputs
        (record { game = refused_game; waiting_chs = []; closed = []; tick_done = [] }) in
    (e ≡ engine_panicked) × (m.closed ≡ []) × (m.waiting_chs ≡ 8 ∷ 9 ∷ []) × (m.tick_done ≡ [])
unfolding do_tick current ◌>>=◌ run_systems copy_transactions set_message_result start_game_loop
failed_tick_panics = (refl, refl, refl, refl)

start_game_loop-Releases_example :
    let (e, m) = start_game_loop inputs loop in Releases inputs loop e m
start_game_loop-Releases_example =
    start_game_loop-Releases accepting-CountsTicks inputs loop running_game-access in_step
      (omega arith)

abbrev new_game : Game new_shard
new_game = game (ok tt) nothing init

abbrev booted : Game new_shard
booted = (boot (λ i. false) new_game).1

booted_ok : (boot (λ i. false) new_game).0 ≡ ok tt
unfolding do_tick current ◌>>=◌ run_systems copy_transactions set_message_result boot
booted_ok = refl

boot-IsInStep_example :
    IsInStep booted.world × SystemsUseContext booted × (is_game_running booted.world ≡ true)
boot-IsInStep_example =
    boot-IsInStep new_shard-CountsTicks (λ router tick. tt) (λ i. false) new_game
      (tt, ((λ p w. (refl, then_call none_yet (sets_result "tx" 7 refl))), tt))
      (record { whole = refl; some_place = omega arith }) (λ i. (booted_ok i, booted))

second_start_shuts_down_example :
    let (r, n) = start_game (λ i. false) [] running_game in
    (r ≡ err (returned game_has_already_been_started))
    × (current n.world.world_stage ≡ Stage.shut_down)
    × (shutdown n ≡ (ok tt, n))
    × (cleanup n ≡ (err panicked, n))
second_start_shuts_down_example =
    second_start_shuts_down (λ i. false) [] running_game (λ e. cc e) refl

abbrev jump : SystemType String ℕ
jump = record { name = "jump"; fn = λ n. (ok tt, n) }

abbrev managed : SystemManager String ℕ
managed = record {
  registered_systems = record { name = "move"; fn = λ n. (ok tt, n + 1) } ∷ [];
  registered_init_systems = [];
  current_system = "";
}

managed-HasDistinctNames : HasDistinctNames managed
managed-HasDistinctNames n = ground arith

register_systems_all_or_none_example :
    ((register_systems true (jump ∷ []) managed ≡ (ok tt, with_systems true (jump ∷ []) managed))
      × HasDistinctNames (with_systems true (jump ∷ []) managed))
    ⊎ ((e : SystemError String) × (register_systems true (jump ∷ []) managed ≡ (err e, managed))
        × Clash managed (jump ∷ []))
register_systems_all_or_none_example =
    register_systems_all_or_none true (jump ∷ []) managed managed-HasDistinctNames

jump_twice :
    register_systems false (jump ∷ jump ∷ []) managed ≡ (err duplicate_system_in_slice, managed)
unfolding register_systems
jump_twice = refl

abbrev others : Others
others = record { rest = accepting; into = λ e. "store" }

number_or_nil : (o : Option Stored) → as_num o ≢ err entity_does_not_exist
number_or_nil o = ground arith

memory-AnswersAsRedis : AnswersAsRedis memory
memory-AnswersAsRedis db = number_or_nil (db last_finalized_tick_key)

memory-CountsTicks : CountsTicks (buffer_services memory [] others)
memory-CountsTicks =
    buffer_services-CountsTicks memory [] others memory-Lawful memory-AnswersAsRedis
