-- ===== src/World/Sample.antt =====
-- A world for the tests: a store that only counts its ticks, a router and a server that list the ticks
-- that they are sent, and one system.
use world_engine.Base.{
  ℕ, ◌+◌, String, List, [], ◌∷◌, ◌++◌, true, false, none, some, refl, arith, nat_eq, string_eq,
}
use world_engine.Base.Exec.{Result, ok, err}
use world_engine.Message.{new_message_manager}
use world_engine.Worldstage.{Stage, recovering, running}
use world_engine.World.Systems.{SystemType}
use world_engine.World.Types.{Services, Game, Running, RecordedTick}
use world_engine.World.Context.{set_message_result}
use world_engine.World.Tick.Access.{SystemsUseContext, none_yet, then_call, sets_result}
use world_engine.World.Tick.InStep.{CountsTicks, IsInStep}

abbrev pub services : Result String (Unit {0}) → (ℕ → List (RecordedTick ℕ String)) → Services
services answer recorded = record {
  Any = ℕ;
  Tx = String;
  Err = String;
  Bytes = String;
  Store = ℕ;
  Router = List ℕ;
  Server = List ℕ;
  hash_hex = λ tx. tx;
  marshal = λ a. ok "event";
  new_error = λ text. text;
  abi_encode = λ msg a. ok "encoded";
  register_components = λ store. (ok tt, store);
  finalize_tick = λ store. (ok tt, store + 1);
  get_last_finalized_tick = λ store. ok store;
  start = λ router. (ok tt, router);
  register_game_shard = λ router. (ok tt, router);
  submit_tx_blob = λ txs tick timestamp router. (answer, router ++ tick ∷ []);
  transaction_iterator = λ router tick. (recorded tick, none);
  broadcast_event = λ results server. (ok tt, server ++ results.tick ∷ []);
}

-- The base shard has recorded the tick two ticks on.
abbrev pub two_on : ℕ → List (RecordedTick ℕ String)
two_on tick =
    record {
      batches = record { tx = "tx"; msg_id = 1; msg_value = 5 } ∷ [];
      at_tick = tick + 2;
      timestamp = 77;
    }
    ∷ []

abbrev pub nothing : ℕ → List (RecordedTick ℕ String)
nothing tick = []

abbrev pub accepting : Services
accepting = services (ok tt) two_on

abbrev pub refusing : Services
refusing = services (err "unavailable") two_on

abbrev pub new_shard : Services
new_shard = services (ok tt) nothing

pub accepting-CountsTicks : CountsTicks accepting
accepting-CountsTicks = record { counts = λ store store' t last done. ground arith }

pub new_shard-CountsTicks : CountsTicks new_shard
new_shard-CountsTicks = record { counts = λ store store' t last done. ground arith }

pub refusing-CountsTicks : CountsTicks refusing
refusing-CountsTicks = record { counts = λ store store' t last done. ground arith }

-- A system that sets a result.
abbrev pub rewarding :
    (answer : Result String (Unit {0})) (recorded : ℕ → List (RecordedTick ℕ String))
    → SystemType String (Running (services answer recorded))
rewarding answer recorded = record {
  name = "rewarding";
  fn = λ r. (ok tt, (r.0, set_message_result "tx" 7 r.1));
}

abbrev pub game :
    (answer : Result String (Unit {0})) (recorded : ℕ → List (RecordedTick ℕ String))
    → Stage
    → Game (services answer recorded)
game answer recorded stage = record {
  world = record {
    rollup_enabled = true;
    entity_store = 3;
    server = [];
    world_stage = record { current = stage; at_stage = λ s. false };
    router = some [];
    tx_pool = record { m = []; txs_in_pool = 0 };
    message_manager = new_message_manager;
    receipt_history = record {
      curr_tick = 3;
      ticks_to_store = 4;
      history = [] ∷ [] ∷ [] ∷ [] ∷ [];
    };
    evm_tx_receipts = [];
    tick = 3;
    timestamp = 0;
    tick_results = record { tick = 0; receipts = []; events = [] };
  };
  systems = record {
    registered_systems = rewarding answer recorded ∷ [];
    registered_init_systems = [];
    current_system = "";
  };
}

abbrev pub running_game : Game accepting
running_game = game (ok tt) two_on running

abbrev pub refused_game : Game refusing
refused_game = game (err "unavailable") two_on running

abbrev pub recovering_game : Game accepting
recovering_game = game (ok tt) two_on recovering

pub running_game-access : SystemsUseContext running_game
running_game-access = (tt, ((λ p w. (refl, then_call none_yet (sets_result "tx" 7 refl))), tt))

pub refused_game-access : SystemsUseContext refused_game
refused_game-access = (tt, ((λ p w. (refl, then_call none_yet (sets_result "tx" 7 refl))), tt))

pub in_step : IsInStep running_game.world
in_step = record {
  stored = refl;
  counted = refl;
  ring = record { whole = refl; some_place = omega arith };
}
