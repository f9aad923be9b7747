-- ===== src/World/Types.antt =====
-- The state of cardinal/world.go, with tick_results.go and the EVM receipts of world_receipt.go. The
-- entity store, the router of the base shard and the HTTP server are known by the calls that the
-- world makes of them; the system manager stands beside the world, in a `Game`. The namespace, the
-- telemetry and the channels of the game loop are not part of this state.
use world_engine.Base.{ℕ, String, List, [], ◌∷◌, ◌++◌, Bool, Option}
use world_engine.Base.GoMap.{GoMap}
use world_engine.Base.Exec.{Result, ok, err, Exec}
use world_engine.TxPool.{TxMap, TxPool}
use world_engine.Receipt.{Receipt, History}
use world_engine.Message.{Message, MessageManager}
use world_engine.Worldstage.{Manager}
use world_engine.Shard.Reader.{TxBatch}
use world_engine.World.Systems.{SystemError, SystemManager}

-- `cardinal.EVMTxReceipt`; `abi_result` is `none` for nil.
pub record EvmTxReceipt (Bytes Err : Type 0) : Type 0 where
  pub abi_result : Option Bytes
  pub errs : List Err
  pub evm_tx_hash : String

pub record TickResults (Any Err Bytes : Type 0) : Type 0 where
  pub tick : ℕ
  pub receipts : List (Receipt Any Err)
  pub events : List Bytes

-- What the iterator hands on for a tick.
pub record RecordedTick (Any Tx : Type 0) : Type 0 where
  pub batches : List (TxBatch Any Tx)
  pub at_tick : ℕ
  pub timestamp : ℕ

-- What the world calls. `transaction_iterator` gives the ticks that `Each` hands to its function from
-- a tick on, and the error with which it ends if the function returns none.
pub record Services : Type 1 where
  pub Any : Type 0
  pub Tx : Type 0
  pub Err : Type 0
  pub Bytes : Type 0
  pub Store : Type 0
  pub Router : Type 0
  pub Server : Type 0
  pub hash_hex : Tx → String
  pub marshal : Any → Result Err Bytes
  pub new_error : String → Err
  pub abi_encode : Message → Any → Result Err Bytes
  pub register_components : Exec Err Store (Unit {0})
  pub finalize_tick : Exec Err Store (Unit {0})
  pub get_last_finalized_tick : Store → Result Err ℕ
  pub start : Exec Err Router (Unit {0})
  pub register_game_shard : Exec Err Router (Unit {0})
  pub submit_tx_blob : TxMap Any Tx → ℕ → ℕ → Exec Err Router (Unit {0})
  pub transaction_iterator : Router → ℕ → List (RecordedTick Any Tx) × Option Err
  pub broadcast_event : TickResults Any Err Bytes → Exec Err Server (Unit {0})

pub data TickError (E : Type 0) : Type 0 where
  not_in_a_valid_state : TickError E
  system_failed : SystemError E → TickError E
  finalize_failed : E → TickError E
  failed_to_submit_transactions : E → TickError E

-- `router` is `none` for nil.
pub record World (s : Services) : Type 0 where
  pub rollup_enabled : Bool
  pub entity_store : s.Store
  pub server : s.Server
  pub world_stage : Manager
  pub router : Option s.Router
  pub tx_pool : TxPool s.Any s.Tx
  pub message_manager : MessageManager
  pub receipt_history : History s.Any s.Err
  pub evm_tx_receipts : GoMap String (EvmTxReceipt s.Bytes s.Err)
  pub tick : ℕ
  pub timestamp : ℕ
  pub tick_results : TickResults s.Any s.Err s.Bytes

-- A system is also given the transactions of the tick.
abbrev pub Pool : Services → Type 0
Pool s = TxPool s.Any s.Tx

-- What a system changes: the world, beside the pool that its context holds.
abbrev pub Running : Services → Type 0
Running s = Pool s × World s

pub record Game (s : Services) : Type 0 where
  pub world : World s
  pub systems : SystemManager s.Err (Running s)

module _ {Any Err Bytes : Type 0} where
  unfoldable pub new_tick_results : ℕ → TickResults Any Err Bytes
  new_tick_results initial_tick = record { tick = initial_tick; receipts = []; events = [] }

  unfoldable pub add_string_event : Bytes → TickResults Any Err Bytes → TickResults Any Err Bytes
  add_string_event e tr = record tr { events = tr.events ++ e ∷ [] }

  unfoldable pub set_receipts :
      List (Receipt Any Err) → TickResults Any Err Bytes → TickResults Any Err Bytes
  set_receipts new_receipts tr = record tr { receipts = new_receipts }

  unfoldable pub set_results_tick : ℕ → TickResults Any Err Bytes → TickResults Any Err Bytes
  set_results_tick tick tr = record tr { tick = tick }

  unfoldable pub clear : TickResults Any Err Bytes → TickResults Any Err Bytes
  clear tr = record { tick = 0; receipts = []; events = [] }

-- AddEvent, with the result of `json.Marshal`.
unfoldable pub add_event :
    {Any Err Bytes : Type 0}
    → Result Err Bytes
    → TickResults Any Err Bytes
    → Result Err (Unit {0}) × TickResults Any Err Bytes
unfolding add_string_event
add_event (ok bytes) tr = (ok tt, add_string_event bytes tr)
add_event (err e) tr = (err e, tr)
