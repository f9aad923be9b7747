-- ===== src/World/Tick.antt =====
-- doTick and tickTheEngine, cardinal/world.go. A call that fails ends the tick where it stands.
pub mod EvmResults
pub mod Laws
pub mod Access
pub mod InStep
pub mod Announce
pub mod Failure
pub mod Unadvanced
use world_engine.Base.{
  ℕ, ◌+◌, ◌-◌, ◌%◌, ◌^◌, List, [], Bool, true, false, not, ◌&&◌, ◌||◌, Option, none, some, ◌==◌,
  if◌then◌else◌,
}
use world_engine.Base.Exec.{Result, ok, err, Exec, pure, fail, modify, ◌>>=◌, ◌>>◌}
use world_engine.TxPool.{TxMap, copy_transactions, get_evm_txs, transactions}
use world_engine.Receipt.{Receipt, ReceiptError, next_tick, get_receipts_for_tick}
use world_engine.Worldstage.{Stage, stage_eq, recovering, running, shutting_down, current}
use world_engine.World.Systems.{Fault, returned, panicked, SystemError, run_systems}
use world_engine.World.Types.{
  Services, World, Game, Pool, TickError, not_in_a_valid_state, system_failed, finalize_failed,
  failed_to_submit_transactions, set_receipts, set_results_tick, clear,
}
use world_engine.World.Context.{set_evm_results}

-- `doTick` changes the game, and ends with an error or a panic.
abbrev pub Action : Services → Type 0 → Type 0
Action s A = Exec (Fault (TickError s.Err)) (Game s) A

module _ {A E F : Type 0} where
  abbrev pub wrap : (E → F) → Result E A → Result (Fault F) A
  wrap f (ok a) = ok a
  wrap f (err e) = err (returned (f e))

  abbrev pub wrap_fault : (E → F) → Result (Fault E) A → Result (Fault F) A
  wrap_fault f (ok a) = ok a
  wrap_fault f (err (returned e)) = err (returned (f e))
  wrap_fault f (err panicked) = err panicked

abbrev pub or_nil :
    {Any Err : Type 0} → Result ReceiptError (List (Receipt Any Err)) → List (Receipt Any Err)
or_nil (ok receipts) = receipts
or_nil (err e) = []

unfoldable pub can_tick : Stage → Bool
can_tick stage = (stage == recovering) || (stage == running) || (stage == shutting_down)

module _ {s : Services} where
  abbrev pub put_world : World s → Game s → Game s
  put_world w g = record g { world = w }

  -- `w.txPool.CopyTransactions(ctx)`
  unfoldable pub take_transactions : Action s (Pool s)
  take_transactions g =
      let (copy, left) = copy_transactions g.world.tx_pool in
      (ok copy, put_world (record g.world { tx_pool = left }) g)

  unfoldable pub store_timestamp : ℕ → Action s (Unit {0})
  store_timestamp timestamp g = (ok tt, put_world (record g.world { timestamp = timestamp }) g)

  -- `w.SystemManager.runSystems(ctx, wCtx)`, `wCtx` holding the pool.
  unfoldable pub run_registered : Pool s → Action s (Unit {0})
  run_registered tx_pool g =
      let (r, systems, left) = run_systems g.world.tick g.systems (tx_pool, g.world) in
      (wrap_fault system_failed r, record { world = left.1; systems = systems })

  unfoldable pub finalize_store : Action s (Unit {0})
  finalize_store g =
      let (r, store) = s.finalize_tick g.world.entity_store in
      (wrap finalize_failed r, put_world (record g.world { entity_store = store }) g)

  unfoldable pub set_results : Pool s → Action s (Unit {0})
  unfolding set_evm_results get_evm_txs
  set_results tx_pool g =
      let (r, w) = set_evm_results (get_evm_txs tx_pool) g.world in (r, put_world w g)

  -- The router's part, where it is set and the world does not recover.
  abbrev pub submit_to : Option s.Router → Pool s → Action s (Unit {0})
  submit_to none tx_pool g = (ok tt, g)
  submit_to (some router) tx_pool g =
      let (r, router') =
        s.submit_tx_blob (transactions tx_pool) g.world.tick g.world.timestamp router in
      (wrap failed_to_submit_transactions r, put_world (record g.world { router = some router' }) g)

  unfoldable pub submit : Pool s → Action s (Unit {0})
  unfolding transactions
  submit tx_pool g =
      if current g.world.world_stage == recovering
      then (ok tt, g)
      else submit_to g.world.router tx_pool g

  unfoldable pub advance : World s → World s
  advance w = record w {
    tick = (w.tick + 1) % 2 ^ 64;
    receipt_history = next_tick w.receipt_history;
  }

  -- The failures here are only logged. `w.CurrentTick() - 1` wraps around.
  unfoldable pub broadcast_tick_results : World s → World s
  unfolding set_receipts set_results_tick clear
  broadcast_tick_results w =
      let last = (w.tick + (2 ^ 64 - 1)) % 2 ^ 64 in
      let receipts = or_nil (get_receipts_for_tick last w.receipt_history) in
      let results = set_results_tick last (set_receipts receipts w.tick_results) in
      let (r, server) = s.broadcast_event results w.server in
      record w { server = server; tick_results = clear results }

  unfoldable pub broadcast : World s → World s
  unfolding broadcast_tick_results
  broadcast w = if current w.world_stage == recovering then w else broadcast_tick_results w

  -- The part after the guard.
  unfoldable pub ticking : ℕ → Action s (Unit {0})
  unfolding take_transactions store_timestamp run_registered finalize_store set_results submit
      advance broadcast
  ticking timestamp = do
    tx_pool ← take_transactions
    store_timestamp timestamp
    run_registered tx_pool
    finalize_store
    set_results tx_pool
    submit tx_pool
    modify (λ g. put_world (broadcast (advance g.world)) g)

  unfoldable pub do_tick : ℕ → Action s (Unit {0})
  unfolding ticking can_tick
  do_tick timestamp g =
      if can_tick (current g.world.world_stage)
      then ticking timestamp g
      else (err (returned not_in_a_valid_state), g)
