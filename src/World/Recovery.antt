-- ===== src/World/Recovery.antt =====
-- cardinal/world_recovery.go: the ticks that the base shard has recorded, run again. `is_done i`
-- tells whether the context is cancelled when the i-th recorded tick arrives.
pub mod Ticks
pub mod Replay
pub mod Chain
use world_engine.Base.{
  ℕ, zero, suc, ◌+◌, ◌-◌, ◌%◌, ◌^◌, List, [], ◌∷◌, Bool, true, false, Option, none, some, nat_eq,
  ◌==◌, if◌then◌else◌,
}
use world_engine.Base.Exec.{Result, ok, err, Exec, pure, fail, ◌>>=◌, ◌>>◌, for_each}
use world_engine.World.Systems.{Fault, returned, panicked}
use world_engine.Shard.Reader.{TxBatch}
use world_engine.World.Types.{Services, World, Game, TickError, RecordedTick}
use world_engine.World.Context.{world_add_transaction}
use world_engine.World.Tick.{do_tick, put_world, wrap_fault}

pub data RecoverError (E : Type 0) : Type 0 where
  chain_router_is_nil context_cancelled : RecoverError E
  failed_to_tick_world : TickError E → RecoverError E
  failed_to_read : E → RecoverError E

abbrev pub Recovery : Services → Type 0
Recovery s = Exec (Fault (RecoverError s.Err)) (Game s) (Unit {0})

module _ {s : Services} where
  unfoldable pub recovery_tick : ℕ → Recovery s
  recovery_tick timestamp g =
      let (r, n) = do_tick timestamp g in (wrap_fault failed_to_tick_world r, n)

  -- `for w.CurrentTick() != tick`, for at most so many rounds.
  unfoldable pub fast_forward : ℕ → ℕ → ℕ → Recovery s
  unfolding recovery_tick ◌>>=◌
  fast_forward zero tick timestamp g = (ok tt, g)
  fast_forward (suc rounds) tick timestamp g = elim (g.world.tick == tick) [
    | true ↦ (ok tt, g)
    | false ↦ (recovery_tick timestamp >> fast_forward rounds tick timestamp) g
  ]

  -- The rounds from one tick to another, which may be on the other side of 2^64.
  abbrev pub rounds_to : ℕ → World s → ℕ
  rounds_to tick w = (tick + (2 ^ 64 - w.tick)) % 2 ^ 64

  unfoldable pub forward_to : ℕ → ℕ → Recovery s
  unfolding fast_forward
  forward_to tick timestamp g = fast_forward (rounds_to tick g.world) tick timestamp g

  unfoldable pub add_batch : TxBatch s.Any s.Tx → Recovery s
  unfolding world_add_transaction
  add_batch batch g =
      (ok tt, put_world (world_add_transaction batch.msg_id batch.msg_value batch.tx g.world).1 g)

  -- The function that `Each` is given.
  unfoldable pub replay : RecordedTick s.Any s.Tx → Recovery s
  unfolding forward_to add_batch recovery_tick ◌>>=◌ for_each
  replay t = do
    forward_to t.at_tick t.timestamp
    for_each t.batches add_batch
    recovery_tick t.timestamp

  unfoldable pub replay_all : (ℕ → Bool) → ℕ → List (RecordedTick s.Any s.Tx) → Recovery s
  unfolding replay ◌>>=◌
  replay_all is_done i [] = pure tt
  replay_all is_done i (t ∷ ts) =
      (if is_done i then fail (returned context_cancelled) else replay t)
      >> replay_all is_done (i + 1) ts

  abbrev pub or_fail : Option s.Err → Recovery s
  or_fail none = pure tt
  or_fail (some e) = fail (returned (failed_to_read e))

  abbrev pub recover_with : (ℕ → Bool) → Option s.Router → Recovery s
  recover_with is_done none g = (err (returned chain_router_is_nil), g)
  recover_with is_done (some router) g =
      let (ticks, last) = s.transaction_iterator router g.world.tick in
      (replay_all is_done 0 ticks >> or_fail last) g

  unfoldable pub recover_from_chain : (ℕ → Bool) → Recovery s
  unfolding replay_all
  recover_from_chain is_done g = recover_with is_done g.world.router g
