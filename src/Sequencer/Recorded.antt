-- ===== src/Sequencer/Recorded.antt =====
-- What the base shard has recorded after ticks and blocks, in any order.
use world_engine.Base.{
  ℕ, ◌+◌, ◌≤◌, String, List, [], ◌∷◌, ◌++◌, Bool, ◌≡◌, refl, sym, ap, ◌∙◌, subst, nat_eq, arith,
}
use mathlib.Core.List.{append-nil, append_assoc}
use world_engine.Base.Exec.{Result}
use world_engine.TxPool.{TxMap}
use world_engine.Sign.{Transaction}
use world_engine.Shard.{Epoch, Kv, Keeper}
use world_engine.Shard.Reader.{ShardTx}
use world_engine.Shard.Pages.{Ascends, put_epoch}
use world_engine.Shard.Replayed.{put_all, submit_all}
use world_engine.Sequencer.{submit}
use world_engine.Sequencer.Router.{ProtoTx, tx_blob, proto_map}
use world_engine.Sequencer.Blocks.{next_block, App, submit_msgs}
use world_engine.Sequencer.Pending.{AllBelow, with_current}
use world_engine.Sequencer.Flushed.{in_order, all_waiting}

module _ {Tx : Type 0} where
  pub weaken : (n k : ℕ) (l : List (Epoch Tx)) → n ≤ k → AllBelow n l → AllBelow k l
  weaken n k [] le h = tt
  weaken n k (e ∷ l) le (less, h) = (omega arith, weaken n k l le h)

  below-append : (n : ℕ) (l m : List (Epoch Tx)) → AllBelow n l → AllBelow n m → AllBelow n (l ++ m)
  below-append n [] m h k = k
  below-append n (e ∷ l) m (less, h) k = (less, below-append n l m h k)

  pub append-below : (n : ℕ) (l m : List (Epoch Tx)) → AllBelow n (l ++ m) → AllBelow n m
  append-below n [] m h = h
  append-below n (e ∷ l) m (less, h) = append-below n l m h

  Ascends-last :
      (l : List (Epoch Tx)) (e : Epoch Tx) → Ascends l → AllBelow e.epoch l → Ascends (l ++ e ∷ [])
  Ascends-last [] e h b = tt
  Ascends-last (f ∷ []) e h (less, b) = (less, tt)
  Ascends-last (f ∷ g ∷ l) e (less, h) (first, b) = (less, Ascends-last (g ∷ l) e h b)

  -- What comes before an epoch is below it.
  Ascends-AllBelow :
      (l m : List (Epoch Tx)) (e : Epoch Tx) → Ascends (l ++ e ∷ m) → AllBelow e.epoch l
  Ascends-AllBelow [] m e h = tt
  Ascends-AllBelow (f ∷ []) m e (less, h) = (less, tt)
  Ascends-AllBelow (f ∷ g ∷ l) m e (less, h) =
      let below = Ascends-AllBelow (g ∷ l) m e h in (omega (arith, below.0), below)

  pub Ascends-right : (l m : List (Epoch Tx)) → Ascends (l ++ m) → Ascends m
  Ascends-right [] m h = h
  Ascends-right (e ∷ []) [] h = tt
  Ascends-right (e ∷ []) (f ∷ m) (less, h) = h
  Ascends-right (e ∷ f ∷ l) m (less, h) = Ascends-right (f ∷ l) m h

  put_epoch-last :
      (e : Epoch Tx) (l : List (Epoch Tx)) → AllBelow e.epoch l → put_epoch e l ≡ l ++ e ∷ []
  put_epoch-last e [] h = refl
  put_epoch-last e (f ∷ l) (less, h) = ground (arith, put_epoch-last e l h)

  pub put_all-append : (es l : List (Epoch Tx)) → Ascends (l ++ es) → put_all es l ≡ l ++ es
  put_all-append [] l h = sym (append-nil l)
  put_all-append (e ∷ es) l h =
      ap (put_all es) (put_epoch-last e l (Ascends-AllBelow l es e h))
      ∙ put_all-append es (l ++ e ∷ []) (subst Ascends (sym (append_assoc l _ _)) h)
      ∙ append_assoc l _ _

  pub current-append :
      (l : List (Epoch Tx)) (n timestamp : ℕ) (txs : List Tx)
      → with_current l n timestamp txs ≡ l ++ with_current [] n timestamp txs
  current-append l n timestamp [] = sym (append-nil l)
  current-append l n timestamp (t ∷ txs) = refl

  pub current-Ascends :
      (l : List (Epoch Tx)) (n timestamp : ℕ) (txs : List Tx)
      → Ascends l
      → AllBelow n l
      → Ascends (with_current l n timestamp txs)
  current-Ascends l n timestamp [] h b = h
  current-Ascends l n timestamp (t ∷ txs) h b = Ascends-last l _ h b

  pub current-below :
      (l : List (Epoch Tx)) (n timestamp : ℕ) (txs : List Tx)
      → AllBelow n l
      → AllBelow (n + 1) (with_current l n timestamp txs)
  current-below l n timestamp [] b = weaken n (n + 1) l (omega arith) b
  current-below l n timestamp (t ∷ txs) b =
      below-append (n + 1) l _ (weaken n (n + 1) l (omega arith) b) (omega arith, tt)

-- A tick with its transactions, or a block.
pub data Event (Any H : Type 0) : Type 0 where
  tick : ℕ → ℕ → TxMap Any (Transaction H) → Event Any H
  block : Event Any H

module _ {Any H : Type 0} where
  -- The ticks' numbers ascend.
  abbrev pub TicksFrom : ℕ → List (Event Any H) → Type 0
  TicksFrom n [] = Unit
  TicksFrom n (tick m timestamp txs ∷ es) = (n ≤ m) × TicksFrom (m + 1) es
  TicksFrom n (block ∷ es) = TicksFrom n es

  module _ {Bytes : Type 0} (encode : ProtoTx → Bytes) where
    -- An epoch for each tick that has transactions.
    abbrev pub recorded : List (Event Any H) → List (Epoch (ShardTx Bytes))
    recorded [] = []
    recorded (tick n timestamp txs ∷ es) =
        with_current [] n timestamp (in_order encode (proto_map txs [])) ++ recorded es
    recorded (block ∷ es) = recorded es

module _ {Any H Bytes E : Type 0} (kv : Kv (Epoch (ShardTx Bytes))) (auth ns : String)
    (valid_address : String → Bool) (marshal : ProtoTx → Result E Bytes) where
  -- The jobs of a router are handled in their order, and none between the parts of another.
  abbrev pub step : Event Any H → App kv auth → App kv auth
  step (tick n timestamp txs) app = record app {
    queue = (submit valid_address marshal (tx_blob ns txs n timestamp) app.queue).1;
  }
  step block app = next_block kv auth app

  abbrev pub run : List (Event Any H) → App kv auth → App kv auth
  run [] app = app
  run (e ∷ es) app = run es (step e app)

pub submit_msgs-submit_all :
    {Bytes : Type 0} (kv : Kv (Epoch (ShardTx Bytes))) (auth ns : String)
    (es : List (Epoch (ShardTx Bytes))) (k : Keeper kv.Db)
    → submit_msgs kv auth (all_waiting ns auth es) k ≡ submit_all kv auth ns es k
unfolding submit_msgs
submit_msgs-submit_all kv auth ns [] k = refl
submit_msgs-submit_all kv auth ns (e ∷ es) k = submit_msgs-submit_all kv auth ns es _
