-- ===== src/Sequencer/Blocks.antt =====
-- PrepareProposalHook and preBlocker of evm/app/app.go, as far as they handle the transactions of game
-- shards: a block flushes the queue, and hands what it held to the keeper of evm/x/shard.
use world_engine.Base.{String, List, [], ◌∷◌}
use world_engine.Shard.{Epoch, Kv, Keeper, submit_shard_tx}
use world_engine.Shard.Reader.{ShardTx}
use world_engine.Sequencer.{SubmitShardTxRequest, TxQueue, flush_tx_queue}

module _ {Bytes : Type 0} where
  abbrev pub epoch_of : SubmitShardTxRequest Bytes → Epoch (ShardTx Bytes)
  epoch_of req = record { epoch = req.epoch; unix_timestamp = req.unix_timestamp; txs = req.txs }

module _ {Bytes : Type 0} (kv : Kv (Epoch (ShardTx Bytes))) (auth : String) where
  -- `shardTxDataMsgs` is what the last proposal flushed.
  pub record App : Type 0 where
    pub queue : TxQueue Bytes
    pub shard_tx_data_msgs : List (SubmitShardTxRequest Bytes)
    pub keeper : Keeper kv.Db

  unfoldable pub prepare_proposal : App → App
  unfolding flush_tx_queue
  prepare_proposal app =
      let (msgs, queue) = flush_tx_queue app.queue in
      record app { queue = queue; shard_tx_data_msgs = msgs }

  -- The errors of the keeper, ErrUnauthorized and ErrInvalidRequest, are passed over.
  unfoldable pub submit_msgs : List (SubmitShardTxRequest Bytes) → Keeper kv.Db → Keeper kv.Db
  unfolding submit_shard_tx
  submit_msgs [] k = k
  submit_msgs (req ∷ reqs) k =
      submit_msgs reqs (submit_shard_tx kv auth req.sender req.namespace (epoch_of req) k).1

  unfoldable pub pre_blocker : App → App
  unfolding submit_msgs
  pre_blocker app = record app { keeper = submit_msgs app.shard_tx_data_msgs app.keeper }

  -- A block with its proposal.
  abbrev pub next_block : App → App
  next_block app = pre_blocker (prepare_proposal app)
