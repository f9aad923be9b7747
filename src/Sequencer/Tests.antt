-- ===== src/Sequencer/Tests.antt =====
-- Ticks and blocks on a base shard in memory.
use world_engine.Base.{
  ℕ, String, List, [], ◌∷◌, true, false, Option, some, ◌≡◌, refl, nat_eq, string_eq,
}
use world_engine.Base.GoMap.{keys, lookup, insert}
use world_engine.Base.Exec.{Result, ok, err, Exec}
use world_engine.TxPool.{TxData, TxMap}
use world_engine.Sign.{Transaction}
use world_engine.Sign.Tests.{no_keys, short}
use world_engine.Shard.{ShardError, is_empty_or_default}
use world_engine.Shard.Reader.{ReadError, TxBatch, each_from}
use world_engine.Shard.Replayed.{query_keeper}
use world_engine.Shard.Tests.{memory}
use world_engine.Sequencer.{invalid_address, add_tx, submit}
use world_engine.Sequencer.Router.{ProtoTx, proto_of, tx_blob}
use world_engine.Sequencer.Blocks.{App, next_block, pre_blocker, prepare_proposal}
use world_engine.Sequencer.Recorded.{Event, tick, block, run}
use world_engine.Sequencer.Decoded.{decoder}

abbrev data_of : ℕ → TxData (Unit {0}) (Transaction ℕ)
data_of id = record { msg_id = id; msg = tt; tx_hash = "h"; tx = short; evm_source_tx_hash = "" }

abbrev two : TxMap (Unit {0}) (Transaction ℕ)
two = (2, data_of 2 ∷ []) ∷ (1, data_of 1 ∷ data_of 1 ∷ []) ∷ []

abbrev one : TxMap (Unit {0}) (Transaction ℕ)
one = (1, data_of 1 ∷ []) ∷ []

abbrev ticks : List (Event (Unit {0}) ℕ)
ticks = tick 3 100 two ∷ block ∷ tick 4 101 [] ∷ tick 5 102 one ∷ []

abbrev base_shard : App {Bytes = ProtoTx} memory "auth"
base_shard = record {
  queue = record { tx_queue = []; module_addr = "auth" };
  shard_tx_data_msgs = [];
  keeper = record { namespaces = []; stores = λ n. [] };
}

abbrev note :
    List (TxBatch (Unit {0}) (Transaction ℕ)) → ℕ → ℕ → Exec (ReadError String) (List ℕ) (Unit {0})
note batches n timestamp w = (ok tt, n ∷ w)

abbrev refuse : ShardError → String
refuse e = "refused"

abbrev known : ℕ → Option (List ℕ → Result String (Unit {0}))
known id = some (λ b. ok tt)

abbrev as_sent : ProtoTx → Result String ProtoTx
as_sent p = ok p

-- The queue has to know the address.
unknown_sender :
    add_tx {E = String} (λ a. false) "ns" 3 100 1 (proto_of short) base_shard.queue
    ≡ (err invalid_address, record { tx_queue = ("ns", []) ∷ []; module_addr = "auth" })
unfolding add_tx lookup insert
unknown_sender = refl

abbrev after_ticks : App {Bytes = ProtoTx} memory "auth"
after_ticks = next_block memory "auth" (run memory "auth" "ns" (λ a. true) as_sent ticks base_shard)

ticks_are_read :
    each_from
      (decoder no_keys 0 as_sent known)
      note
      (query_keeper memory refuse "ns" (after_ticks.keeper.stores "ns"))
      3
      4
      []
    ≡ (ok tt, 5 ∷ [])
unfolding each_from query_keeper is_empty_or_default pre_blocker prepare_proposal keys submit
    tx_blob insert lookup
ticks_are_read = refl
