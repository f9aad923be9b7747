-- ===== src/Sequencer/Router.antt =====
-- SubmitTxBlob of cardinal/router/router.go, and protoTxToSignTx of cardinal/router/iterator: what is
-- sent of a tick's transactions, and what is made of it again. The queue of jobs is a parameter.
use world_engine.Base.{ℕ, String, List, [], ◌∷◌, nat_eq}
use world_engine.Base.Int.{ℤ}
use world_engine.Base.GoMap.{GoMap, insert}
use world_engine.Base.Exec.{Exec}
use world_engine.TxPool.{TxData, TxMap}
use world_engine.Sign.{Transaction, Crypto, hashed}
use world_engine.Sequencer.{SubmitTransactionsRequest}

-- `shard.Transaction` of rift/proto/shard/v2
pub record ProtoTx : Type 0 where
  pub persona_tag : String
  pub namespace : String
  pub timestamp : ℤ
  pub signature : String
  pub body : List ℕ

module _ {H : Type 0} where
  abbrev pub proto_of : Transaction H → ProtoTx
  proto_of tx = record {
    persona_tag = tx.persona_tag;
    namespace = tx.namespace;
    timestamp = tx.timestamp;
    signature = tx.signature;
    body = tx.body;
  }

module _ {Any H : Type 0} where
  -- The inner loop of SubmitTxBlob.
  abbrev pub proto_txs : List (TxData Any (Transaction H)) → List ProtoTx
  proto_txs [] = []
  proto_txs (t ∷ ts) = proto_of t.tx ∷ proto_txs ts

  unfoldable pub proto_map :
      TxMap Any (Transaction H) → GoMap ℕ (List ProtoTx) → GoMap ℕ (List ProtoTx)
  proto_map [] m = m
  proto_map ((msg_id, txs) ∷ rest) m = proto_map rest (insert msg_id (proto_txs txs) m)

  unfoldable pub tx_blob :
      String → TxMap Any (Transaction H) → ℕ → ℕ → SubmitTransactionsRequest ProtoTx
  unfolding proto_map
  tx_blob namespace processed_txs epoch unix_timestamp = record {
    epoch = epoch;
    unix_timestamp = unix_timestamp;
    namespace = namespace;
    transactions = proto_map processed_txs [];
  }

  module _ {E W : Type 0} (enqueue : SubmitTransactionsRequest ProtoTx → Exec E W (Unit {0})) where
    unfoldable pub submit_tx_blob : String → TxMap Any (Transaction H) → ℕ → ℕ → Exec E W (Unit {0})
    unfolding tx_blob
    submit_tx_blob namespace processed_txs epoch unix_timestamp =
        enqueue (tx_blob namespace processed_txs epoch unix_timestamp)

-- The hash is `common.Hash{}` before it is made.
unfoldable pub proto_tx_to_sign_tx : (c : Crypto) → c.Hash → ProtoTx → Transaction c.Hash
unfolding hashed
proto_tx_to_sign_tx c no_hash t = hashed c (record {
  persona_tag = t.persona_tag;
  namespace = t.namespace;
  timestamp = t.timestamp;
  salt = 0;
  signature = t.signature;
  hash = no_hash;
  body = t.body;
})
