-- ===== src/TxPool.antt =====
-- cardinal/txpool/pool.go: the transactions that wait for the next tick. Every method that changes
-- the pool holds its mutex, so that calls are atomic steps; the tracer is left out.
pub mod History
pub mod Tests
use world_engine.Base.{
  ℕ, suc, ◌+◌, String, List, [], ◌∷◌, ◌++◌, Bool, true, false, not, Option, none, some,
  if◌then◌else◌, nat_eq, string_eq, ◌==◌,
}
use world_engine.Base.GoMap.{GoMap, lookup, insert}

-- `Msg` is of any type, and `Tx` stands for `sign.Transaction`.
pub record TxData (Any Tx : Type 0) : Type 0 where
  pub msg_id : ℕ
  pub msg : Any
  pub tx_hash : String
  pub tx : Tx
  pub evm_source_tx_hash : String

abbrev pub TxMap : Type 0 → Type 0 → Type 0
TxMap Any Tx = GoMap ℕ (List (TxData Any Tx))

pub record TxPool (Any Tx : Type 0) : Type 0 where
  pub m : TxMap Any Tx
  pub txs_in_pool : ℕ

module _ {Any Tx : Type 0} where
  -- `t.m[id]`, which is nil for a missing key
  abbrev pub or_nil : Option (List (TxData Any Tx)) → List (TxData Any Tx)
  or_nil none = []
  or_nil (some txs) = txs

  unfoldable pub for_id : ℕ → TxPool Any Tx → List (TxData Any Tx)
  for_id id t = or_nil (lookup id t.m)

  unfoldable pub get_amount_of_txs : TxPool Any Tx → ℕ
  get_amount_of_txs t = t.txs_in_pool

  unfoldable pub transactions : TxPool Any Tx → TxMap Any Tx
  transactions t = t.m

  abbrev pub is_evm : TxData Any Tx → Bool
  is_evm tx = not (tx.evm_source_tx_hash == "")

  -- The inner loop of GetEVMTxs, on what was collected so far.
  unfoldable pub collect_evm : List (TxData Any Tx) → List (TxData Any Tx) → List (TxData Any Tx)
  collect_evm [] acc = acc
  collect_evm (tx ∷ txs) acc = collect_evm txs (if is_evm tx then acc ++ tx ∷ [] else acc)

  unfoldable pub collect_all : TxMap Any Tx → List (TxData Any Tx) → List (TxData Any Tx)
  unfolding collect_evm
  collect_all [] acc = acc
  collect_all ((id, txs) ∷ rest) acc = collect_all rest (collect_evm txs acc)

  unfoldable pub get_evm_txs : TxPool Any Tx → List (TxData Any Tx)
  unfolding collect_all
  get_evm_txs t = collect_all t.m []

  unfoldable pub new : TxPool Any Tx
  new = record { m = []; txs_in_pool = 0 }

  unfoldable pub reset : TxPool Any Tx → TxPool Any Tx
  reset t = record { m = []; txs_in_pool = 0 }

  -- The copy, and the pool that is left.
  unfoldable pub copy_transactions : TxPool Any Tx → TxPool Any Tx × TxPool Any Tx
  unfolding reset
  copy_transactions t = (t, reset t)

  -- `hash_hex` stands for the transaction's `HashHex()`.
  module _ (hash_hex : Tx → String) where
    unfoldable pub add_transaction_from :
        ℕ → Any → Tx → String → TxPool Any Tx → String × TxPool Any Tx
    unfolding for_id
    add_transaction_from id v sig evm_tx_hash t =
        let added : TxData Any Tx = record {
          msg_id = id;
          msg = v;
          tx_hash = hash_hex sig;
          tx = sig;
          evm_source_tx_hash = evm_tx_hash;
        } in
        (
          hash_hex sig,
          record t {
            m = insert id (for_id id t ++ added ∷ []) t.m;
            txs_in_pool = t.txs_in_pool + 1;
          },
        )

    unfoldable pub add_transaction : ℕ → Any → Tx → TxPool Any Tx → String × TxPool Any Tx
    unfolding add_transaction_from
    add_transaction id v sig t = add_transaction_from id v sig "" t

    unfoldable pub add_evm_transaction :
        ℕ → Any → Tx → String → TxPool Any Tx → String × TxPool Any Tx
    unfolding add_transaction_from
    add_evm_transaction id v sig evm_tx_hash t = add_transaction_from id v sig evm_tx_hash t
