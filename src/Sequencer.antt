-- ===== src/Sequencer.antt =====
-- evm/sequencer: the queue of the transactions that game shards hand to the base shard. The queue of
-- the registrations is left out. Addresses are checked by the cosmos SDK and transactions are encoded
-- by protobuf, which are parameters.
pub mod Router
pub mod Blocks
pub mod Pending
pub mod Flushed
pub mod Recorded
pub mod Held
pub mod Sent
pub mod Decoded
pub mod RoundTrip
pub mod Tests
use Prim.Native.Nat.{Ordering}
use Prim.Native.String.{compare}
use world_engine.Base.{
  ℕ, String, List, [], ◌∷◌, ◌++◌, Bool, true, false, Option, none, some, leb, nat_eq, string_eq,
  ◌==◌, if◌then◌else◌,
}
use world_engine.Base.GoMap.{GoMap, lookup, insert, keys}
use world_engine.Base.Exec.{Result, ok, err, Exec, lift, ◌>>=◌, for_each}
use world_engine.Shard.Reader.{ShardTx}

-- `types.SubmitShardTxRequest`
pub record SubmitShardTxRequest (Bytes : Type 0) : Type 0 where
  pub sender : String
  pub namespace : String
  pub epoch : ℕ
  pub unix_timestamp : ℕ
  pub txs : List (ShardTx Bytes)

pub record TxQueue (Bytes : Type 0) : Type 0 where
  pub tx_queue : GoMap String (GoMap ℕ (SubmitShardTxRequest Bytes))
  pub module_addr : String

-- `shard.SubmitTransactionsRequest`, with the transactions by the ID of their message
pub record SubmitTransactionsRequest (Proto : Type 0) : Type 0 where
  pub epoch : ℕ
  pub unix_timestamp : ℕ
  pub namespace : String
  pub transactions : GoMap ℕ (List Proto)

pub data SequencerError (E : Type 0) : Type 0 where
  invalid_address : SequencerError E
  failed_to_marshal : E → SequencerError E

abbrev pub string_leb : String → String → Bool
string_leb a b = elim (compare a b) [ Ordering.gt ↦ false | _ ↦ true ]

module _ {K : Type 0} (before : K → K → Bool) where
  abbrev pub insert_key : K → List K → List K
  insert_key k [] = k ∷ []
  insert_key k (x ∷ xs) = let rest = insert_key k xs in if before k x then k ∷ x ∷ xs else x ∷ rest

  -- `slices.Sort`
  unfoldable pub sort_keys : List K → List K
  sort_keys [] = []
  sort_keys (x ∷ xs) = insert_key x (sort_keys xs)

  unfoldable pub sort_map_keys : {V : Type 0} → GoMap K V → List K
  unfolding sort_keys
  sort_map_keys m = sort_keys (keys m)

module _ {A : Type 0} where
  -- What a map of slices or of maps gives for a key that it has not.
  abbrev pub or_nil : Option (List A) → List A
  or_nil none = []
  or_nil (some l) = l

  abbrev pub cons_some : Option A → List A → List A
  cons_some none l = l
  cons_some (some a) l = a ∷ l

module _ {Bytes : Type 0} where
  abbrev pub with_tx : ShardTx Bytes → SubmitShardTxRequest Bytes → SubmitShardTxRequest Bytes
  with_tx tx req = record req { txs = req.txs ++ tx ∷ [] }

  abbrev pub set_requests :
      String → GoMap ℕ (SubmitShardTxRequest Bytes) → TxQueue Bytes → TxQueue Bytes
  set_requests ns requests q = record q { tx_queue = insert ns requests q.tx_queue }

  -- `valid_address` is whether AccAddressFromBech32 takes the address: ValidateBasic.
  module _ {E : Type 0} (valid_address : String → Bool) where
    abbrev pub add_to :
        Option (SubmitShardTxRequest Bytes)
        → SubmitShardTxRequest Bytes
        → ShardTx Bytes
        → GoMap ℕ (SubmitShardTxRequest Bytes)
        → Result (SequencerError E) (Unit {0}) × GoMap ℕ (SubmitShardTxRequest Bytes)
    add_to (some req) new tx requests = (ok tt, insert req.epoch (with_tx tx req) requests)
    add_to none new tx requests =
        if valid_address new.sender
        then (ok tt, insert new.epoch (with_tx tx new) requests)
        else (err invalid_address, requests)

    unfoldable pub add_tx :
        String → ℕ → ℕ → ℕ → Bytes → Exec (SequencerError E) (TxQueue Bytes) (Unit {0})
    add_tx ns epoch unix_timestamp tx_id payload q =
        let requests = or_nil (lookup ns q.tx_queue) in
        let new : SubmitShardTxRequest Bytes = record {
          sender = q.module_addr;
          namespace = ns;
          epoch = epoch;
          unix_timestamp = unix_timestamp;
          txs = [];
        } in
        let tx : ShardTx Bytes = record { tx_id = tx_id; game_shard_transaction = payload } in
        let (r, requests') = add_to (lookup epoch requests) new tx requests in
        (r, set_requests ns requests' q)

  -- The inner loop of FlushTxQueue, over keys of the map.
  unfoldable pub requests_of :
      GoMap ℕ (SubmitShardTxRequest Bytes) → List ℕ → List (SubmitShardTxRequest Bytes)
  requests_of txq [] = []
  requests_of txq (epoch ∷ epochs) = cons_some (lookup epoch txq) (requests_of txq epochs)

  unfoldable pub all_requests :
      GoMap String (GoMap ℕ (SubmitShardTxRequest Bytes))
      → List String
      → List (SubmitShardTxRequest Bytes)
  unfolding requests_of sort_map_keys
  all_requests q [] = []
  all_requests q (ns ∷ rest) =
      let txq = or_nil (lookup ns q) in
      requests_of txq (sort_map_keys leb txq) ++ all_requests q rest

  unfoldable pub flush_tx_queue : TxQueue Bytes → List (SubmitShardTxRequest Bytes) × TxQueue Bytes
  unfolding all_requests sort_map_keys
  flush_tx_queue q =
      (all_requests q.tx_queue (sort_map_keys string_leb q.tx_queue), record q { tx_queue = [] })

  module _ {E Proto : Type 0} (valid_address : String → Bool)
      (marshal : Proto → Result E Bytes) where
    abbrev pub marshalled : Result E Bytes → Result (SequencerError E) Bytes
    marshalled (ok bz) = ok bz
    marshalled (err e) = err (failed_to_marshal e)

    unfoldable pub submit :
        SubmitTransactionsRequest Proto → Exec (SequencerError E) (TxQueue Bytes) (Unit {0})
    unfolding add_tx for_each ◌>>=◌
    submit req = for_each (sort_map_keys leb req.transactions) λ tx_id.
        for_each (or_nil (lookup tx_id req.transactions)) λ tx.
          lift (marshalled (marshal tx)) >>= λ bz.
          add_tx valid_address req.namespace req.epoch req.unix_timestamp tx_id bz
