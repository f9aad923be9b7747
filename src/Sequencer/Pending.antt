-- ===== src/Sequencer/Pending.antt =====
-- The queue as the list of the epochs that wait in it, for one namespace and in ascending order.
use world_engine.Base.{
  ℕ, ◌<◌, String, List, [], ◌∷◌, ◌++◌, Bool, true, none, some, ◌≡◌, refl, sym, ap, ◌∙◌, nat_eq,
  string_eq, arith, beq_refl,
}
use world_engine.Base.GoMap.{GoMap, lookup, insert}
use world_engine.Base.Exec.{ok}
use world_engine.Shard.{Epoch}
use world_engine.Shard.Reader.{ShardTx}
use world_engine.Sequencer.{SubmitShardTxRequest, TxQueue, or_nil, add_tx}

module _ {V : Type 0} where
  lookup_last :
      (k : ℕ) (v : V) (m : GoMap ℕ V) → lookup k m ≡ none → lookup k (m ++ (k, v) ∷ []) ≡ some v
  unfolding lookup
  lookup_last k v [] h = rw (beq_refl k) refl
  lookup_last k v ((j, w) ∷ m) h = ground (arith, lookup_last k v m, h)

  insert_last :
      (k : ℕ) (v w : V) (m : GoMap ℕ V)
      → lookup k m ≡ none
      → insert k v (m ++ (k, w) ∷ []) ≡ m ++ (k, v) ∷ []
  unfolding lookup insert
  insert_last k v w [] h = rw (beq_refl k) refl
  insert_last k v w ((j, u) ∷ m) h = ground (arith, insert_last k v w m, h)

  pub insert_new :
      (k : ℕ) (v : V) (m : GoMap ℕ V) → lookup k m ≡ none → insert k v m ≡ m ++ (k, v) ∷ []
  unfolding lookup insert
  insert_new k v [] h = refl
  insert_new k v ((j, u) ∷ m) h = ground (arith, insert_new k v m, h)

module _ {Tx : Type 0} where
  abbrev pub AllBelow : ℕ → List (Epoch Tx) → Type 0
  AllBelow n [] = Unit
  AllBelow n (e ∷ l) = (e.epoch < n) × AllBelow n l

  -- The epochs with one more, of the transactions that it has by now, if it has any.
  abbrev pub with_current : List (Epoch Tx) → ℕ → ℕ → List Tx → List (Epoch Tx)
  with_current l n timestamp [] = l
  with_current l n timestamp (t ∷ txs) =
      l ++ (record { epoch = n; unix_timestamp = timestamp; txs = t ∷ txs }) ∷ []

module _ {Bytes : Type 0} (ns addr : String) where
  abbrev pub request : Epoch (ShardTx Bytes) → SubmitShardTxRequest Bytes
  request e = record {
    sender = addr;
    namespace = ns;
    epoch = e.epoch;
    unix_timestamp = e.unix_timestamp;
    txs = e.txs;
  }

  abbrev pub waiting : List (Epoch (ShardTx Bytes)) → GoMap ℕ (SubmitShardTxRequest Bytes)
  waiting [] = []
  waiting (e ∷ l) = (e.epoch, request e) ∷ waiting l

  abbrev pub by_namespace :
      List (Epoch (ShardTx Bytes)) → GoMap String (GoMap ℕ (SubmitShardTxRequest Bytes))
  by_namespace [] = []
  by_namespace (e ∷ l) = (ns, waiting (e ∷ l)) ∷ []

  abbrev pub queue_of : List (Epoch (ShardTx Bytes)) → TxQueue Bytes
  queue_of l = record { tx_queue = by_namespace l; module_addr = addr }

  waiting-append :
      (l : List (Epoch (ShardTx Bytes))) (e : Epoch (ShardTx Bytes))
      → waiting (l ++ e ∷ []) ≡ waiting l ++ (e.epoch, request e) ∷ []
  waiting-append [] e = refl
  waiting-append (f ∷ l) e = ap (λ m. (f.epoch, request f) ∷ m) (waiting-append l e)

  waiting-below :
      (n : ℕ) (l : List (Epoch (ShardTx Bytes))) → AllBelow n l → lookup n (waiting l) ≡ none
  unfolding lookup
  waiting-below n [] h = refl
  waiting-below n (e ∷ l) (less, h) = ground (arith, waiting-below n l h)

  lookup-by_namespace :
      (l : List (Epoch (ShardTx Bytes))) → or_nil (lookup ns (by_namespace l)) ≡ waiting l
  unfolding lookup
  lookup-by_namespace [] = refl
  lookup-by_namespace (e ∷ l) = rw (beq_refl ns) refl

  by_namespace-append :
      (l : List (Epoch (ShardTx Bytes))) (e : Epoch (ShardTx Bytes))
      → by_namespace (l ++ e ∷ []) ≡ (ns, waiting (l ++ e ∷ [])) ∷ []
  by_namespace-append [] e = refl
  by_namespace-append (f ∷ l) e = refl

  insert-by_namespace :
      (p l : List (Epoch (ShardTx Bytes))) (e : Epoch (ShardTx Bytes))
      (m : GoMap ℕ (SubmitShardTxRequest Bytes))
      → m ≡ waiting (l ++ e ∷ [])
      → insert ns m (by_namespace p) ≡ by_namespace (l ++ e ∷ [])
  unfolding insert
  insert-by_namespace [] l e m h = ap (λ x. (ns, x) ∷ []) h ∙ sym (by_namespace-append l e)
  insert-by_namespace (f ∷ p) l e m h =
      rw (beq_refl ns) (ap (λ x. (ns, x) ∷ []) h ∙ sym (by_namespace-append l e))

  module _ {E : Type 0} (valid_address : String → Bool) (valid : valid_address addr ≡ true) where
    -- A transaction joins those of its epoch, which is the last.
    pub add_tx-with_current :
        (l : List (Epoch (ShardTx Bytes))) (n timestamp id : ℕ) (bz : Bytes)
        (acc : List (ShardTx Bytes))
        → AllBelow n l
        → add_tx {E = E} valid_address ns n timestamp id bz
            (queue_of (with_current l n timestamp acc))
          ≡ (
            ok tt,
            queue_of (
                with_current l n timestamp
                  (acc ++ record { tx_id = id; game_shard_transaction = bz } ∷ [])),
          )
    unfolding add_tx
    add_tx-with_current l n timestamp id bz [] below =
        let none_yet = waiting-below n l below in
        rw (lookup-by_namespace l, none_yet, valid)
          (ap (λ m. (ok tt, record { tx_queue = m; module_addr = addr }))
            (insert-by_namespace l l _ _
              (insert_new n _ (waiting l) none_yet ∙ sym (waiting-append l _))))
    add_tx-with_current l n timestamp id bz (t ∷ acc) below =
        let none_yet = waiting-below n l below in
        let e : Epoch (ShardTx Bytes) = record {
          epoch = n;
          unix_timestamp = timestamp;
          txs = t ∷ acc;
        } in
        rw
          (
            lookup-by_namespace (l ++ e ∷ []),
            waiting-append l e,
            lookup_last n (request e) (waiting l) none_yet,
          )
          (ap (λ m. (ok tt, record { tx_queue = m; module_addr = addr }))
            (insert-by_namespace (l ++ e ∷ []) l _ _
              (insert_last n _ (request e) (waiting l) none_yet ∙ sym (waiting-append l _))))
