-- ===== src/Sequencer/Flushed.antt =====
-- Submit puts a tick's transactions into the queue, and FlushTxQueue takes them out, in order.
use world_engine.Base.{
  ℕ, ◌<◌, String, List, [], ◌∷◌, ◌++◌, map, Bool, true, false, ◌≡◌, refl, sym, ap, ◌∙◌, nat_eq,
  string_eq, ◌==◌, arith, beq_refl, beq_ne, leb,
}
use mathlib.Core.List.{append-nil, append_assoc}
use world_engine.Base.GoMap.{GoMap, lookup, keys}
use world_engine.Base.Exec.{Result, ok, Exec, lift, ◌>>=◌, for_each, bind-step}
use world_engine.Shard.{Epoch}
use world_engine.Shard.Reader.{ShardTx}
use world_engine.Shard.Pages.{Ascends}
use world_engine.Sequencer.{
  SubmitShardTxRequest, TxQueue, SequencerError, or_nil, add_tx, submit, sort_keys, insert_key,
  sort_map_keys, requests_of, all_requests, flush_tx_queue, marshalled,
}
use world_engine.Sequencer.Pending.{
  AllBelow, with_current, request, waiting, queue_of, add_tx-with_current,
}

module _ {Proto Bytes : Type 0} (encode : Proto → Bytes) where
  -- The transactions of a message's ID, encoded.
  abbrev pub with_id : ℕ → List Proto → List (ShardTx Bytes)
  with_id id [] = []
  with_id id (p ∷ ps) = record { tx_id = id; game_shard_transaction = encode p } ∷ with_id id ps

  abbrev pub by_ids : GoMap ℕ (List Proto) → List ℕ → List (ShardTx Bytes)
  by_ids m [] = []
  by_ids m (id ∷ ids) = with_id id (or_nil (lookup id m)) ++ by_ids m ids

  -- All the transactions of a request, by the IDs of their messages.
  abbrev pub in_order : GoMap ℕ (List Proto) → List (ShardTx Bytes)
  in_order m = by_ids m (sort_map_keys leb m)

  module _ {E : Type 0} (valid_address : String → Bool) (marshal : Proto → Result E Bytes)
      (marshals : (p : Proto) → marshal p ≡ ok (encode p)) (ns addr : String)
      (valid : valid_address addr ≡ true) (l : List (Epoch (ShardTx Bytes))) (n timestamp : ℕ)
      (below : AllBelow n l) where
    abbrev add : ℕ → Proto → Exec (SequencerError E) (TxQueue Bytes) (Unit {0})
    add id p = lift (marshalled valid_address marshal (marshal p)) >>= λ bz.
        add_tx valid_address ns n timestamp id bz

    abbrev at : List (ShardTx Bytes) → TxQueue Bytes
    at acc = queue_of ns addr (with_current l n timestamp acc)

    add_one :
        (id : ℕ) (p : Proto) (acc : List (ShardTx Bytes))
        → add id p (at acc)
          ≡ (ok tt, at (acc ++ record { tx_id = id; game_shard_transaction = encode p } ∷ []))
    unfolding ◌>>=◌ lift
    add_one id p acc =
        rw (marshals p)
          (add_tx-with_current ns addr valid_address valid l n timestamp id (encode p) acc below)

    add_all :
        (id : ℕ) (ps : List Proto) (acc : List (ShardTx Bytes))
        → for_each ps (add id) (at acc) ≡ (ok tt, at (acc ++ with_id id ps))
    unfolding for_each
    add_all id [] acc = ap (λ x. (ok tt, at x)) (sym (append-nil acc))
    add_all id (p ∷ ps) acc =
        bind-step (add id p) _ (at acc) (add_one id p acc)
        ∙ add_all id ps _
        ∙ ap (λ x. (ok tt, at x)) (append_assoc acc _ _)

    add_ids :
        (m : GoMap ℕ (List Proto)) (ids : List ℕ) (acc : List (ShardTx Bytes))
        → for_each ids (λ id. for_each (or_nil (lookup id m)) (add id)) (at acc)
          ≡ (ok tt, at (acc ++ by_ids m ids))
    unfolding for_each
    add_ids m [] acc = ap (λ x. (ok tt, at x)) (sym (append-nil acc))
    add_ids m (id ∷ ids) acc =
        bind-step (for_each (or_nil (lookup id m)) (add id)) _ (at acc) (add_all id _ acc)
        ∙ add_ids m ids _
        ∙ ap (λ x. (ok tt, at x)) (append_assoc acc _ _)

    -- An epoch's transactions wait at the end of the queue.
    pub submit-with_current :
        (m : GoMap ℕ (List Proto))
        → submit valid_address marshal
            (record { epoch = n; unix_timestamp = timestamp; namespace = ns; transactions = m })
            (queue_of ns addr l)
          ≡ (ok tt, queue_of ns addr (with_current l n timestamp (in_order m)))
    unfolding submit
    submit-with_current m = add_ids m (sort_map_keys leb m) []

-- The keys in ascending order are sorted already.
abbrev AllAbove : {Tx : Type 0} → ℕ → List (Epoch Tx) → Type 0
AllAbove n [] = Unit
AllAbove n (e ∷ l) = (n < e.epoch) × AllAbove n l

above_head :
    {Tx : Type 0} (n : ℕ) (e : Epoch Tx) (l : List (Epoch Tx))
    → n < e.epoch
    → Ascends (e ∷ l)
    → AllAbove n l
above_head n e [] less h = tt
above_head n e (f ∷ l) less h = (omega arith, above_head n f l (omega arith) h.1)

above_first :
    {Tx : Type 0} (e : Epoch Tx) (l : List (Epoch Tx)) → Ascends (e ∷ l) → AllAbove e.epoch l
above_first e [] h = tt
above_first e (f ∷ l) (less, h) = (less, above_head e.epoch f l less h)

pub Ascends-tail : {Tx : Type 0} (e : Epoch Tx) (l : List (Epoch Tx)) → Ascends (e ∷ l) → Ascends l
Ascends-tail e [] h = tt
Ascends-tail e (f ∷ l) (less, h) = h

insert_first :
    {Tx : Type 0} (e : Epoch Tx) (l : List ℕ)
    → (n : ℕ) → e.epoch < n
    → insert_key leb e.epoch (n ∷ l) ≡ e.epoch ∷ n ∷ l
insert_first e l n less = ground (arith, less)

module _ {Bytes : Type 0} (ns addr : String) where
  abbrev pub all_waiting : List (Epoch (ShardTx Bytes)) → List (SubmitShardTxRequest Bytes)
  all_waiting l = map (request ns addr) l

  requests_skip :
      (k : ℕ) (r : SubmitShardTxRequest Bytes) (m : GoMap ℕ (SubmitShardTxRequest Bytes))
      (l : List (Epoch (ShardTx Bytes)))
      → AllAbove k l
      → requests_of ((k, r) ∷ m) (keys (waiting ns addr l))
        ≡ requests_of m (keys (waiting ns addr l))
  unfolding requests_of keys lookup
  requests_skip k r m [] h = refl
  requests_skip k r m (e ∷ l) (less, h) =
      let other : (k == e.epoch) ≡ false = beq_ne k e.epoch (omega arith) in
      rw (other, requests_skip k r m l h) refl

  requests_of-waiting :
      (l : List (Epoch (ShardTx Bytes)))
      → Ascends l
      → requests_of (waiting ns addr l) (keys (waiting ns addr l)) ≡ all_waiting l
  unfolding requests_of keys lookup
  requests_of-waiting [] h = refl
  requests_of-waiting (e ∷ l) h =
      rw
        (
          beq_refl e.epoch,
          requests_skip e.epoch (request ns addr e) (waiting ns addr l) l (above_first e l h),
          requests_of-waiting l (Ascends-tail e l h),
        )
        refl

  sort_keys-waiting :
      (l : List (Epoch (ShardTx Bytes)))
      → Ascends l
      → sort_keys leb (keys (waiting ns addr l)) ≡ keys (waiting ns addr l)
  unfolding sort_keys keys
  sort_keys-waiting [] h = refl
  sort_keys-waiting (e ∷ []) h = refl
  sort_keys-waiting (e ∷ f ∷ l) (less, h) =
      ap (insert_key leb e.epoch) (sort_keys-waiting (f ∷ l) h)
      ∙ insert_first e (keys (waiting ns addr l)) f.epoch less

  pub flush_tx_queue-all_waiting :
      (l : List (Epoch (ShardTx Bytes)))
      → Ascends l
      → flush_tx_queue (queue_of ns addr l) ≡ (all_waiting l, queue_of ns addr [])
  unfolding flush_tx_queue keys lookup sort_map_keys sort_keys all_requests
  flush_tx_queue-all_waiting [] h = refl
  flush_tx_queue-all_waiting (e ∷ l) h =
      rw (beq_refl ns, sort_keys-waiting (e ∷ l) h)
        (ap (λ x. (x ++ [], queue_of ns addr [])) (requests_of-waiting (e ∷ l) h)
          ∙ ap (λ x. (x, queue_of ns addr [])) (append-nil (all_waiting (e ∷ l))))
