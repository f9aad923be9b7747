-- ===== src/TxPool/History.antt =====
-- The pool of txpool/pool.go against the list of the transactions that came since the last copy.
use mathlib.Core.List.{append-nil}
use world_engine.Base.{
  ℕ, ◌+◌, String, List, [], ◌∷◌, ◌++◌, Option, none, some, nat_eq, string_eq, ◌==◌, ◌≡◌, refl, ◌∙◌,
  length, length-append, filter, arith, Bool-cases, inl, inr,
}
use world_engine.Base.GoMap.{GoMap, lookup, insert, lookup-insert}
use world_engine.TxPool.{
  TxData, TxPool, or_nil, for_id, get_amount_of_txs, is_evm, collect_evm, collect_all, get_evm_txs,
  new, copy_transactions, add_transaction_from, add_transaction, add_evm_transaction,
}

module _ {Any Tx : Type 0} where
  abbrev of_id : ℕ → List (TxData Any Tx) → List (TxData Any Tx)
  of_id id = filter (λ t. t.msg_id == id)

  of_id-append :
      (id : ℕ) (xs ys : List (TxData Any Tx)) → of_id id (xs ++ ys) ≡ of_id id xs ++ of_id id ys
  of_id-append id [] ys = refl
  of_id-append id (x ∷ xs) ys = ground (arith, of_id-append id xs ys)

  -- The number of EVM transactions in a list and in a map of lists.
  abbrev pub evm_count : List (TxData Any Tx) → ℕ
  evm_count txs = length (filter is_evm txs)

  evm_count-append :
      (xs ys : List (TxData Any Tx)) → evm_count (xs ++ ys) ≡ evm_count xs + evm_count ys
  evm_count-append [] ys = omega arith
  evm_count-append (x ∷ xs) ys = ground (arith, evm_count-append xs ys)

  abbrev evm_in : GoMap ℕ (List (TxData Any Tx)) → ℕ
  evm_in [] = 0
  evm_in ((id, txs) ∷ m) = evm_count txs + evm_in m

  -- `pool` holds what came, in order: for each message ID its transactions, as many in all as the
  -- counter says, and as many from the EVM.
  pub record Holds (pool : TxPool Any Tx) (came : List (TxData Any Tx)) : Type 0 where
    pub by_id : (id : ℕ) → for_id id pool ≡ of_id id came
    pub amount : get_amount_of_txs pool ≡ length came
    pub evm : evm_in pool.m ≡ evm_count came

  collect_evm-length :
      (txs acc : List (TxData Any Tx)) → length (collect_evm txs acc) ≡ length acc + evm_count txs
  unfolding collect_evm
  collect_evm-length [] acc = omega arith
  collect_evm-length (tx ∷ txs) acc = elim (Bool-cases (is_evm tx)) [
    | inl yes_evm ↦
        rw yes_evm
          (collect_evm-length txs (acc ++ tx ∷ []) ∙ omega (arith, length-append acc (tx ∷ [])))
    | inr not_evm ↦ rw not_evm (collect_evm-length txs acc)
  ]

  collect_all-length :
      (m : GoMap ℕ (List (TxData Any Tx))) (acc : List (TxData Any Tx))
      → length (collect_all m acc) ≡ length acc + evm_in m
  unfolding collect_all
  collect_all-length [] acc = omega arith
  collect_all-length ((id, txs) ∷ m) acc =
      omega (arith, collect_all-length m (collect_evm txs acc), collect_evm-length txs acc)

  evm_in-insert :
      (id : ℕ) (txs : List (TxData Any Tx)) (m : GoMap ℕ (List (TxData Any Tx)))
      → evm_in (insert id txs m) + evm_count (or_nil (lookup id m)) ≡ evm_in m + evm_count txs
  unfolding lookup insert
  evm_in-insert id txs [] = omega arith
  evm_in-insert id txs ((j, old) ∷ m) = ground (arith, evm_in-insert id txs m)

  -- GetEVMTxs lists as many transactions as came from the EVM since the last copy.
  get_evm_txs-length :
      (pool : TxPool Any Tx) (came : List (TxData Any Tx))
      → Holds pool came
      → length (get_evm_txs pool) ≡ evm_count came
  unfolding get_evm_txs
  get_evm_txs-length pool came h = collect_all-length pool.m [] ∙ omega (arith, h.evm)

  new-Holds : Holds new []
  unfolding new for_id lookup get_amount_of_txs
  new-Holds = record { by_id = λ id. refl; amount = refl; evm = refl }

-- What can happen to a pool.
pub data Call (Any Tx : Type 0) : Type 0 where
  adds : ℕ → Any → Tx → Call Any Tx
  adds_evm : ℕ → Any → Tx → String → Call Any Tx
  copies : Call Any Tx

module _ {Any Tx : Type 0} (hash_hex : Tx → String) where
  -- The entry that a call of addTransaction makes.
  abbrev pub entry : ℕ → Any → Tx → String → TxData Any Tx
  entry id v sig source = record {
    msg_id = id;
    msg = v;
    tx_hash = hash_hex sig;
    tx = sig;
    evm_source_tx_hash = source;
  }

  pub add-Holds :
      (id : ℕ) (v : Any) (sig : Tx) (source : String) (pool : TxPool Any Tx)
      (came : List (TxData Any Tx))
      → Holds pool came
      → Holds
          (add_transaction_from hash_hex id v sig source pool).1
          (came ++ entry id v sig source ∷ [])
  unfolding add_transaction_from for_id get_amount_of_txs
  add-Holds id v sig source pool came h =
      let added = entry id v sig source in
      record {
        by_id = λ j. ground (
          arith,
          lookup-insert id j (for_id id pool ++ added ∷ []) pool.m,
          of_id-append j came (added ∷ []),
          h.by_id j,
          h.by_id id,
          append-nil (of_id j came),
        );
        amount = omega (arith, h.amount, length-append came (added ∷ []));
        evm = omega (
          arith,
          h.evm,
          evm_in-insert id (for_id id pool ++ added ∷ []) pool.m,
          evm_count-append (for_id id pool) (added ∷ []),
          evm_count-append came (added ∷ []),
        );
      }

  -- The pool after the call, and what was copied out.
  unfoldable pub step : Call Any Tx → TxPool Any Tx → TxPool Any Tx × Option (TxPool Any Tx)
  unfolding add_transaction add_evm_transaction copy_transactions add_transaction_from for_id
  step (adds id v sig) t = ((add_transaction hash_hex id v sig t).1, none)
  step (adds_evm id v sig source) t = ((add_evm_transaction hash_hex id v sig source t).1, none)
  step copies t = let (copy, rest) = copy_transactions t in (rest, some copy)

  -- The transactions since the last copy.
  abbrev pub came_after : Call Any Tx → List (TxData Any Tx) → List (TxData Any Tx)
  came_after (adds id v sig) came = came ++ entry id v sig "" ∷ []
  came_after (adds_evm id v sig source) came = came ++ entry id v sig source ∷ []
  came_after copies came = []

  unfoldable pub run : List (Call Any Tx) → TxPool Any Tx → TxPool Any Tx
  unfolding step
  run [] t = t
  run (c ∷ cs) t = run cs (step c t).0

  abbrev pub came_in : List (Call Any Tx) → List (TxData Any Tx) → List (TxData Any Tx)
  came_in [] came = came
  came_in (c ∷ cs) came = came_in cs (came_after c came)

  step-Holds :
      (c : Call Any Tx) (pool : TxPool Any Tx) (came : List (TxData Any Tx))
      → Holds pool came
      → Holds (step c pool).0 (came_after c came)
  unfolding step
  step-Holds (adds id v sig) pool came h = add-Holds id v sig "" pool came h
  step-Holds (adds_evm id v sig source) pool came h = add-Holds id v sig source pool came h
  step-Holds copies pool came h = unfold new in new-Holds

  run-Holds :
      (cs : List (Call Any Tx)) (pool : TxPool Any Tx) (came : List (TxData Any Tx))
      → Holds pool came
      → Holds (run cs pool) (came_in cs came)
  unfolding run
  run-Holds [] pool came h = h
  run-Holds (c ∷ cs) pool came h = run-Holds cs _ _ (step-Holds c pool came h)

  -- After any sequence of additions and copies on a new pool, CopyTransactions hands over exactly the
  -- transactions added since the last copy: for each message ID those with this ID in the order of
  -- arrival, their number as the amount, and as many from GetEVMTxs as came from the EVM. The pool
  -- that is left holds none.
  pub copy_transactions_exact :
      (cs : List (Call Any Tx))
      → let t = run cs new in
        Holds (copy_transactions t).0 (came_in cs [])
        × Holds (copy_transactions t).1 []
        × (length (get_evm_txs (copy_transactions t).0) ≡ evm_count (came_in cs []))
  unfolding copy_transactions
  copy_transactions_exact cs =
      let h = run-Holds cs new [] new-Holds in
      (h, unfold new in new-Holds, get_evm_txs-length (run cs new) (came_in cs []) h)
