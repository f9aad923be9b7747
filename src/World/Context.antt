-- ===== src/World/Context.antt =====
-- cardinal/world_context.go and world_receipt.go: what a system, a query or the server reaches of the
-- world. Logging, the random numbers and the clock are left out.
use world_engine.Base.{
  ℕ, String, List, [], ◌∷◌, ◌++◌, Bool, ◌||◌, Option, none, some, nat_eq, string_eq, ◌==◌,
}
use world_engine.Base.GoMap.{lookup, erase, insert}
use world_engine.Base.Exec.{Result, ok, err}
use world_engine.TxPool.{TxData, add_transaction, add_evm_transaction}
use world_engine.Receipt.{
  Receipt, ReceiptError, size, add_error, set_result, get_receipt, get_receipts_for_tick,
}
use world_engine.Message.{Message, get_message_by_id}
use world_engine.Worldstage.{stage_eq, recovering, ready, running, current}
use world_engine.World.Systems.{Fault, panicked}
use world_engine.World.Types.{Services, World, EvmTxReceipt, add_event, add_string_event}

abbrev pub or_zero_receipt :
    {Bytes Err : Type 0} → Option (EvmTxReceipt Bytes Err) → EvmTxReceipt Bytes Err
or_zero_receipt none = record { abi_result = none; errs = []; evm_tx_hash = "" }
or_zero_receipt (some rcpt) = rcpt

module _ (s : Services) where
  abbrev pub with_missing : Option Message → List s.Err → List s.Err
  with_missing none errs = errs ++ s.new_error "failed to get message by id?" ∷ []
  with_missing (some msg) errs = errs

module _ (s : Services) {E : Type 0} where
  abbrev pub encoded :
      Result s.Err s.Bytes → List s.Err → Result (Fault E) (Option s.Bytes × List s.Err)
  encoded (ok bytes) errs = ok (some bytes, errs)
  encoded (err e) errs = ok (none, errs ++ e ∷ [])

  -- The encoded result of a receipt of an EVM transaction, with the errors that there are then. The
  -- call of a method on the nil message panics.
  abbrev pub abi_of :
      Option s.Any → Option Message → List s.Err → Result (Fault E) (Option s.Bytes × List s.Err)
  abi_of none msg errs = ok (none, errs)
  abi_of (some a) none errs = err panicked
  abi_of (some a) (some msg) errs = encoded (s.abi_encode msg a) errs

module _ {s : Services} where
  unfoldable pub current_tick : World s → ℕ
  current_tick w = w.tick

  unfoldable pub world_add_transaction : ℕ → s.Any → s.Tx → World s → (ℕ × String) × World s
  world_add_transaction id v sig w =
      let (tx_hash, pool) = add_transaction s.hash_hex id v sig w.tx_pool in
      ((w.tick, tx_hash), record w { tx_pool = pool })

  unfoldable pub world_add_evm_transaction :
      ℕ → s.Any → s.Tx → String → World s → (ℕ × String) × World s
  world_add_evm_transaction id v sig evm_tx_hash w =
      let (tx_hash, pool) = add_evm_transaction s.hash_hex id v sig evm_tx_hash w.tx_pool in
      ((w.tick, tx_hash), record w { tx_pool = pool })

  unfoldable pub get_transaction_receipts_for_tick :
      ℕ → World s → Result ReceiptError (List (Receipt s.Any s.Err))
  get_transaction_receipts_for_tick tick w = get_receipts_for_tick tick w.receipt_history

  unfoldable pub receipt_history_size : World s → ℕ
  receipt_history_size w = size w.receipt_history

  -- The receipt, which is the zero one if there is none, and whether there was one.
  unfoldable pub consume_evm_msg_result :
      String
      → World s
      → (Option s.Bytes × List s.Err × String × Option (EvmTxReceipt s.Bytes s.Err)) × World s
  consume_evm_msg_result evm_tx_hash w =
      let found = lookup evm_tx_hash w.evm_tx_receipts in
      let rcpt = or_zero_receipt found in
      (
        (rcpt.abi_result, rcpt.errs, rcpt.evm_tx_hash, found),
        record w { evm_tx_receipts = erase evm_tx_hash w.evm_tx_receipts },
      )

  unfoldable pub get_evm_msg_receipt :
      String → World s → Option (EvmTxReceipt s.Bytes s.Err) × World s
  get_evm_msg_receipt evm_tx_hash w = (
    lookup evm_tx_hash w.evm_tx_receipts,
    record w { evm_tx_receipts = erase evm_tx_hash w.evm_tx_receipts },
  )

  unfoldable pub emit_event : s.Any → World s → Result s.Err (Unit {0}) × World s
  emit_event event w =
      let (r, results) = add_event (s.marshal event) w.tick_results in
      (r, record w { tick_results = results })

  unfoldable pub emit_string_event : s.Bytes → World s → World s
  emit_string_event e w = record w { tick_results = add_string_event e w.tick_results }

  unfoldable pub add_message_error : String → s.Err → World s → World s
  add_message_error id error w = record w { receipt_history = add_error id error w.receipt_history }

  unfoldable pub set_message_result : String → s.Any → World s → World s
  set_message_result id a w = record w { receipt_history = set_result id a w.receipt_history }

  unfoldable pub get_transaction_receipt : String → World s → Option (Option s.Any × List s.Err)
  get_transaction_receipt id w = elim (get_receipt id w.receipt_history) [
    | none ↦ none
    | some rec ↦ some (rec.result, rec.errs)
  ]

  unfoldable pub is_world_ready : World s → Bool
  unfolding current
  is_world_ready w =
      (current w.world_stage == ready)
      || (current w.world_stage == running)
      || (current w.world_stage == recovering)

module _ {s : Services} {E : Type 0} where
  abbrev pub store_evm :
      TxData s.Any s.Tx
      → Result (Fault E) (Option s.Bytes × List s.Err)
      → World s
      → (World s → Result (Fault E) (Unit {0}) × World s)
      → Result (Fault E) (Unit {0}) × World s
  store_evm tx (err e) w next = (err e, w)
  store_evm tx (ok (bytes, errs)) w next =
      let evm_rec : EvmTxReceipt s.Bytes s.Err = record {
        abi_result = bytes;
        errs = errs;
        evm_tx_hash = tx.evm_source_tx_hash;
      } in
      next (record w { evm_tx_receipts = insert tx.evm_source_tx_hash evm_rec w.evm_tx_receipts })

  abbrev pub set_evm_result :
      TxData s.Any s.Tx
      → Option (Receipt s.Any s.Err)
      → World s
      → (World s → Result (Fault E) (Unit {0}) × World s)
      → Result (Fault E) (Unit {0}) × World s
  set_evm_result tx none w next = next w
  set_evm_result tx (some rec) w next =
      let msg = get_message_by_id tx.msg_id w.message_manager in
      store_evm tx (abi_of s rec.result msg (with_missing s msg rec.errs)) w next

  unfoldable pub set_evm_results :
      List (TxData s.Any s.Tx) → World s → Result (Fault E) (Unit {0}) × World s
  set_evm_results [] w = (ok tt, w)
  set_evm_results (tx ∷ txs) w =
      set_evm_result tx (get_receipt tx.tx_hash w.receipt_history) w (set_evm_results txs)
