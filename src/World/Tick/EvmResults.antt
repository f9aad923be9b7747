-- ===== src/World/Tick/EvmResults.antt =====
-- setEvmResults of cardinal/world_receipt.go: how it ends and what it changes.
use world_engine.Base.{List, [], ◌∷◌, Bool, true, false, Option, none, some, ◌≡◌, refl}
use world_engine.Base.Exec.{Result, ok, err}
use world_engine.TxPool.{TxData}
use world_engine.Receipt.{Receipt, get_receipt}
use world_engine.Message.{get_message_by_id, Message}
use world_engine.Worldstage.{stage_eq}
use world_engine.World.Systems.{Fault, returned, panicked}
use world_engine.World.Types.{Services, World}
use world_engine.World.Context.{
  set_evm_results, set_evm_result, store_evm, abi_of, encoded, with_missing,
}

abbrev pub returns_no_error : {E A : Type 0} → Result (Fault E) A → Bool
returns_no_error (ok a) = true
returns_no_error (err (returned e)) = false
returns_no_error (err panicked) = true

encoded-panics :
    (E : Type 0) (s : Services) (r : Result s.Err s.Bytes) (errs : List s.Err)
    → returns_no_error (encoded s {E = E} r errs) ≡ true
encoded-panics E s (ok b) errs = refl
encoded-panics E s (err e) errs = refl

abi-panics :
    (E : Type 0) (s : Services) (a : Option s.Any) (msg : Option Message) (errs : List s.Err)
    → returns_no_error (abi_of s {E = E} a msg errs) ≡ true
abi-panics E s none msg errs = refl
abi-panics E s (some a) none errs = refl
abi-panics E s (some a) (some msg) errs = encoded-panics E s (s.abi_encode msg a) errs

module _ {s : Services} where
  -- setEvmResults returns no error, and changes nothing but the EVM receipts.
  abbrev pub OnlyEvm : {E : Type 0} → World s → Result (Fault E) (Unit {0}) × World s → Type 0
  OnlyEvm w r =
      (returns_no_error r.0 ≡ true) × (r.1 ≡ record w { evm_tx_receipts = r.1.evm_tx_receipts })

  store-OnlyEvm :
      {E : Type 0} (tx : TxData s.Any s.Tx) (r : Result (Fault E) (Option s.Bytes × List s.Err))
      → returns_no_error r ≡ true
      → (w : World s) (next : World s → Result (Fault E) (Unit {0}) × World s)
      → ((u : World s) → OnlyEvm u (next u))
      → OnlyEvm w (store_evm tx r w next)
  store-OnlyEvm tx (err panicked) p w next h = (refl, refl)
  store-OnlyEvm tx (err (returned e)) p w next h = cc
  store-OnlyEvm tx (ok (bytes, errs)) p w next h = h _

  result-OnlyEvm :
      {E : Type 0} (tx : TxData s.Any s.Tx) (r : Option (Receipt s.Any s.Err)) (w : World s)
      (next : World s → Result (Fault E) (Unit {0}) × World s)
      → ((u : World s) → OnlyEvm u (next u))
      → OnlyEvm w (set_evm_result tx r w next)
  result-OnlyEvm tx none w next h = h w
  result-OnlyEvm {E = E} tx (some rec) w next h =
      let msg = get_message_by_id tx.msg_id w.message_manager in
      store-OnlyEvm tx _ (abi-panics E s rec.result msg (with_missing s msg rec.errs)) w next h

  pub set_evm_results-OnlyEvm :
      (E : Type 0) (txs : List (TxData s.Any s.Tx)) (w : World s)
      → OnlyEvm w (set_evm_results {E = E} txs w)
  unfolding set_evm_results
  set_evm_results-OnlyEvm E [] w = (refl, refl)
  set_evm_results-OnlyEvm E (tx ∷ txs) w =
      result-OnlyEvm tx (get_receipt tx.tx_hash w.receipt_history) w (set_evm_results txs)
        (set_evm_results-OnlyEvm E txs)
