-- ===== src/TxPool/Tests.antt =====
-- Tests of the transaction pool.
use world_engine.Base.{ℕ, String, ◌≡◌, List, [], ◌∷◌, length}
use world_engine.TxPool.{new, copy_transactions, get_evm_txs}
use world_engine.TxPool.History.{
  Call, adds, adds_evm, copies, run, came_in, Holds, evm_count, copy_transactions_exact,
}

abbrev calls : List (Call ℕ String)
calls = adds 1 10 "a" ∷ copies ∷ adds 2 20 "b" ∷ adds_evm 1 30 "c" "0xabc" ∷ []

copy_transactions_exact_example :
    Holds (copy_transactions (run (λ tx. tx) calls new)).0 (came_in (λ tx. tx) calls [])
    × Holds (copy_transactions (run (λ tx. tx) calls new)).1 []
    × (length (get_evm_txs (copy_transactions (run (λ tx. tx) calls new)).0)
        ≡ evm_count (came_in (λ tx. tx) calls []))
copy_transactions_exact_example = copy_transactions_exact (λ tx. tx) calls
