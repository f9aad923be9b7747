-- ===== src/Sequencer/RoundTrip.antt =====
-- From a tick's transactions in cardinal to the base shard and back to the recovery: SubmitTxBlob of
-- the router, Submit and the queue of the sequencer, the blocks, the keeper, and Each of the iterator.
use world_engine.Base.{ℕ, List, [], ◌∷◌, ◌++◌, Option, ◌≡◌, nat_eq}
use world_engine.Base.GoMap.{IsMap}
use world_engine.Base.Exec.{Result, Exec}
use world_engine.Sign.{Transaction, Crypto}
use world_engine.Shard.{Epoch}
use world_engine.Shard.Reader.{ReadError, Decoder, ShardTx, TxBatch}
use world_engine.Sequencer.Pending.{with_current}
use world_engine.Sequencer.Recorded.{Event, tick, block}
use world_engine.Sequencer.Decoded.{handed_in_order, Decodes, Made}

module _ {E Bytes Any Tx : Type 0} (d : Decoder E Bytes Any Tx) where
  abbrev AllMade : List (Epoch (ShardTx Bytes)) → List (Epoch (TxBatch Any Tx)) → Type 0
  AllMade [] [] = Unit
  AllMade [] (f ∷ m) = ⊥
  AllMade (e ∷ l) [] = ⊥
  AllMade (e ∷ l) (f ∷ m) =
      (e.epoch ≡ f.epoch) × (e.unix_timestamp ≡ f.unix_timestamp) × Made d e.txs f.txs × AllMade l m

  module _ {W : Type 0} (fn : List (TxBatch Any Tx) → ℕ → ℕ → Exec (ReadError E) W (Unit {0})) where
    abbrev pub hand_on : Epoch (TxBatch Any Tx) → Exec (ReadError E) W (Unit {0})
    hand_on e = fn e.txs e.epoch e.unix_timestamp

-- The ticks that have transactions, as the recovery gets them.
abbrev pub recovered_ticks :
    {Any : Type 0} (c : Crypto)
    → c.Hash
    → List (Event Any c.Hash)
    → List (Epoch (TxBatch Any (Transaction c.Hash)))
recovered_ticks c no_hash [] = []
recovered_ticks c no_hash (tick n timestamp txs ∷ es) =
    with_current [] n timestamp (handed_in_order c no_hash txs) ++ recovered_ticks c no_hash es
recovered_ticks c no_hash (block ∷ es) = recovered_ticks c no_hash es

-- The pools of the ticks are maps, and their transactions' bodies decode to their messages.
abbrev pub TicksDecode :
    {E Any H : Type 0} → (ℕ → Option (List ℕ → Result E Any)) → List (Event Any H) → Type 0
TicksDecode get [] = Unit
TicksDecode get (tick n timestamp txs ∷ es) = IsMap txs × Decodes get txs × TicksDecode get es
TicksDecode get (block ∷ es) = TicksDecode get es
