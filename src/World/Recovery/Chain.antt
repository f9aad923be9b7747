-- ===== src/World/Recovery/Chain.antt =====
-- What cardinal/router/iterator hands to the recovery of cardinal/world_recovery.go: the recorded
-- ticks of the base shard's epochs, and the error with which the iteration ends.
use world_engine.Base.{
  ℕ, ◌+◌, ◌^◌, ◌≤◌, ◌<◌, String, List, [], ◌∷◌, Option, none, some, ◌≡◌, ◌≢◌, refl, ◌∙◌, nat_eq,
  leb, length, arith, Bool-cases, inl, inr,
}
use world_engine.Base.Exec.{Result, ok, err, Exec, pure, fail, ◌>>=◌, ◌>>◌, for_each, Result-cases}
use world_engine.Shard.{Epoch, Kv, Keeper, ShardError}
use world_engine.Shard.Pages.{Ascends, from_epoch, put_epoch, IsOrderedStore}
use world_engine.Shard.Reader.{
  ReadError, Decoder, ShardTx, TxBatch, batch_of, batches_of, read_epoch, each_from,
}
use world_engine.Shard.Replayed.{
  query_keeper, put_all, put_all-Ascends, submit_all, each_from-read_epoch,
}
use world_engine.World.Types.{RecordedTick}
use world_engine.World.Recovery.Ticks.{AscendingFrom}

module _ {Tx : Type 0} where
  -- The number after each epoch's is below 2^64 too.
  abbrev pub AllBelow : List (Epoch Tx) → Type 0
  AllBelow [] = Unit
  AllBelow (e ∷ l) = (e.epoch + 1 < 2 ^ 64) × AllBelow l

  put_epoch-AllBelow :
      (e : Epoch Tx) (l : List (Epoch Tx))
      → e.epoch + 1 < 2 ^ 64
      → AllBelow l
      → AllBelow (put_epoch e l)
  put_epoch-AllBelow e [] h k = (h, tt)
  put_epoch-AllBelow e (f ∷ l) h k = ground (arith, put_epoch-AllBelow e l h k.1)

  put_all-AllBelow : (es l : List (Epoch Tx)) → AllBelow es → AllBelow l → AllBelow (put_all es l)
  put_all-AllBelow [] l h k = k
  put_all-AllBelow (e ∷ es) l h k =
      put_all-AllBelow es (put_epoch e l) h.1 (put_epoch-AllBelow e l h.0 k)

  -- Epochs that ascend from a number on, and are below 2^64.
  abbrev InOrder : ℕ → List (Epoch Tx) → Type 0
  InOrder start [] = Unit
  InOrder start (e ∷ l) = (start ≤ e.epoch) × (e.epoch + 1 < 2 ^ 64) × InOrder (e.epoch + 1) l

  Ascends-InOrder :
      (start : ℕ) (e : Epoch Tx) (l : List (Epoch Tx))
      → start ≤ e.epoch
      → Ascends (e ∷ l)
      → AllBelow (e ∷ l)
      → InOrder start (e ∷ l)
  Ascends-InOrder start e [] le h k = (le, k.0, tt)
  Ascends-InOrder start e (f ∷ l) le h k =
      (le, k.0, Ascends-InOrder (e.epoch + 1) f l (omega arith) h.1 k.1)

  from_epoch-InOrder :
      (start : ℕ) (l : List (Epoch Tx))
      → Ascends l
      → AllBelow l
      → InOrder start (from_epoch start l)
  from_epoch-InOrder start [] h k = tt
  from_epoch-InOrder start (e ∷ l) h k = elim (Bool-cases (leb start e.epoch)) [
    | inl b ↦ rw b (Ascends-InOrder start e l (ground arith) h k)
    | inr b ↦ rw b (from_epoch-InOrder start l (tail_of e l h) k.1)
  ]
    where
      tail_of : (e : Epoch Tx) (l : List (Epoch Tx)) → Ascends (e ∷ l) → Ascends l
      tail_of e [] h = tt
      tail_of e (f ∷ l) h = h.1

abbrev pub in_front : {E A : Type 0} → Result E A → Result E (List A) → Result E (List A)
in_front (err x) rest = err x
in_front (ok a) (err x) = err x
in_front (ok a) (ok rest) = ok (a ∷ rest)

-- The end of the iteration.
abbrev pub ended : {E W : Type 0} → Option (ReadError E) → Exec (ReadError E) W (Unit {0})
ended none = pure tt
ended (some x) = fail x

module _ {E Bytes Any Tx : Type 0} (d : Decoder E Bytes Any Tx) where
  -- The batches of an epoch's transactions, which do not depend on a state.
  abbrev pub decoded : List (ShardTx Bytes) → Result (ReadError E) (List (TxBatch Any Tx))
  decoded [] = ok []
  decoded (t ∷ ts) = in_front (batch_of d t (d.get_msg_by_id t.tx_id)) (decoded ts)

  -- An epoch before the ticks of the others: the ticks end at an epoch that cannot be decoded.
  abbrev pub before :
      Epoch (ShardTx Bytes)
      → Result (ReadError E) (List (TxBatch Any Tx))
      → List (RecordedTick Any Tx) × Option (ReadError E)
      → List (RecordedTick Any Tx) × Option (ReadError E)
  before e (err x) rest = ([], some x)
  before e (ok bs) rest =
      (record { batches = bs; at_tick = e.epoch; timestamp = e.unix_timestamp } ∷ rest.0, rest.1)

  abbrev pub iterated :
      List (Epoch (ShardTx Bytes)) → List (RecordedTick Any Tx) × Option (ReadError E)
  iterated [] = ([], none)
  iterated (e ∷ l) = before e (decoded e.txs) (iterated l)

  iterated-AscendingFrom :
      (start : ℕ) (l : List (Epoch (ShardTx Bytes)))
      → InOrder start l
      → AscendingFrom start (iterated l).0
  iterated-AscendingFrom start [] h = tt
  iterated-AscendingFrom start (e ∷ l) h = elim (Result-cases (decoded e.txs)) [
    | inl (bs, k) ↦ rw k (h.0, h.1, iterated-AscendingFrom (e.epoch + 1) l h.2)
    | inr (x, k) ↦ rw k tt
  ]

  module _ {W : Type 0} where
    batches_of-decoded : (ts : List (ShardTx Bytes)) (w : W) → batches_of d ts w ≡ (decoded ts, w)
    unfolding batches_of ◌>>=◌ pure
    batches_of-decoded [] w = refl
    batches_of-decoded (t ∷ ts) w = elim (Result-cases (batch_of d t (d.get_msg_by_id t.tx_id))) [
      | inl (b, k) ↦ elim (Result-cases (decoded ts)) [
        | inl (bs, m) ↦ rw (k, batches_of-decoded ts w, m) refl
        | inr (x, m) ↦ rw (k, batches_of-decoded ts w, m) refl
      ]
      | inr (x, k) ↦ rw k refl
    ]

    module _ (fn : List (TxBatch Any Tx) → ℕ → ℕ → Exec (ReadError E) W (Unit {0})) where
      abbrev pub on_tick : RecordedTick Any Tx → Exec (ReadError E) W (Unit {0})
      on_tick t = fn t.batches t.at_tick t.timestamp

      for_each-iterated :
          (l : List (Epoch (ShardTx Bytes))) (w : W)
          → for_each l (read_epoch d fn) w
            ≡ (for_each (iterated l).0 on_tick >> ended (iterated l).1) w
      unfolding for_each read_epoch ◌>>=◌ pure
      for_each-iterated [] w = refl
      for_each-iterated (e ∷ l) w = elim (Result-cases (decoded e.txs)) [
        | inr (x, k) ↦ rw (batches_of-decoded e.txs w, k) refl
        | inl (bs, k) ↦
            rw (batches_of-decoded e.txs w, k)
              elim (Result-cases (fn bs e.epoch e.unix_timestamp w).0) [
                | inl (u, m) ↦ rw m (for_each-iterated l (fn bs e.epoch e.unix_timestamp w).1)
                | inr (x, m) ↦ rw m refl
              ]
      ]

  -- Over a keeper whose store holds what submissions in a row have left in it, Each does what the
  -- recovery takes it to do: it calls its function with the recorded ticks of the epochs from `start`
  -- on, each with the transactions of the last submission of its number, decoded, and after them ends
  -- with the error of the first epoch that cannot be decoded, if there is one and the function has
  -- returned none before. The numbers of those ticks ascend from `start` on and are below 2^64. (The
  -- rounds of Each are more than there are such epochs. The number after a submitted epoch's is below
  -- 2^64; the store keeps a value for each key and iterates in the order of the keys; the namespace is
  -- not empty.)
  pub each_from-iterated :
      {W : Type 0} (fn : List (TxBatch Any Tx) → ℕ → ℕ → Exec (ReadError E) W (Unit {0}))
      (kv : Kv (Epoch (ShardTx Bytes))) (f : ShardError → E) (ns auth : String) (k : Keeper kv.Db)
      (es : List (Epoch (ShardTx Bytes))) (rounds start : ℕ)
      → IsOrderedStore kv
      → ns ≢ ""
      → kv.iterate none (k.stores ns) ≡ []
      → AllBelow es
      → length (from_epoch start (put_all es [])) < rounds
      → (w : W)
      → let (ticks, last) = iterated (from_epoch start (put_all es [])) in
        (each_from d fn
            (query_keeper kv f ns ((submit_all kv auth ns es k).stores ns))
            rounds
            start
            w
          ≡ (for_each ticks (on_tick fn) >> ended last) w)
        × AscendingFrom start ticks
  each_from-iterated fn kv f ns auth k es rounds start law named empty below enough w =
      let epochs = put_all es [] in
      (
        each_from-read_epoch d fn kv f ns auth k es rounds start law named empty enough w
            ∙ for_each-iterated fn (from_epoch start epochs) w,
        iterated-AscendingFrom start (from_epoch start epochs) (
            from_epoch-InOrder start epochs (put_all-Ascends es [] tt)
              (put_all-AllBelow es [] below tt)),
      )
