-- ===== src/Shard/Reader.antt =====
-- cardinal/router/iterator/iterator.go: the epochs of the base shard, read page by page. The querier
-- is a parameter, and so is the decoding of a transaction. The loop runs for at most so many rounds.
use world_engine.Base.{
  ℕ, zero, suc, List, [], ◌∷◌, Bool, true, false, ◌&&◌, not, Option, none, some, ltb, nat_eq, ◌==◌,
  if◌then◌else◌,
}
use world_engine.Base.Exec.{Result, ok, err, Exec, pure, fail, lift, ◌>>=◌, ◌>>◌}
use world_engine.Shard.{Epoch, PageOfEpochs}

pub data ReadError (E : Type 0) : Type 0 where
  first_number_must_be_less : ReadError E
  failed_to_query out_of_rounds : ReadError E
  message_does_not_exist : ℕ → ReadError E
  failed_to_unmarshal failed_to_decode from_function : E → ReadError E

-- A transaction of the base shard, and what is handed to the function.
pub record ShardTx (Bytes : Type 0) : Type 0 where
  pub tx_id : ℕ
  pub game_shard_transaction : Bytes

pub record TxBatch (Any Tx : Type 0) : Type 0 where
  pub tx : Tx
  pub msg_id : ℕ
  pub msg_value : Any

-- `decode_body` is the message's Decode, where there is a message of the ID.
pub record Decoder (E Bytes Any Tx : Type 0) : Type 0 where
  pub unmarshal : Bytes → Result E Tx
  pub get_msg_by_id : ℕ → Option (Tx → Result E Any)

module _ {E Any Tx : Type 0} where
  abbrev pub body_of : ℕ → Tx → Result E Any → Result (ReadError E) (TxBatch Any Tx)
  body_of id tx (ok a) = ok (record { tx = tx; msg_id = id; msg_value = a })
  body_of id tx (err e) = err (failed_to_decode e)

  abbrev pub unmarshalled :
      ℕ → (Tx → Result E Any) → Result E Tx → Result (ReadError E) (TxBatch Any Tx)
  unmarshalled id decode (ok tx) = body_of id tx (decode tx)
  unmarshalled id decode (err e) = err (failed_to_unmarshal e)

module _ {E Bytes Any Tx : Type 0} (d : Decoder E Bytes Any Tx) where
  abbrev pub batch_of :
      ShardTx Bytes → Option (Tx → Result E Any) → Result (ReadError E) (TxBatch Any Tx)
  batch_of t none = err (message_does_not_exist t.tx_id)
  batch_of t (some decode) = unmarshalled t.tx_id decode (d.unmarshal t.game_shard_transaction)

module _ {E Bytes Any Tx W : Type 0} (d : Decoder E Bytes Any Tx) where
  -- The loop over the transactions of an epoch.
  unfoldable pub batches_of : List (ShardTx Bytes) → Exec (ReadError E) W (List (TxBatch Any Tx))
  unfolding ◌>>=◌
  batches_of [] = pure []
  batches_of (t ∷ ts) = do
    b ← lift (batch_of d t (d.get_msg_by_id t.tx_id))
    bs ← batches_of ts
    pure (b ∷ bs)

  module _ (fn : List (TxBatch Any Tx) → ℕ → ℕ → Exec (ReadError E) W (Unit {0})) where
    unfoldable pub read_epoch : Epoch (ShardTx Bytes) → Exec (ReadError E) W (Unit {0})
    unfolding ◌>>=◌ batches_of
    read_epoch e = do batches ← batches_of e.txs; fn batches e.epoch e.unix_timestamp

    -- Past the last tick the iteration is over.
    abbrev pub is_past : ℕ → Epoch (ShardTx Bytes) → Bool
    is_past stop_tick e = not (stop_tick == 0) && ltb stop_tick e.epoch

    -- The loop over the epochs of a page: whether the next page is wanted.
    unfoldable pub read_page : ℕ → List (Epoch (ShardTx Bytes)) → Exec (ReadError E) W Bool
    unfolding ◌>>=◌ read_epoch
    read_page stop_tick [] = pure true
    read_page stop_tick (e ∷ rest) =
        let here = read_epoch e >> read_page stop_tick rest in
        if is_past stop_tick e then pure false else here

    module _ (query : Option ℕ → ℕ → Result E (PageOfEpochs (ShardTx Bytes))) where
      abbrev pub next_page :
          Bool
          → Option ℕ
          → (Option ℕ → Exec (ReadError E) W (Unit {0}))
          → Exec (ReadError E) W (Unit {0})
      next_page false key loop = pure tt
      next_page true none loop = pure tt
      next_page true (some key) loop = loop (some key)

      abbrev pub on_page :
          ℕ
          → Result E (PageOfEpochs (ShardTx Bytes))
          → (Option ℕ → Exec (ReadError E) W (Unit {0}))
          → Exec (ReadError E) W (Unit {0})
      on_page stop_tick (err e) loop = fail failed_to_query
      on_page stop_tick (ok res) loop = do
        wanted ← read_page stop_tick res.epochs
        next_page wanted res.page_key loop

      unfoldable pub read_pages : ℕ → ℕ → Option ℕ → Exec (ReadError E) W (Unit {0})
      unfolding ◌>>=◌ read_page
      read_pages zero stop_tick next_key = fail out_of_rounds
      read_pages (suc rounds) stop_tick next_key =
          on_page stop_tick (query next_key 1) (read_pages rounds stop_tick)

      -- `makePageKey(ranges[0])`, if it is not 0
      abbrev pub first_key : ℕ → Option ℕ
      first_key start = if ltb 0 start then some start else none

      -- `Each(fn, start)` and `Each(fn, start, stop)`
      unfoldable pub each_from : ℕ → ℕ → Exec (ReadError E) W (Unit {0})
      unfolding read_pages
      each_from rounds start = read_pages rounds 0 (first_key start)

      unfoldable pub each_between : ℕ → ℕ → ℕ → Exec (ReadError E) W (Unit {0})
      unfolding read_pages
      each_between rounds start stop =
          if ltb stop start
          then fail first_number_must_be_less
          else read_pages rounds stop (first_key start)
