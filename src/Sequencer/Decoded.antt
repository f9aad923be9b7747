-- ===== src/Sequencer/Decoded.antt =====
-- What the iterator makes of the transactions that SubmitTxBlob sent.
use world_engine.Base.{
  ℕ, List, [], ◌∷◌, ◌++◌, Bool, true, false, Option, none, some, ◌≡◌, refl, sym, ap, ◌∙◌, subst,
  nat_eq, if◌then◌else◌, leb, Option-cases, inl, inr,
}
use world_engine.Base.GoMap.{lookup, IsMap}
use world_engine.Base.Exec.{Result, ok, err}
use world_engine.TxPool.{TxData, TxMap}
use world_engine.Sign.{Transaction, Crypto, populate_hash}
use world_engine.Shard.Reader.{Decoder, ShardTx, TxBatch, batch_of, batches_of}
use world_engine.Sequencer.{or_nil, sort_map_keys, sort_keys}
use world_engine.Sequencer.Router.{ProtoTx, proto_of, proto_txs, proto_map, proto_tx_to_sign_tx}
use world_engine.Sequencer.Flushed.{with_id, by_ids, in_order}
use world_engine.Sequencer.Sent.{sent, keys-sent, lookup-sent, proto_map-all}

module _ {E Bytes : Type 0} (c : Crypto) (no_hash : c.Hash)
    (unmarshal : Bytes → Result E ProtoTx) where
  abbrev pub signed : Result E ProtoTx → Result E (Transaction c.Hash)
  signed (ok p) = ok (proto_tx_to_sign_tx c no_hash p)
  signed (err e) = err e

  module _ {Any : Type 0} (get : ℕ → Option (List ℕ → Result E Any)) where
    abbrev pub decoding :
        Option (List ℕ → Result E Any) → Option (Transaction c.Hash → Result E Any)
    decoding none = none
    decoding (some decode) = some (λ tx. decode tx.body)

    -- The iterator's decoder: protobuf, protoTxToSignTx and the messages' Decode.
    abbrev pub decoder : Decoder E Bytes Any (Transaction c.Hash)
    decoder = record {
      unmarshal = λ bz. signed (unmarshal bz);
      get_msg_by_id = λ id. decoding (get id);
    }

-- A transaction as it comes back: without its salt, and with a hash that is made without it.
abbrev pub recovered : (c : Crypto) → c.Hash → Transaction c.Hash → Transaction c.Hash
recovered c no_hash tx = proto_tx_to_sign_tx c no_hash (proto_of tx)

either_body :
    {H : Type 0} (b : Bool) (x y : Transaction H)
    → x.body ≡ y.body
    → (if b then x else y).body ≡ y.body
either_body true x y h = h
either_body false x y h = refl

recovered-body :
    (c : Crypto) (no_hash : c.Hash) (tx : Transaction c.Hash)
    → (recovered c no_hash tx).body ≡ tx.body
unfolding proto_tx_to_sign_tx populate_hash
recovered-body c no_hash tx = either_body (c.is_zero_hash no_hash) _ _ refl

module _ {Any : Type 0} (c : Crypto) (no_hash : c.Hash) where
  abbrev pub batches_with :
      ℕ → List (TxData Any (Transaction c.Hash)) → List (TxBatch Any (Transaction c.Hash))
  batches_with id [] = []
  batches_with id (t ∷ ts) =
      record { tx = recovered c no_hash t.tx; msg_id = id; msg_value = t.msg } ∷ batches_with id ts

  abbrev pub handed :
      TxMap Any (Transaction c.Hash) → List ℕ → List (TxBatch Any (Transaction c.Hash))
  handed txs [] = []
  handed txs (id ∷ ids) = batches_with id (or_nil (lookup id txs)) ++ handed txs ids

  -- All transactions of a tick, by the IDs of their messages.
  abbrev pub handed_in_order :
      TxMap Any (Transaction c.Hash) → List (TxBatch Any (Transaction c.Hash))
  handed_in_order txs = handed txs (sort_map_keys leb txs)

module _ {E Any H : Type 0} where
  abbrev pub AllDecode : Option (List ℕ → Result E Any) → List (TxData Any (Transaction H)) → Type 0
  AllDecode d [] = Unit
  AllDecode none (t ∷ ts) = ⊥
  AllDecode (some decode) (t ∷ ts) = (decode t.tx.body ≡ ok t.msg) × AllDecode (some decode) ts

  -- Each transaction's body decodes to its message.
  abbrev pub Decodes : (ℕ → Option (List ℕ → Result E Any)) → TxMap Any (Transaction H) → Type 0
  Decodes get txs = (id : ℕ) → AllDecode (get id) (or_nil (lookup id txs))

module _ {E Bytes Any Tx : Type 0} (d : Decoder E Bytes Any Tx) where
  abbrev pub Made : List (ShardTx Bytes) → List (TxBatch Any Tx) → Type 0
  Made [] [] = Unit
  Made [] (b ∷ bs) = ⊥
  Made (t ∷ ts) [] = ⊥
  Made (t ∷ ts) (b ∷ bs) = (batch_of d t (d.get_msg_by_id t.tx_id) ≡ ok b) × Made ts bs

  Made-append :
      (ts us : List (ShardTx Bytes)) (bs cs : List (TxBatch Any Tx))
      → Made ts bs
      → Made us cs
      → Made (ts ++ us) (bs ++ cs)
  Made-append [] us [] cs h k = k
  Made-append [] us (b ∷ bs) cs h k = absurd h
  Made-append (t ∷ ts) us [] cs h k = absurd h
  Made-append (t ∷ ts) us (b ∷ bs) cs (e, h) k = (e, Made-append ts us bs cs h k)

  pub batches_of-Made :
      {W : Type 0} (ts : List (ShardTx Bytes)) (bs : List (TxBatch Any Tx)) (w : W)
      → Made ts bs
      → batches_of d ts w ≡ (ok bs, w)
  unfolding batches_of
  batches_of-Made [] [] w h = refl
  batches_of-Made [] (b ∷ bs) w h = absurd h
  batches_of-Made (t ∷ ts) [] w h = absurd h
  batches_of-Made (t ∷ ts) (b ∷ bs) w (e, h) = rw (e, batches_of-Made ts bs w h) refl

module _ {E Bytes Any : Type 0} (c : Crypto) (no_hash : c.Hash)
    (unmarshal : Bytes → Result E ProtoTx) (encode : ProtoTx → Bytes)
    (round : (p : ProtoTx) → unmarshal (encode p) ≡ ok p)
    (get : ℕ → Option (List ℕ → Result E Any)) where
  abbrev dec : Decoder E Bytes Any (Transaction c.Hash)
  dec = decoder c no_hash unmarshal get

  with_id-Made :
      (id : ℕ) (ts : List (TxData Any (Transaction c.Hash)))
      → AllDecode (get id) ts
      → Made dec (with_id encode id (proto_txs ts)) (batches_with c no_hash id ts)
  with_id-Made id [] h = tt
  with_id-Made id (t ∷ ts) h = elim (Option-cases (get id)) [
    | inl e ↦ absurd (subst (λ o. AllDecode o (t ∷ ts)) e h)
    | inr (decode, e) ↦
        let (first, later) = subst (λ o. AllDecode o (t ∷ ts)) e h in
        let body : decode (recovered c no_hash t.tx).body ≡ ok t.msg =
          ap decode (recovered-body c no_hash t.tx) ∙ first in
        (
          rw (e, round (proto_of t.tx), body) refl,
          with_id-Made id ts (subst (λ o. AllDecode o ts) (sym e) later),
        )
  ]

  by_ids-Made :
      (txs : TxMap Any (Transaction c.Hash)) (ids : List ℕ)
      → Decodes get txs
      → Made dec (by_ids encode (sent txs) ids) (handed c no_hash txs ids)
  by_ids-Made txs [] h = tt
  by_ids-Made txs (id ∷ ids) h =
      Made-append dec _ _ _ _
        (subst
          (λ ps.
            Made dec (with_id encode id ps) (batches_with c no_hash id (or_nil (lookup id txs))))
          (sym (lookup-sent id txs)) (with_id-Made id _ (h id)))
        (by_ids-Made txs ids h)

  pub in_order-Made :
      (txs : TxMap Any (Transaction c.Hash))
      → IsMap txs
      → Decodes get txs
      → Made dec (in_order encode (proto_map txs [])) (handed_in_order c no_hash txs)
  unfolding sort_map_keys
  in_order-Made txs is_map h =
      subst (λ m. Made dec (in_order encode m) (handed_in_order c no_hash txs))
        (sym (proto_map-all txs is_map))
        (subst
          (λ ks.
            Made dec (by_ids encode (sent txs) (sort_keys leb ks)) (handed_in_order c no_hash txs))
          (sym (keys-sent txs)) (by_ids-Made txs (sort_map_keys leb txs) h))
