-- ===== src/Sequencer/Sent.antt =====
-- The map of SubmitTxBlob has the keys of the pool, and its transactions as they are sent.
use world_engine.Base.{
  ℕ, List, [], ◌∷◌, ◌++◌, none, ◌≡◌, ◌≢◌, refl, sym, ap, ◌∙◌, nat_eq, ◌==◌, arith, count,
  contains_iff_count, Option-cases, Bool-cases, inl, inr,
}
use mathlib.Core.List.{append-nil, append_assoc}
use world_engine.Base.GoMap.{GoMap, lookup, keys, IsMap, contains-keys}
use world_engine.TxPool.{TxMap}
use world_engine.Sign.{Transaction}
use world_engine.Sequencer.{or_nil}
use world_engine.Sequencer.Router.{ProtoTx, proto_txs, proto_map}
use world_engine.Sequencer.Pending.{insert_new}

pub lookup-append_other :
    (id k : ℕ) (v : List ProtoTx) (m : GoMap ℕ (List ProtoTx))
    → lookup id m ≡ none
    → k ≢ id
    → lookup id (m ++ (k, v) ∷ []) ≡ none
unfolding lookup
lookup-append_other id k v [] h ne = ground arith
lookup-append_other id k v ((j, w) ∷ m) h ne = ground (arith, lookup-append_other id k v m)

module _ {V : Type 0} where
  pub cons_none :
      (id j : ℕ) (v : V) (m : GoMap ℕ V)
      → lookup id ((j, v) ∷ m) ≡ none
      → (id ≢ j) × (lookup id m ≡ none)
  unfolding lookup
  cons_none id j v m h = ground (arith, h)

  pub IsMap-head : (id : ℕ) (v : V) (m : GoMap ℕ V) → IsMap ((id, v) ∷ m) → lookup id m ≡ none
  unfolding keys count
  IsMap-head id v m h = elim (Option-cases (lookup id m)) [
    | inl e ↦ e
    | inr (w, e) ↦ ground (arith, h id, contains_iff_count id (keys m), contains-keys id m, e)
  ]

  pub IsMap-tail : (id : ℕ) (v : V) (m : GoMap ℕ V) → IsMap ((id, v) ∷ m) → IsMap m
  unfolding keys count
  IsMap-tail id v m h k = ground (arith, h k)

module _ {Any H : Type 0} where
  abbrev pub sent : TxMap Any (Transaction H) → GoMap ℕ (List ProtoTx)
  sent [] = []
  sent ((id, txs) ∷ rest) = (id, proto_txs txs) ∷ sent rest

  abbrev pub IsApart : GoMap ℕ (List ProtoTx) → TxMap Any (Transaction H) → Type 0
  IsApart m [] = Unit
  IsApart m ((id, txs) ∷ rest) = (lookup id m ≡ none) × (lookup id rest ≡ none) × IsApart m rest

  pub IsApart-append :
      (id : ℕ) (v : List ProtoTx) (m : GoMap ℕ (List ProtoTx)) (rest : TxMap Any (Transaction H))
      → IsApart m rest
      → lookup id rest ≡ none
      → IsApart (m ++ (id, v) ∷ []) rest
  IsApart-append id v m [] h off = tt
  IsApart-append id v m ((j, txs) ∷ rest) (a, b, h) off =
      let (other, rest_off) = cons_none id j txs rest off in
      (lookup-append_other j id v m a other, b, IsApart-append id v m rest h rest_off)

  pub proto_map-sent :
      (txs : TxMap Any (Transaction H)) (m : GoMap ℕ (List ProtoTx))
      → IsApart m txs
      → proto_map txs m ≡ m ++ sent txs
  unfolding proto_map
  proto_map-sent [] m h = sym (append-nil m)
  proto_map-sent ((id, txs) ∷ rest) m (a, b, h) =
      ap (proto_map rest) (insert_new id _ m a)
      ∙ proto_map-sent rest (m ++ (id, proto_txs txs) ∷ []) (IsApart-append id _ m rest h b)
      ∙ append_assoc m _ _

  pub map-IsApart : (txs : TxMap Any (Transaction H)) → IsMap txs → IsApart [] txs
  unfolding lookup
  map-IsApart [] h = tt
  map-IsApart ((id, txs) ∷ rest) h =
      (refl, IsMap-head id txs rest h, map-IsApart rest (IsMap-tail id txs rest h))

  pub keys-sent : (txs : TxMap Any (Transaction H)) → keys (sent txs) ≡ keys txs
  unfolding keys
  keys-sent [] = refl
  keys-sent ((id, txs) ∷ rest) = ap (λ l. id ∷ l) (keys-sent rest)

  pub lookup-sent :
      (id : ℕ) (txs : TxMap Any (Transaction H))
      → or_nil (lookup id (sent txs)) ≡ proto_txs (or_nil (lookup id txs))
  unfolding lookup
  lookup-sent id [] = refl
  lookup-sent id ((j, txs) ∷ rest) = elim (Bool-cases (j == id)) [
    | inl e ↦ rw e refl
    | inr e ↦ rw e (lookup-sent id rest)
  ]

  -- The map that SubmitTxBlob makes has the same keys and the transactions as they are sent.
  pub proto_map-all : (txs : TxMap Any (Transaction H)) → IsMap txs → proto_map txs [] ≡ sent txs
  proto_map-all txs h = proto_map-sent txs [] (map-IsApart txs h)
