-- ===== src/Shard/Replayed.antt =====
-- The iterator of cardinal/router/iterator over the keeper of evm/x/shard: a cardinal reads back what
-- the base shard holds.
use world_engine.Base.{
  ℕ, zero, suc, ◌<◌, String, List, [], ◌∷◌, true, Option, none, some, ◌≡◌, ◌≢◌, refl, sym, ap,
  subst, ◌∙◌, nat_eq, string_eq, arith, ltb, length, beq_ne, beq_refl, Bool-cases, inl, inr,
}
use mathlib.Core.Path.{fun_ext}
use world_engine.Base.Exec.{Result, ok, err, Exec, pure, ◌>>=◌, ◌>>◌, for_each, Result-cases}
use world_engine.Shard.{
  Epoch, PageOfEpochs, ShardError, Kv, Keeper, transactions, save_transactions, submit_shard_tx,
  extract_page_request, is_empty_or_default,
}
use world_engine.Shard.Pages.{
  Ascends, from_epoch, put_epoch, IsOrderedStore, one_page, take_page-one_page, from_epoch-next,
}
use world_engine.Shard.Reader.{
  ReadError, Decoder, ShardTx, TxBatch, read_epoch, next_page, read_pages, each_from,
}

-- The server's answer to the iterator's query.
abbrev pub answered : {E A : Type 0} → (ShardError → E) → Result ShardError A → Result E A
answered f (ok a) = ok a
answered f (err e) = err (f e)

module _ {Tx E : Type 0} (kv : Kv (Epoch Tx)) (f : ShardError → E) (namespace : String)
    (db : kv.Db) where
  unfoldable pub query_keeper : Option ℕ → ℕ → Result E (PageOfEpochs Tx)
  unfolding transactions
  query_keeper key limit =
      answered f (transactions kv namespace (some (record { key = key; limit = limit })) db)

  query-one_page :
      (key : Option ℕ) → namespace ≢ "" → query_keeper key 1 ≡ ok (one_page (kv.iterate key db))
  unfolding query_keeper extract_page_request is_empty_or_default
  query-one_page none named = rw (beq_ne namespace "" named, take_page-one_page) refl
  query-one_page (some k) named = rw (beq_ne namespace "" named, take_page-one_page) refl

module _ {E Bytes Any Tx W : Type 0} (d : Decoder E Bytes Any Tx)
    (fn : List (TxBatch Any Tx) → ℕ → ℕ → Exec (ReadError E) W (Unit {0})) where
  abbrev reading : Epoch (ShardTx Bytes) → Exec (ReadError E) W (Unit {0})
  reading = read_epoch d fn

  module _ (query : Option ℕ → ℕ → Result E (PageOfEpochs (ShardTx Bytes))) where
    -- A page of one epoch, and what follows it.
    last_page :
        (m : Exec (ReadError E) W (Unit {0})) (loop : Option ℕ → Exec (ReadError E) W (Unit {0}))
        (w : W)
        → ((m >> pure true) >>= λ wanted. next_page d fn query wanted none loop) w
          ≡ (m >> pure tt) w
    unfolding ◌>>=◌ pure
    last_page m loop w = elim (Result-cases (m w).0) [
      | inl (u, h) ↦ rw h refl
      | inr (e, h) ↦ rw h refl
    ]

    next_of :
        (k : ℕ) (m : Exec (ReadError E) W (Unit {0}))
        (loop : Option ℕ → Exec (ReadError E) W (Unit {0})) (w : W)
        → ((m >> pure true) >>= λ wanted. next_page d fn query wanted (some k) loop) w
          ≡ (m >> loop (some k)) w
    unfolding ◌>>=◌ pure
    next_of k m loop w = elim (Result-cases (m w).0) [
      | inl (u, h) ↦ rw h refl
      | inr (e, h) ↦ rw h refl
    ]

    module _ (all : List (Epoch (ShardTx Bytes))) (ascends : Ascends all)
        (pages : (start : ℕ) → query (some start) 1 ≡ ok (one_page (from_epoch start all))) where
      -- From a page on, the loop reads the rest of the epochs.
      rest_of_pages :
          (rounds : ℕ) (key : Option ℕ) (start : ℕ) (l : List (Epoch (ShardTx Bytes)))
          → query key 1 ≡ ok (one_page l)
          → from_epoch start all ≡ l
          → length l < rounds
          → (w : W) → read_pages d fn query rounds 0 key w ≡ for_each l reading w
      unfolding read_pages for_each
      rest_of_pages zero key start l page here enough w = absurd (omega arith)
      rest_of_pages (suc rounds) key start [] page here enough w = rw page refl
      rest_of_pages (suc rounds) key start (e ∷ []) page here enough w =
          rw page (last_page (reading e) _ w)
      rest_of_pages (suc rounds) key start (e ∷ g ∷ rest) page here enough w =
          let next = from_epoch-next start all rest e g ascends here in
          let later : (v : W)
              → read_pages d fn query rounds 0 (some g.epoch) v ≡ for_each (g ∷ rest) reading v =
            λ v.
              rest_of_pages rounds (some g.epoch) g.epoch (g ∷ rest)
                (pages g.epoch ∙ ap (λ x. ok (one_page x)) next) next (omega arith) v in
          rw page (
            next_of g.epoch (reading e) (read_pages d fn query rounds 0) w
            ∙ ap (λ k. (reading e >> k) w) (fun_ext later))

from_zero : {Tx : Type 0} (l : List (Epoch Tx)) → from_epoch 0 l ≡ l
from_zero [] = refl
from_zero (e ∷ l) = ground arith

put_epoch-Ascends :
    {Tx : Type 0} (e : Epoch Tx) (l : List (Epoch Tx)) → Ascends l → Ascends (put_epoch e l)
put_epoch-Ascends e [] h = tt
put_epoch-Ascends e (f ∷ []) h = ground arith
put_epoch-Ascends e (f ∷ g ∷ rest) h = ground (arith, put_epoch-Ascends e (g ∷ rest) h.1)

module _ {Tx : Type 0} where
  -- The epochs that are left of submissions in a row: the last of each number, in order.
  abbrev pub put_all : List (Epoch Tx) → List (Epoch Tx) → List (Epoch Tx)
  put_all [] l = l
  put_all (e ∷ es) l = put_all es (put_epoch e l)

  pub put_all-Ascends : (es l : List (Epoch Tx)) → Ascends l → Ascends (put_all es l)
  put_all-Ascends [] l h = h
  put_all-Ascends (e ∷ es) l h = put_all-Ascends es (put_epoch e l) (put_epoch-Ascends e l h)

  -- Submissions by the module itself.
  abbrev pub submit_all :
      (kv : Kv (Epoch Tx)) → String → String → List (Epoch Tx) → Keeper kv.Db → Keeper kv.Db
  submit_all kv auth ns [] k = k
  submit_all kv auth ns (e ∷ es) k =
      submit_all kv auth ns es (submit_shard_tx kv auth auth ns e k).1

  accepted :
      (kv : Kv (Epoch Tx)) (auth ns : String) (e : Epoch Tx) (k : Keeper kv.Db)
      → submit_shard_tx kv auth auth ns e k ≡ (ok tt, save_transactions kv ns e k)
  unfolding submit_shard_tx
  accepted kv auth ns e k = rw (beq_refl auth) refl

  saved :
      (kv : Kv (Epoch Tx)) (ns : String) (e : Epoch Tx) (k : Keeper kv.Db)
      → IsOrderedStore kv
      → kv.iterate none ((save_transactions kv ns e k).stores ns)
        ≡ put_epoch e (kv.iterate none (k.stores ns))
  unfolding save_transactions
  saved kv ns e k law = rw (beq_refl ns) (law.set_value e (k.stores ns))

  pub submitted-epochs :
      (kv : Kv (Epoch Tx)) (auth ns : String) (es : List (Epoch Tx)) (k : Keeper kv.Db)
      → IsOrderedStore kv
      → kv.iterate none ((submit_all kv auth ns es k).stores ns)
        ≡ put_all es (kv.iterate none (k.stores ns))
  submitted-epochs kv auth ns [] k law = refl
  submitted-epochs kv auth ns (e ∷ es) k law =
      ap (λ r. kv.iterate none ((submit_all kv auth ns es r.1).stores ns)) (accepted kv auth ns e k)
      ∙ submitted-epochs kv auth ns es (save_transactions kv ns e k) law
      ∙ ap (put_all es) (saved kv ns e k law)

module _ {E Bytes Any Tx W : Type 0} (d : Decoder E Bytes Any Tx)
    (fn : List (TxBatch Any Tx) → ℕ → ℕ → Exec (ReadError E) W (Unit {0})) where
  pub keeper-pages :
      (kv : Kv (Epoch (ShardTx Bytes))) (f : ShardError → E) (namespace : String) (db : kv.Db)
      (rounds start : ℕ)
      → IsOrderedStore kv
      → namespace ≢ ""
      → Ascends (kv.iterate none db)
      → length (from_epoch start (kv.iterate none db)) < rounds
      → (w : W)
      → each_from d fn (query_keeper kv f namespace db) rounds start w
        ≡ for_each (from_epoch start (kv.iterate none db)) (read_epoch d fn) w
  unfolding each_from
  keeper-pages kv f namespace db rounds start law named ascends enough w =
      let all = kv.iterate none db in
      let query = query_keeper kv f namespace db in
      let pages : (k : ℕ) → query (some k) 1 ≡ ok (one_page (from_epoch k all)) = λ k.
        query-one_page kv f namespace db (some k) named
        ∙ ap (λ l. ok (one_page l)) (law.iterate_from k db) in
      elim (Bool-cases (ltb 0 start)) [
        | inl e ↦ rw e (
            rest_of_pages d fn query all ascends pages rounds (some start) start
              (from_epoch start all) (pages start) refl enough w)
        | inr e ↦
            let zero_start : start ≡ 0 = ground arith in
            let page : query none 1 ≡ ok (one_page (from_epoch start all)) =
              query-one_page kv f namespace db none named
              ∙ ap (λ l. ok (one_page l))
                  (sym (from_zero all) ∙ ap (λ k. from_epoch k all) (sym zero_start)) in
            rw e (
              rest_of_pages d fn query all ascends pages rounds none start (from_epoch start all)
                page refl enough w)
      ]

  pub each_from-read_epoch :
      (kv : Kv (Epoch (ShardTx Bytes))) (f : ShardError → E) (ns auth : String) (k : Keeper kv.Db)
      (es : List (Epoch (ShardTx Bytes))) (rounds start : ℕ)
      → IsOrderedStore kv
      → ns ≢ ""
      → kv.iterate none (k.stores ns) ≡ []
      → length (from_epoch start (put_all es [])) < rounds
      → (w : W)
      → each_from d fn
          (query_keeper kv f ns ((submit_all kv auth ns es k).stores ns))
          rounds
          start
          w
        ≡ for_each (from_epoch start (put_all es [])) (read_epoch d fn) w
  each_from-read_epoch kv f ns auth k es rounds start law named empty enough w =
      let db = (submit_all kv auth ns es k).stores ns in
      let now : kv.iterate none db ≡ put_all es [] =
        submitted-epochs kv auth ns es k law ∙ ap (put_all es) empty in
      keeper-pages kv f ns db rounds start law named
        (subst Ascends (sym now) (put_all-Ascends es [] tt))
        (subst (λ l. length (from_epoch start l) < rounds) (sym now) enough) w
      ∙ ap (λ l. for_each (from_epoch start l) (read_epoch d fn) w) now
