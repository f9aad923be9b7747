-- ===== src/Shard/Pages.antt =====
-- The pages of evm/x/shard, one epoch at a time, against the list of the epochs.
use world_engine.Base.{
  ℕ, ◌≤◌, ◌<◌, List, [], ◌∷◌, none, some, ◌≡◌, refl, ap, subst, ◌∙◌, nat_eq, string_eq, ◌==◌,
  if◌then◌else◌, arith, leb,
}
use world_engine.Shard.{Epoch, PageOfEpochs, Kv, take_page}

module _ {Tx : Type 0} where
  -- The numbers of the epochs ascend.
  abbrev pub Ascends : List (Epoch Tx) → Type 0
  Ascends [] = Unit
  Ascends (e ∷ []) = Unit
  Ascends (e ∷ f ∷ rest) = (e.epoch < f.epoch) × Ascends (f ∷ rest)

  -- The epochs from a number on.
  abbrev pub from_epoch : ℕ → List (Epoch Tx) → List (Epoch Tx)
  from_epoch start [] = []
  from_epoch start (e ∷ rest) = if leb start e.epoch then e ∷ rest else from_epoch start rest

  -- The epochs with one more, in its place, where it replaces one of the same number.
  abbrev pub put_epoch : Epoch Tx → List (Epoch Tx) → List (Epoch Tx)
  put_epoch e [] = e ∷ []
  put_epoch e (f ∷ rest) =
      let later = put_epoch e rest in
      if e.epoch == f.epoch
      then e ∷ rest
      else if leb e.epoch f.epoch
      then e ∷ f ∷ rest
      else f ∷ later

-- What the keeper relies on in its store: it keeps a value for each key, and iterates over the keys
-- in ascending order, from a given one on.
pub record IsOrderedStore {Tx : Type 0} (kv : Kv (Epoch Tx)) : Type 0 where
  pub iterate_from :
      (start : ℕ) (db : kv.Db) → kv.iterate (some start) db ≡ from_epoch start (kv.iterate none db)
  pub set_value :
      (e : Epoch Tx) (db : kv.Db)
      → kv.iterate none (kv.set e.epoch e db) ≡ put_epoch e (kv.iterate none db)

module _ {Tx : Type 0} where
  -- The page of one epoch from a list of epochs.
  abbrev pub one_page : List (Epoch Tx) → PageOfEpochs Tx
  one_page [] = record { epochs = []; page_key = none }
  one_page (e ∷ []) = record { epochs = e ∷ []; page_key = none }
  one_page (e ∷ f ∷ rest) = record { epochs = e ∷ []; page_key = some f.epoch }

  pub take_page-one_page :
      (l : List (Epoch Tx)) → take_page 1 0 (record { epochs = []; page_key = none }) l ≡ one_page l
  unfolding take_page
  take_page-one_page [] = refl
  take_page-one_page (e ∷ []) = refl
  take_page-one_page (e ∷ f ∷ rest) = refl

  from_head : (f : Epoch Tx) (rest : List (Epoch Tx)) → from_epoch f.epoch (f ∷ rest) ≡ f ∷ rest
  from_head f rest = ground arith

  below_tail :
      (e f : Epoch Tx) (rest : List (Epoch Tx))
      → e.epoch < f.epoch
      → from_epoch f.epoch (e ∷ f ∷ rest) ≡ f ∷ rest
  below_tail e f rest h = ground arith

  -- Epochs that ascend do so from any number on.
  pub from_epoch-Ascends :
      (start : ℕ) (l : List (Epoch Tx)) → Ascends l → Ascends (from_epoch start l)
  from_epoch-Ascends start [] h = tt
  from_epoch-Ascends start (e ∷ []) h = ground arith
  from_epoch-Ascends start (e ∷ f ∷ rest) h =
      ground (arith, from_epoch-Ascends start (f ∷ rest) h.1)

  from-from :
      (a b : ℕ) (l : List (Epoch Tx)) → a ≤ b → from_epoch b l ≡ from_epoch b (from_epoch a l)
  from-from a b [] h = refl
  from-from a b (e ∷ l) h = ground (arith, from-from a b l h)

  from-le :
      (a : ℕ) (l rest : List (Epoch Tx)) (e : Epoch Tx) → from_epoch a l ≡ e ∷ rest → a ≤ e.epoch
  from-le a [] rest e k = cc
  from-le a (x ∷ l) rest e k = ground (arith, from-le a l rest e, k)

  -- What follows the next epoch `f`, in a list that begins after `start`.
  pub from_epoch-next :
      (start : ℕ) (l rest : List (Epoch Tx)) (e f : Epoch Tx)
      → Ascends l
      → from_epoch start l ≡ e ∷ f ∷ rest
      → from_epoch f.epoch l ≡ f ∷ rest
  from_epoch-next start l rest e f h k =
      let (less, _) = subst Ascends k (from_epoch-Ascends start l h) in
      let le = from-le start l (f ∷ rest) e k in
      from-from start f.epoch l (omega arith) ∙ ap (from_epoch f.epoch) k ∙ below_tail e f rest less
