-- ===== src/Shard.antt =====
-- evm/x/shard: the keeper of the transactions of a namespace, by epoch, with its pages. The store is a
-- parameter, as the keeper uses it for a namespace: its keys are epochs, whose eight bytes in
-- big-endian order the store orders as numbers, and its values are epochs, whose protobuf codec is
-- left out. A page key is none for nil.
pub mod Pages
pub mod Reader
pub mod Replayed
pub mod Tests
use world_engine.Base.{
  ℕ, ◌+◌, ◌%◌, ◌^◌, String, List, [], ◌∷◌, ◌++◌, Bool, true, false, ◌&&◌, ◌||◌, Option, none, some,
  is_some, not, nat_eq, string_eq, ◌==◌, if◌then◌else◌,
}
use world_engine.Base.Exec.{Result, ok, err}

pub record Epoch (Tx : Type 0) : Type 0 where
  pub epoch : ℕ
  pub unix_timestamp : ℕ
  pub txs : List Tx

pub record PageRequest : Type 0 where
  pub key : Option ℕ
  pub limit : ℕ

pub record PageOfEpochs (Tx : Type 0) : Type 0 where
  pub epochs : List (Epoch Tx)
  pub page_key : Option ℕ

pub data ShardError : Type 0 where
  unauthorized namespace_required : ShardError

-- `iterate start db` gives the values from the key `start` on.
pub record Kv (V : Type 0) : Type 1 where
  pub Db : Type 0
  pub set : ℕ → V → Db → Db
  pub iterate : Option ℕ → Db → List V

-- The keeper's stores: the namespaces, and the epochs of each. They are apart where no namespace
-- begins with another, since the namespace is the prefix of the store's keys.
pub record Keeper (Db : Type 0) : Type 0 where
  pub namespaces : List String
  pub stores : String → Db

abbrev pub has_namespace : String → List String → Bool
has_namespace ns [] = false
has_namespace ns (n ∷ l) = (ns == n) || has_namespace ns l

unfoldable pub save_namespace : String → List String → List String
save_namespace ns l = if has_namespace ns l then l else l ++ ns ∷ []

abbrev pub default_page_request_limit : ℕ
default_page_request_limit = 10

-- The pointer to the request is none for nil.
unfoldable pub is_empty_or_default : Option PageRequest → Bool
is_empty_or_default none = true
is_empty_or_default (some pr) = not (is_some pr.key) && (pr.limit == 0)

unfoldable pub extract_page_request : Option PageRequest → Option ℕ × ℕ
extract_page_request none = (none, default_page_request_limit)
extract_page_request (some pr) =
    if not (is_empty_or_default (some pr))
    then (pr.key, (if pr.limit == 0 then default_page_request_limit else pr.limit))
    else (none, default_page_request_limit)

module _ {Tx : Type 0} where
  -- The callback of Transactions, on each value, with `count` and the response so far. The count is
  -- of 32 bits.
  unfoldable pub take_page : ℕ → ℕ → PageOfEpochs Tx → List (Epoch Tx) → PageOfEpochs Tx
  take_page limit count res [] = res
  take_page limit count res (e ∷ rest) =
      let more =
        take_page limit ((count + 1) % 2 ^ 32) (record res { epochs = res.epochs ++ e ∷ [] })
          rest in
      if count == limit then record res { page_key = some e.epoch } else more

  module _ (kv : Kv (Epoch Tx)) where
    unfoldable pub transactions :
        String → Option PageRequest → kv.Db → Result ShardError (PageOfEpochs Tx)
    unfolding take_page extract_page_request
    transactions namespace page db =
        let (key, limit) = extract_page_request page in
        if namespace == ""
        then err namespace_required
        else ok (take_page limit 0 (record { epochs = []; page_key = none }) (kv.iterate key db))

    unfoldable pub save_transactions : String → Epoch Tx → Keeper kv.Db → Keeper kv.Db
    unfolding save_namespace
    save_transactions namespace e k = record {
      namespaces = save_namespace namespace k.namespaces;
      stores = λ n. if n == namespace then kv.set e.epoch e (k.stores namespace) else k.stores n;
    }

    -- `auth` is the address of the module, the only sender that is let in.
    unfoldable pub submit_shard_tx :
        String
        → String
        → String
        → Epoch Tx
        → Keeper kv.Db
        → Result ShardError (Unit {0}) × Keeper kv.Db
    unfolding save_transactions
    submit_shard_tx auth sender namespace e k =
        if not (sender == auth)
        then (err unauthorized, k)
        else (ok tt, save_transactions namespace e k)
