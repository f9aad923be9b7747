-- ===== src/Shard/Tests.antt =====
-- The shard keeper and the iterator on concrete epochs.
use world_engine.Base.{
  ℕ, ◌+◌, List, [], ◌∷◌, Option, none, some, ◌≡◌, ◌≢◌, refl, arith, nat_eq, String, string_eq, ◌==◌,
  if◌then◌else◌,
}
use world_engine.Base.Exec.{Result, ok, err, Exec, for_each, ◌>>◌}
use world_engine.Shard.{
  Epoch, ShardError, unauthorized, Kv, Keeper, is_empty_or_default, submit_shard_tx,
}
use world_engine.Shard.Pages.{from_epoch, put_epoch, IsOrderedStore}
use world_engine.Shard.Reader.{
  ReadError, failed_to_unmarshal, batches_of, Decoder, ShardTx, TxBatch, each_from, each_between,
}
use world_engine.Shard.Replayed.{put_all, submit_all, query_keeper}
use world_engine.World.Recovery.Ticks.{AscendingFrom}
use world_engine.World.Recovery.Chain.{iterated, on_tick, ended, AllBelow, each_from-iterated}

abbrev Stored : Type 0
Stored = Epoch (ShardTx ℕ)

abbrev from_key : {Tx : Type 0} → Option ℕ → List (Epoch Tx) → List (Epoch Tx)
from_key none l = l
from_key (some k) l = from_epoch k l

abbrev pub memory : {Tx : Type 0} → Kv (Epoch Tx)
memory {Tx} = record {
  Db = List (Epoch Tx);
  set = λ k e l. put_epoch (record e { epoch = k }) l;
  iterate = from_key;
}

pub memory-IsOrderedStore : {Tx : Type 0} → IsOrderedStore (memory {Tx = Tx})
memory-IsOrderedStore = record { iterate_from = λ k l. refl; set_value = λ e l. refl }

abbrev txs_of : List ℕ → List (ShardTx ℕ)
txs_of [] = []
txs_of (b ∷ bs) = record { tx_id = 1; game_shard_transaction = b } ∷ txs_of bs

abbrev stored : ℕ → List ℕ → Stored
stored n l = record { epoch = n; unix_timestamp = 100 + n; txs = txs_of l }

abbrev submissions : List Stored
submissions = stored 3 (30 ∷ []) ∷ stored 5 (50 ∷ 51 ∷ []) ∷ stored 8 [] ∷ stored 3 (31 ∷ []) ∷ []

abbrev empty : Keeper (List Stored)
empty = record { namespaces = []; stores = λ n. [] }

abbrev decoder : Decoder String ℕ ℕ ℕ
decoder = record { unmarshal = λ b. ok b; get_msg_by_id = λ n. some (λ t. ok (t + 1)) }

-- Collects the epochs' numbers.
abbrev collect : List (TxBatch ℕ ℕ) → ℕ → ℕ → Exec (ReadError String) (List ℕ) (Unit {0})
collect batches epoch timestamp w = (ok tt, epoch ∷ w)

abbrev refused : ShardError → String
refused e = "refused"

named : ◌≢◌ {A = String} "ns" ""
named = λ e. cc

-- The bytes 50 cannot be unmarshalled.
abbrev strict_bytes : ℕ → Result String ℕ
strict_bytes b = if b == 50 then err "malformed" else ok b

abbrev strict : Decoder String ℕ ℕ ℕ
strict = record { unmarshal = strict_bytes; get_msg_by_id = λ n. some (λ t. ok (t + 1)) }

submissions-AllBelow : AllBelow submissions
submissions-AllBelow = (omega arith, (omega arith, (omega arith, (omega arith, tt))))

each_from-iterated_example :
    let (ticks, last) = iterated strict (from_epoch 2 (put_all submissions [])) in
    (each_from strict collect
        (query_keeper memory refused "ns"
          ((submit_all memory "auth" "ns" submissions empty).stores "ns"))
        4
        2
        []
      ≡ (for_each ticks (on_tick strict collect) >> ended last) [])
    × AscendingFrom 2 ticks
each_from-iterated_example =
    each_from-iterated strict collect memory refused "ns" "auth" empty submissions 4 2
      memory-IsOrderedStore named refl submissions-AllBelow (omega arith) []

malformed_epoch_ends :
    each_from strict collect
      (query_keeper memory refused "ns"
        ((submit_all memory "auth" "ns" submissions empty).stores "ns"))
      4
      2
      []
    ≡ (err (failed_to_unmarshal "malformed"), 3 ∷ [])
unfolding each_from query_keeper submit_shard_tx is_empty_or_default batches_of
malformed_epoch_ends = refl

each_from_reads :
    each_from decoder collect
      (query_keeper memory refused "ns"
        ((submit_all memory "auth" "ns" submissions empty).stores "ns"))
      3
      4
      []
    ≡ (ok tt, 8 ∷ 5 ∷ [])
unfolding each_from query_keeper submit_shard_tx is_empty_or_default
each_from_reads = refl

each_between_reads :
    each_between decoder collect
      (query_keeper memory refused "ns"
        ((submit_all memory "auth" "ns" submissions empty).stores "ns"))
      3
      0
      5
      []
    ≡ (ok tt, 5 ∷ 3 ∷ [])
unfolding each_between query_keeper submit_shard_tx is_empty_or_default
each_between_reads = refl

stranger_is_refused :
    submit_shard_tx memory "auth" "stranger" "ns" (stored 3 []) empty ≡ (err unauthorized, empty)
unfolding submit_shard_tx
stranger_is_refused = refl
