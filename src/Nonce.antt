-- ===== src/Nonce.antt =====
-- cardinal/storage/redis/nonce.go: the nonces that a signer has used, in a redis sorted set for each
-- signer, with the highest nonce and a count in memory. UseNonce holds the mutex throughout, so a
-- call is one step. A score is the nonce itself: below 2^53 a float64 holds it exactly.
pub mod Invariant
pub mod Counted
pub mod Replay
pub mod Restart
pub mod Tests
use Prim.Native.String.{◌++◌ as append}
use world_engine.Base.{
  ℕ, suc, ◌+◌, ◌-◌, ◌%◌, ◌^◌, max, String, List, [], ◌∷◌, Bool, true, false, ◌&&◌, Option, none,
  some, if◌then◌else◌, nat_eq, string_eq, ◌==◌, ltb, leb,
}
use world_engine.Base.GoMap.{GoMap, lookup, insert}
use world_engine.Base.Exec.{Result, ok, err, Exec, pure, fail, lift, gets, ◌>>=◌, ◌>>◌}

abbrev pub nonce_sliding_window_size : ℕ
nonce_sliding_window_size = 1000

-- NonceSlidingWindowSize * 1.5
abbrev pub num_of_nonces_to_trigger_cleanup : ℕ
num_of_nonces_to_trigger_cleanup = 1500

-- (1 << (float64MantissaSize + 1)) - 1
abbrev pub max_valid_nonce : ℕ
max_valid_nonce = 2 ^ 53 - 1

pub data NonceError : Type 0 where
  nonce_is_too_large nonce_is_too_old nonce_has_already_been_used redis_failure : NonceError

-- The commands of redis that are used, each with an answer and the database after it:
-- ZADD of one member, ZREMRANGEBYSCORE from -inf to a score, and ZRANGE key -1 0. Members are
-- decimal texts of nonces, which ParseUint reads back, so they stand here as numbers.
pub record SortedSets : Type 1 where
  pub Db : Type 0
  pub zadd : Db → String → ℕ → Result NonceError (ℕ × Db)
  pub zrem_range_by_score : Db → String → ℕ → Result NonceError (ℕ × Db)
  pub zrange_last_to_first : Db → String → Result NonceError (List ℕ)

-- A count is a Go `int`, the difference of what was added and what was removed.
pub record Count : Type 0 where
  pub added : ℕ
  pub removed : ℕ

pub record NonceStorage (z : SortedSets) : Type 0 where
  pub client : z.Db
  pub max_nonce : GoMap String ℕ
  pub count_nonce : GoMap String Count

abbrev pub M : SortedSets → Type 0 → Type 0
M z A = Exec NonceError (NonceStorage z) A

unfoldable pub nonce_set_key : String → String
nonce_set_key str = append "USED_NONCES_" str

-- Go's zero value for a missing key
abbrev pub or_zero : Option ℕ → ℕ
or_zero none = 0
or_zero (some n) = n

abbrev pub count_or_zero : Option Count → Count
count_or_zero none = record { added = 0; removed = 0 }
count_or_zero (some c) = c

-- Nonces beyond the sliding window.
abbrev pub too_old : ℕ → ℕ → Bool
too_old nonce max_nonce = ltb nonce max_nonce && leb nonce_sliding_window_size (max_nonce - nonce)

-- `values[0]`, and 0 if no nonce was answered
abbrev pub first_or_zero : List ℕ → ℕ
first_or_zero [] = 0
first_or_zero (n ∷ ns) = n

module _ {z : SortedSets} where
  unfoldable pub new_nonce_storage : z.Db → NonceStorage z
  new_nonce_storage client = record { client = client; max_nonce = []; count_nonce = [] }

  -- A redis command on the state.
  abbrev pub command : {A : Type 0} → Result NonceError (A × z.Db) → M z A
  command (ok (a, db)) r = (ok a, record r { client = db })
  command (err error) r = (err error, r)

  abbrev pub remember_max : String → ℕ → M z (Unit {0})
  remember_max key n r = (ok tt, record r { max_nonce = insert key n r.max_nonce })

  -- The maximum is fetched from redis if it is not in memory.
  unfoldable pub get_max_nonce_for_key : String → M z ℕ
  get_max_nonce_for_key key r = elim (lookup key r.max_nonce) [
    | some n ↦ (ok n, r)
    | none ↦ elim (z.zrange_last_to_first r.client key) [
      | err error ↦ (err error, r)
      | ok values ↦ (
        ok (first_or_zero values),
        record r { max_nonce = insert key (first_or_zero values) r.max_nonce },
      )
    ]
  ]

  -- A failure is logged and otherwise ignored. The bound is computed in uint64.
  unfoldable pub cleanup_old_nonces : String → ℕ → NonceStorage z → NonceStorage z
  cleanup_old_nonces key curr_max r =
      elim (z.zrem_range_by_score r.client key
        ((curr_max + 2 ^ 64 - nonce_sliding_window_size) % 2 ^ 64)) [
          | err error ↦ r
          | ok (removed, db) ↦
              let c = count_or_zero (lookup key r.count_nonce) in
              record r {
                client = db;
                count_nonce = insert key (record c { removed = c.removed + removed }) r.count_nonce;
              }
        ]

  -- What follows a ZADD that added the nonce.
  unfoldable pub note_used : String → ℕ → NonceStorage z → NonceStorage z
  unfolding cleanup_old_nonces
  note_used key nonce r =
      let top = max (or_zero (lookup key r.max_nonce)) nonce in
      let c = count_or_zero (lookup key r.count_nonce) in
      let counted : NonceStorage z = record r {
        max_nonce = insert key top r.max_nonce;
        count_nonce = insert key (record c { added = c.added + 1 }) r.count_nonce;
      } in
      if ltb (c.removed + num_of_nonces_to_trigger_cleanup) (c.added + 1)
      then cleanup_old_nonces key top counted
      else counted

  -- `added == 0` means that the nonce was there.
  abbrev pub unless_used : String → ℕ → ℕ → M z (Unit {0})
  unless_used key nonce added r =
      if nat_eq.beq added 0
      then (err nonce_has_already_been_used, r)
      else (ok tt, note_used key nonce r)

  unfoldable pub unless_too_old : String → ℕ → ℕ → M z (Unit {0})
  unfolding ◌>>=◌ note_used
  unless_too_old key nonce max_nonce r =
      if too_old nonce max_nonce
      then (err nonce_is_too_old, r)
      else ((λ r. command (z.zadd r.client key nonce) r) >>= unless_used key nonce) r

  unfoldable pub use_nonce_for_key : String → ℕ → M z (Unit {0})
  unfolding ◌>>=◌ get_max_nonce_for_key unless_too_old
  use_nonce_for_key key nonce = do
    max_nonce ← get_max_nonce_for_key key
    unless_too_old key nonce max_nonce

  unfoldable pub use_nonce : String → ℕ → M z (Unit {0})
  unfolding use_nonce_for_key nonce_set_key
  use_nonce signer_address nonce =
      if ltb max_valid_nonce nonce
      then fail nonce_is_too_large
      else use_nonce_for_key (nonce_set_key signer_address) nonce
