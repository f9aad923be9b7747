-- ===== src/Validator.antt =====
-- cardinal/server/validator/validator.go and PostTransaction of cardinal/server/handler/tx.go: which
-- transactions a cardinal lets in. The hash cache (freecache) is a parameter, as are the signers of
-- persona tags. Times are in nanoseconds since 1970, the seconds of the cache are whole.
pub mod Handler
pub mod Replay
pub mod Accepted
pub mod Kept
pub mod Serving
pub mod Once
pub mod Tests
use world_engine.Base.{
  ℕ, ◌+◌, ◌-◌, ◌*◌, ◌/◌, ◌%◌, ◌^◌, ◌≤◌, String, List, [], ◌∷◌, Bool, true, false, not, Option, none,
  some, ltb, leb, nat_eq, string_eq, ◌==◌, if◌then◌else◌,
}
use world_engine.Base.Int.{ℤ, pos, negsuc, ltb_int}
use world_engine.Base.Exec.{Result, ok, err, Exec, pure, fail, lift, ◌>>=◌, ◌>>◌}
use world_engine.Sign.{Transaction, SignError, Crypto, verify, hashed}

-- The causes of ErrInvalidSignature.
pub data SignatureFault : Type 0 where
  no_signer wrong_namespace : SignatureFault
  not_verified : SignError → SignatureFault

pub data ValidatorError : Type 0 where
  expiration_too_large expiration_too_small : ValidatorError
  message_expired bad_timestamp cache_read_failed duplicate_message : ValidatorError
  no_persona_tag cache_write_failed : ValidatorError
  invalid_signature : SignatureFault → ValidatorError

pub data CacheAnswer : Type 0 where
  found not_found failed : CacheAnswer

-- `get hash now` and `set hash expire_seconds now`, which says whether it could store the hash.
pub record HashCache (Hash : Type 0) : Type 1 where
  pub State : Type 0
  pub get : Hash → ℕ → State → CacheAnswer
  pub set : Hash → ℕ → ℕ → State → Bool × State

pub record SignatureValidator : Type 0 where
  pub is_disabled : Bool
  pub message_expiration_seconds : ℕ
  pub namespace : String

abbrev pub cache_retention_extra_seconds : ℕ
cache_retention_extra_seconds = 10

abbrev pub ttl_max_future_seconds : ℕ
ttl_max_future_seconds = 2

abbrev pub second : ℕ
second = 1000000000

abbrev pub max_int64 : ℕ
max_int64 = 9223372036854775807

-- `now.Add(-d).UnixMilli()`, where `d` is a duration of 64 bits: those above 2^63 are below zero,
-- and 2^63 is its own negation. The milliseconds are rounded down.
abbrev pub millis_before : ℕ → ℕ → ℤ
millis_before now d =
    if ltb (max_int64 + 1) d
    then pos ((now + (2 ^ 64 - d)) / 1000000)
    else if leb d now
    then pos ((now - d) / 1000000)
    else negsuc ((d - now - 1) / 1000000)

unfoldable pub earliest_valid : SignatureValidator → ℕ → ℤ
earliest_valid v now = millis_before now (v.message_expiration_seconds * second % 2 ^ 64)

abbrev pub latest_valid : ℕ → ℤ
latest_valid now = pos ((now + ttl_max_future_seconds * second) / 1000000)

abbrev pub not_in_cache : CacheAnswer → Result ValidatorError (Unit {0})
not_in_cache found = err duplicate_message
not_in_cache not_found = ok tt
not_in_cache failed = err cache_read_failed

module _ (c : Crypto) (cache : HashCache c.Hash) (v : SignatureValidator) where
  unfoldable pub validate_transaction_ttl :
      ℕ → Transaction c.Hash → cache.State → Result ValidatorError (Unit {0})
  unfolding earliest_valid
  validate_transaction_ttl now tx state =
      if not v.is_disabled
      then if ltb max_int64 v.message_expiration_seconds
        then err expiration_too_large
        else if ltb v.message_expiration_seconds 1
        then err expiration_too_small
        else if ltb_int tx.timestamp (earliest_valid v now)
        then err message_expired
        else if ltb_int (latest_valid now) tx.timestamp
        then err bad_timestamp
        else not_in_cache (cache.get tx.hash (now / second) state)
      else ok tt

  abbrev pub verified : Result SignError (Unit {0}) → Result ValidatorError (Unit {0})
  verified (ok u) = ok tt
  verified (err e) = err (invalid_signature (not_verified e))

  unfoldable pub validate_signature : Transaction c.Hash → String → Result ValidatorError (Unit {0})
  validate_signature tx signer_addr =
      if not (tx.namespace == v.namespace)
      then err (invalid_signature wrong_namespace)
      else verified (verify c tx signer_addr)

  abbrev pub looked_up : Option String → Result ValidatorError String
  looked_up none = err (invalid_signature no_signer)
  looked_up (some addr) = ok addr

  -- The address to check against, `look` being what GetSignerForPersonaTag answers.
  abbrev pub signer_of : (String → Option String) → String → String → Result ValidatorError String
  signer_of look tag signer_address =
      if signer_address == "" then looked_up (look tag) else ok signer_address

  -- `cache.Set`, at the time `now`
  abbrev pub store_hash : ℕ → c.Hash → Exec ValidatorError cache.State (Unit {0})
  store_hash now hash state =
      let (stored, state') =
        cache.set hash ((v.message_expiration_seconds + cache_retention_extra_seconds) % 2 ^ 64)
          (now / second) state in
      (if stored then ok tt else err cache_write_failed, state')

  unfoldable pub validate_transaction_signature :
      (String → Option String)
      → ℕ
      → Transaction c.Hash
      → String
      → Exec ValidatorError cache.State (Unit {0})
  unfolding ◌>>=◌ validate_signature
  validate_transaction_signature look now tx signer_address =
      if tx.persona_tag == ""
      then fail no_persona_tag
      else if v.is_disabled
      then pure tt
      else (lift (signer_of look tx.persona_tag signer_address) >>= λ addr.
          lift (validate_signature tx addr) >> store_hash now (hashed c tx).hash)
