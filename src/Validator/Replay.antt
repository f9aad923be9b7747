-- ===== src/Validator/Replay.antt =====
-- A transaction is let in once: its hash stays in the cache for as long as it is not expired.
use world_engine.Base.{
  ℕ, ◌+◌, ◌-◌, ◌*◌, ◌/◌, ◌%◌, ◌≤◌, ◌<◌, Bool, true, false, ltb, leb, nat_eq, string_eq,
  if◌then◌else◌, ◌≡◌, ◌⊎◌, refl, arith, Bool-cases, inl, inr,
}
use world_engine.Base.Int.{ℤ, pos, negsuc, ltb_int}
use world_engine.Base.Exec.{Result, err}
use world_engine.Sign.{Transaction, Crypto}
use world_engine.Validator.{
  ValidatorError, CacheAnswer, found, HashCache, SignatureValidator, earliest_valid, latest_valid,
  second, max_int64, validate_transaction_ttl, cache_retention_extra_seconds, not_in_cache,
  duplicate_message, expiration_too_large, expiration_too_small, message_expired, bad_timestamp,
}

-- What is relied on in the cache: it holds a hash until it expires, while it stores others, or the
-- same for longer, and the seconds fit in 32 bits. It is large enough to drop none before.
pub record KeepsHashes {Hash : Type 0} (cache : HashCache Hash) : Type 1 where
  pub Holds : Hash → ℕ → cache.State → Type 0
  pub holds_stored :
      (h : Hash) (e now : ℕ) (s : cache.State)
      → now + e < 4294967296
      → (cache.set h e now s).0 ≡ true
      → Holds h (now + e) (cache.set h e now s).1
  pub holds_still :
      (h g : Hash) (until e now : ℕ) (s : cache.State)
      → Holds h until s
      → until ≤ now + e
      → now + e < 4294967296
      → Holds h until (cache.set g e now s).1
  pub found_until :
      (h : Hash) (until now : ℕ) (s : cache.State)
      → Holds h until s
      → now < until
      → cache.get h now s ≡ found

-- A result that is an error.
abbrev pub IsError : {E A : Type 0} → Result E A → Type 0
IsError {E} r = (e : E) × (r ≡ err e)

-- The checks of the expiration in a row, with `r` the answer from the cache.
checks-IsError :
    (large low old ahead : Bool) (r : Result ValidatorError (Unit {0}))
    → (old ≡ true) ⊎ IsError r
    → IsError (
        if large
        then err expiration_too_large
        else if low
        then err expiration_too_small
        else if old
        then err message_expired
        else if ahead
        then err bad_timestamp
        else r)
checks-IsError true low old ahead r h = (expiration_too_large, refl)
checks-IsError false true old ahead r h = (expiration_too_small, refl)
checks-IsError false false true ahead r h = (message_expired, refl)
checks-IsError false false false true r h = (bad_timestamp, refl)
checks-IsError false false false false r (inl e) = cc
checks-IsError false false false false r (inr e) = e

in_cache : (a : CacheAnswer) → a ≡ found → IsError (not_in_cache a)
in_cache a h = rw h (duplicate_message, refl)

duration : (exp : ℕ) → exp < 2147483648 → exp * 1000000000 % 18446744073709551616 ≡ exp * 1000000000
duration exp h = omega arith

module _ (v : SignatureValidator) (small : v.message_expiration_seconds < 2147483648) where
  earliest :
      (now : ℕ)
      → v.message_expiration_seconds * 1000000000 ≤ now
      → earliest_valid v now ≡ pos ((now - v.message_expiration_seconds * 1000000000) / 1000000)
  unfolding earliest_valid
  earliest now enough =
      let exp = v.message_expiration_seconds in
      let no_wrap : ltb (max_int64 + 1) (exp * 1000000000) ≡ false = ground arith in
      let before : leb (exp * 1000000000) now ≡ true = ground (arith, enough) in
      rw (duration exp small, no_wrap, before) refl

  -- When the cache no longer holds the hash, the message is too old.
  expired :
      (ttl stored now : ℕ) (timestamp : ℤ)
      → ttl ≤ stored
      → stored / second + v.message_expiration_seconds + cache_retention_extra_seconds
        ≤ now / second
      → ltb_int (latest_valid ttl) timestamp ≡ false
      → ltb_int timestamp (earliest_valid v now) ≡ true
  expired ttl stored now (pos n) order late past =
      let exp = v.message_expiration_seconds in
      let n_le : n ≤ (ttl + 2000000000) / 1000000 = ground (arith, past) in
      let less : n < (now - exp * 1000000000) / 1000000 = omega arith in
      rw (earliest now (omega arith)) (ground arith)
  expired ttl stored now (negsuc n) order late past = rw (earliest now (omega arith)) refl

  module _ (c : Crypto) (cache : HashCache c.Hash) (keeps : KeepsHashes cache)
      (on : v.is_disabled ≡ false) where
    -- A message that was in time, and whose hash is in the cache since, is refused.
    pub ttl-IsError :
        (ttl stored now : ℕ) (tx : Transaction c.Hash) (s : cache.State)
        → ttl ≤ stored
        → ltb_int (latest_valid ttl) tx.timestamp ≡ false
        → keeps.Holds tx.hash
            (stored / second + (v.message_expiration_seconds + cache_retention_extra_seconds))
            s
        → IsError (validate_transaction_ttl c cache v now tx s)
    unfolding validate_transaction_ttl
    ttl-IsError ttl stored now tx s order past holds =
        let exp = v.message_expiration_seconds in
        let until = stored / second + (exp + cache_retention_extra_seconds) in
        let old_or_known : (ltb_int tx.timestamp (earliest_valid v now) ≡ true)
            ⊎ IsError (not_in_cache (cache.get tx.hash (now / second) s)) =
          elim (Bool-cases (ltb (now / second) until)) [
            | inl e ↦ inr (
                in_cache _
                  (keeps.found_until tx.hash until (now / second) s holds (ground (arith, e))))
            | inr e ↦ inl (expired ttl stored now tx.timestamp order (ground (arith, e)) past)
          ] in
        rw on (
          checks-IsError (ltb max_int64 exp) (ltb exp 1)
            (ltb_int tx.timestamp (earliest_valid v now)) (ltb_int (latest_valid now) tx.timestamp)
            (not_in_cache (cache.get tx.hash (now / second) s)) old_or_known)
