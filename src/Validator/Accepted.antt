-- ===== src/Validator/Accepted.antt =====
-- What the validator has done where it accepts a transaction: its hash is in the cache.
use world_engine.Base.{
  ℕ, ◌+◌, ◌/◌, ◌%◌, ◌<◌, String, Bool, true, false, not, Option, none, some, ltb, nat_eq, string_eq,
  ◌==◌, if◌then◌else◌, ◌≡◌, refl, sym, ap, subst, ◌∙◌, arith, Bool-cases, inl, inr,
}
use world_engine.Base.Int.{ltb_int}
use world_engine.Base.Exec.{Result, ok, err, Exec, pure, fail, lift, ◌>>=◌, bind-ok, Result-cases}
use world_engine.Sign.{
  Transaction, Crypto, hashed, populate_hash, check_required_fields, unmarshal_transaction,
  with_fields,
}
use world_engine.Validator.{
  ValidatorError, HashCache, SignatureValidator, earliest_valid, latest_valid, second, max_int64,
  validate_transaction_ttl, validate_transaction_signature, validate_signature, store_hash,
  signer_of, cache_retention_extra_seconds, not_in_cache, expiration_too_large,
  expiration_too_small, message_expired, bad_timestamp, cache_write_failed, no_persona_tag,
}
use world_engine.Validator.Replay.{KeepsHashes}

hash_again :
    (c : Crypto) (s : Transaction c.Hash)
    → (populate_hash c (populate_hash c s)).hash ≡ (populate_hash c s).hash
unfolding populate_hash
hash_again c s = elim (Bool-cases (s.salt == 0)) [ inl e ↦ rw (e, e) refl | inr e ↦ rw (e, e) refl ]

either_hash :
    {H : Type 0} (b : Bool) (x y : Transaction H)
    → x.hash ≡ y.hash
    → (if b then x else y).hash ≡ y.hash
either_hash true x y h = h
either_hash false x y h = refl

-- A hash that was made once is made again the same.
populated :
    (c : Crypto) (s : Transaction c.Hash)
    → (hashed c (populate_hash c s)).hash ≡ (populate_hash c s).hash
unfolding hashed
populated c s =
    either_hash (c.is_zero_hash (populate_hash c s).hash) (populate_hash c (populate_hash c s))
      (populate_hash c s) (hash_again c s)

pub unmarshalled-hash :
    (c : Crypto) (o : Option (Transaction c.Hash)) (tx : Transaction c.Hash)
    → unmarshal_transaction c o ≡ ok tx
    → (hashed c tx).hash ≡ tx.hash
unmarshalled-hash c none tx h = cc
unmarshalled-hash c (some s) tx h = elim (Result-cases (check_required_fields c s)) [
  | inl (u, e) ↦
      let made : ok (populate_hash c s) ≡ ok tx = sym (ap (with_fields c s) e) ∙ h in
      let same : populate_hash c s ≡ tx = cc in
      subst (λ x. (hashed c x).hash ≡ x.hash) same (populated c s)
  | inr (x, e) ↦ let made : err x ≡ ok tx = sym (ap (with_fields c s) e) ∙ h in cc
]

checks-ok :
    (disabled large low old ahead : Bool) (r : Result ValidatorError (Unit {0}))
    → disabled ≡ false
    → (if not disabled
        then if large
          then err expiration_too_large
          else if low
          then err expiration_too_small
          else if old
          then err message_expired
          else if ahead
          then err bad_timestamp
          else r
        else ok tt)
      ≡ ok tt
    → ahead ≡ false
checks-ok true large low old ahead r on h = cc
checks-ok false true low old ahead r on h = cc
checks-ok false false true old ahead r on h = cc
checks-ok false false false true ahead r on h = cc
checks-ok false false false false true r on h = cc
checks-ok false false false false false r on h = refl

if-ok : {E : Type 0} (b : Bool) (e : E) → (if b then ok tt else err e) ≡ ok tt → b ≡ true
if-ok true e h = refl
if-ok false e h = cc

guarded-ok :
    {S : Type 0} (missing disabled : Bool) (m : Exec ValidatorError S (Unit {0})) (s t : S)
    → disabled ≡ false
    → (if missing then fail no_persona_tag else if disabled then pure tt else m) s ≡ (ok tt, t)
    → m s ≡ (ok tt, t)
unfolding fail
guarded-ok true disabled m s t on h = cc
guarded-ok false true m s t on h = cc
guarded-ok false false m s t on h = h

-- The seconds for which a hash is kept.
abbrev pub kept_for : SignatureValidator → ℕ
kept_for v = v.message_expiration_seconds + cache_retention_extra_seconds

module _ (v : SignatureValidator) (c : Crypto) (cache : HashCache c.Hash)
    (on : v.is_disabled ≡ false) where
  pub ttl-ok :
      (now : ℕ) (tx : Transaction c.Hash) (s : cache.State)
      → validate_transaction_ttl c cache v now tx s ≡ ok tt
      → ltb_int (latest_valid now) tx.timestamp ≡ false
  unfolding validate_transaction_ttl
  ttl-ok now tx s h =
      let exp = v.message_expiration_seconds in
      checks-ok v.is_disabled (ltb max_int64 exp) (ltb exp 1)
        (ltb_int tx.timestamp (earliest_valid v now)) (ltb_int (latest_valid now) tx.timestamp)
        (not_in_cache (cache.get tx.hash (now / second) s)) on h

  module _ (keeps : KeepsHashes cache) where
    stored-Holds :
        (now : ℕ) (hash : c.Hash) (s t : cache.State)
        → now / second + kept_for v < 4294967296
        → store_hash c cache v now hash s ≡ (ok tt, t)
        → keeps.Holds hash (now / second + kept_for v) t
    stored-Holds now hash s t bound h =
        let e = kept_for v % 18446744073709551616 in
        let r = cache.set hash e (now / second) s in
        let same : e ≡ kept_for v = omega arith in
        let stored : r.0 ≡ true = if-ok r.0 cache_write_failed (ap (λ p. p.0) h) in
        let holds = keeps.holds_stored hash e (now / second) s (omega arith) stored in
        subst (λ x. keeps.Holds hash (now / second + x) t) same
          (subst (keeps.Holds hash (now / second + e)) (ap (λ p. p.1) h) holds)

    pub signature-Holds :
        (look : String → Option String) (now : ℕ) (tx : Transaction c.Hash) (addr : String)
        (s t : cache.State)
        → now / second + kept_for v < 4294967296
        → validate_transaction_signature c cache v look now tx addr s ≡ (ok tt, t)
        → keeps.Holds (hashed c tx).hash (now / second + kept_for v) t
    unfolding validate_transaction_signature
    signature-Holds look now tx addr s t bound h =
        let whole = guarded-ok (tx.persona_tag == "") v.is_disabled _ s t on h in
        let store : Unit {0} → Exec ValidatorError cache.State (Unit {0}) =
          λ u. store_hash c cache v now (hashed c tx).hash in
        let check : String → Exec ValidatorError cache.State (Unit {0}) =
          λ a. lift (validate_signature c cache v tx a) in
        let (signer, s1, h1, rest) =
          bind-ok (lift (signer_of c cache v look tx.persona_tag addr)) (λ a. check a >>= store) s
            whole in
        let (u, s2, h2, last) = bind-ok (check signer) store s1 rest in
        stored-Holds now (hashed c tx).hash s2 t bound last
