-- ===== src/Validator/Kept.antt =====
-- What the validation of other transactions leaves in the cache.
use world_engine.Base.{
  ℕ, ◌+◌, ◌/◌, ◌%◌, ◌≤◌, ◌<◌, String, Bool, true, false, Option, nat_eq, string_eq, ◌==◌,
  if◌then◌else◌, arith, inl, inr,
}
use world_engine.Base.Exec.{Exec, pure, fail, lift, ◌>>=◌, Result-cases}
use world_engine.Sign.{Transaction, Crypto, hashed}
use world_engine.Validator.{
  ValidatorError, HashCache, SignatureValidator, second, validate_transaction_signature,
  validate_signature, store_hash, signer_of, no_persona_tag,
}
use world_engine.Validator.Replay.{KeepsHashes}
use world_engine.Validator.Accepted.{kept_for}

module _ {E S : Type 0} (P : S → Type 0) where
  -- What a block keeps that each of its statements keeps.
  pub bind_keeps :
      {A B : Type 0} (m : Exec E S A) (f : A → Exec E S B)
      → ((s : S) → P s → P (m s).1)
      → ((a : A) (s : S) → P s → P (f a s).1)
      → (s : S) → P s
      → P ((m >>= f) s).1
  unfolding ◌>>=◌
  bind_keeps m f hm hf s p = elim (Result-cases (m s).0) [
    | inl (a, e) ↦ rw e (hf a (m s).1 (hm s p))
    | inr (x, e) ↦ rw e (hm s p)
  ]

  guarded_keeps :
      (missing disabled : Bool) (e : E) (m : Exec E S (Unit {0}))
      → ((s : S) → P s → P (m s).1)
      → (s : S) → P s
      → P ((if missing then fail e else if disabled then pure tt else m) s).1
  unfolding fail pure
  guarded_keeps true disabled e m hm s p = p
  guarded_keeps false true e m hm s p = p
  guarded_keeps false false e m hm s p = hm s p

module _ (v : SignatureValidator) (c : Crypto) (cache : HashCache c.Hash)
    (keeps : KeepsHashes cache) (until : ℕ) (h : c.Hash) where
  -- Transactions that come later do not end what the cache holds.
  pub signature-keeps :
      (look : String → Option String) (now : ℕ) (tx : Transaction c.Hash) (addr : String)
      → until ≤ now / second + kept_for v
      → now / second + kept_for v < 4294967296
      → (s : cache.State) → keeps.Holds h until s
      → keeps.Holds h until (validate_transaction_signature c cache v look now tx addr s).1
  unfolding validate_transaction_signature lift
  signature-keeps look now tx addr later bound =
      let store : Unit {0} → Exec ValidatorError cache.State (Unit {0}) =
        λ u. store_hash c cache v now (hashed c tx).hash in
      let check : String → Exec ValidatorError cache.State (Unit {0}) =
        λ a. lift (validate_signature c cache v tx a) in
      let P : cache.State → Type 0 = keeps.Holds h until in
      let e = kept_for v % 18446744073709551616 in
      guarded_keeps P (tx.persona_tag == "") v.is_disabled no_persona_tag
        (lift (signer_of c cache v look tx.persona_tag addr) >>= λ a. check a >>= store)
        (bind_keeps P (lift (signer_of c cache v look tx.persona_tag addr)) (λ a. check a >>= store)
          (λ s p. p)
          λ a.
            bind_keeps P (check a) store (λ s p. p)
              λ u s holds.
                keeps.holds_still h (hashed c tx).hash until e (now / second) s holds (omega arith)
                  (omega arith))
