-- ===== src/Validator/Once.antt =====
-- PostTransaction lets a transaction in once, whatever requests come in between.
use world_engine.Base.{
  ℕ, ◌+◌, ◌/◌, ◌≤◌, ◌<◌, String, List, false, Option, string_eq, ◌≡◌, ap, subst, ◌∙◌,
}
use world_engine.Base.Exec.{ok, err}
use world_engine.Sign.{Transaction, Crypto, unmarshal_transaction}
use world_engine.Validator.{HashCache, SignatureValidator, second}
use world_engine.Validator.Handler.{Request, HttpError, post_transaction}
use world_engine.Validator.Replay.{KeepsHashes}
use world_engine.Validator.Accepted.{kept_for, unmarshalled-hash}
use world_engine.Validator.Serving.{served, AreLater, post-accepted, post-refused, served-keeps}

-- With signatures enabled, a request that PostTransaction has accepted is not accepted again: after
-- any requests that are served one after the other and store later, a request with the same
-- transaction, whatever its message type and its times, gets an error and changes nothing, neither
-- the cache nor the world. (The cache holds a hash until it expires, with seconds of 32 bits; the
-- messages expire in less than 2^31 seconds; the handler checks the expiration before it stores.)
pub post_transaction_once :
    {Msg W : Type 0} (v : SignatureValidator) (c : Crypto) (cache : HashCache c.Hash)
    (keeps : KeepsHashes cache) (look : String → Option String)
    (add_transaction : ℕ → Msg → Transaction c.Hash → W → W) (on : v.is_disabled ≡ false)
    (r again : Request c.Hash Msg) (between : List (Request c.Hash Msg)) (s t : cache.State × W)
    → v.message_expiration_seconds < 2147483648
    → r.ttl_at ≤ r.stored_at
    → r.stored_at / second + kept_for v < 4294967296
    → post_transaction c cache v look add_transaction r s ≡ (ok tt, t)
    → AreLater v r.stored_at between
    → again.decoded ≡ r.decoded
    → let u = served c cache v look add_transaction between t in
      (e : HttpError) × (post_transaction c cache v look add_transaction again u ≡ (err e, u))
post_transaction_once v c cache keeps look add on r again between s t small order bound accepted
      later same =
    let (tx, decoded, past, holds) =
      post-accepted v c cache keeps look add on r s t bound accepted in
    let kept = served-keeps v c cache keeps look add on r.stored_at tx.hash between t later (
      subst (λ h. keeps.Holds h (r.stored_at / second + kept_for v) t.0)
        (unmarshalled-hash c r.decoded tx decoded) holds) in
    post-refused v c cache keeps look add on again r.ttl_at r.stored_at tx
      (served c cache v look add between t) small
      (ap (λ o. unmarshal_transaction c o) same ∙ decoded) order past kept
