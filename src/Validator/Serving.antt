-- ===== src/Validator/Serving.antt =====
-- Requests that are served one after the other, and what they leave in the cache.
use world_engine.Base.{
  ℕ, ◌+◌, ◌/◌, ◌≤◌, ◌<◌, String, List, [], ◌∷◌, Bool, true, false, Option, nat_eq, string_eq,
  if◌then◌else◌, ◌≡◌, refl, ap, subst, ◌∙◌, arith, inl, inr, Option-cases,
}
use world_engine.Base.Int.{ltb_int}
use world_engine.Base.Exec.{Result, ok, err, Exec, lift, ◌>>=◌, bind-ok, bind-step}
use world_engine.Sign.{Transaction, Crypto, hashed, unmarshal_transaction}
use world_engine.Validator.{HashCache, SignatureValidator, latest_valid, second}
use world_engine.Validator.Handler.{
  Request, HttpError, http_status, http_result_from_error, post_transaction, extract_tx, check_ttl,
  check_signature, answered_by, or_error, signer_address, accept, MessageType, unparseable_body,
}
use world_engine.Validator.Replay.{KeepsHashes, ttl-IsError}
use world_engine.Validator.Accepted.{signature-Holds, ttl-ok, kept_for}
use world_engine.Validator.Kept.{bind_keeps, signature-keeps}

answered-ok :
    {E F A : Type 0} (f : E → F) (r : Result E A) (a : A) → answered_by f r ≡ ok a → r ≡ ok a
answered-ok f (ok b) a h = cc
answered-ok f (err e) a h = cc

enabled-ok :
    {E A : Type 0} (disabled : Bool) (x y : Result E A) (a : A)
    → disabled ≡ false
    → (if disabled then x else y) ≡ ok a
    → y ≡ ok a
enabled-ok true x y a on h = cc
enabled-ok false x y a on h = h

if-false : {A : Type 0} (b : Bool) (x y : A) → b ≡ false → (if b then x else y) ≡ y
if-false b x y h = rw h refl

bind-fails :
    {E S A B : Type 0} (m : Exec E S A) (f : A → Exec E S B) (s : S) {e : E} {t : S}
    → m s ≡ (err e, t)
    → (m >>= f) s ≡ (err e, t)
unfolding ◌>>=◌
bind-fails m f s h = rw h refl

pair-ok :
    {E S : Type 0} (p : Result E (Unit {0}) × S) (t : S) → p.0 ≡ ok tt → p.1 ≡ t → p ≡ (ok tt, t)
pair-ok p t h k = ap (λ r. (r, p.1)) h ∙ ap (λ x. (ok tt, x)) k

module _ (c : Crypto) (cache : HashCache c.Hash) (v : SignatureValidator) {Msg W : Type 0}
    (look : String → Option String) (add_transaction : ℕ → Msg → Transaction c.Hash → W → W) where
  -- The requests that are served one after the other.
  abbrev pub served : List (Request c.Hash Msg) → cache.State × W → cache.State × W
  served [] s = s
  served (r ∷ rs) s = served rs (post_transaction c cache v look add_transaction r s).1

-- Each stores what it stores at this time or later, in seconds of 32 bits.
abbrev pub AreLater : {H Msg : Type 0} → SignatureValidator → ℕ → List (Request H Msg) → Type 0
AreLater v at [] = Unit
AreLater v at (r ∷ rs) =
    (at ≤ r.stored_at) × (r.stored_at / second + kept_for v < 4294967296) × AreLater v at rs

module _ {Msg W : Type 0} (v : SignatureValidator) (c : Crypto) (cache : HashCache c.Hash)
    (keeps : KeepsHashes cache) (look : String → Option String)
    (add_transaction : ℕ → Msg → Transaction c.Hash → W → W) where
  abbrev post : Request c.Hash Msg → Exec HttpError (cache.State × W) (Unit {0})
  post = post_transaction c cache v look add_transaction

  abbrev after_message :
      Request c.Hash Msg
      → MessageType Msg
      → Transaction c.Hash
      → Msg
      → Exec HttpError (cache.State × W) (Unit {0})
  after_message r t tx msg = lift (signer_address c cache v look add_transaction t msg) >>= λ addr.
      check_signature c cache v look add_transaction r.stored_at tx addr >>= λ u.
      accept c cache v look add_transaction t.id msg tx

  abbrev after_type :
      Request c.Hash Msg → MessageType Msg → Exec HttpError (cache.State × W) (Unit {0})
  after_type r t = lift (extract_tx c cache v look add_transaction r) >>= λ tx.
      check_ttl c cache v look add_transaction r.ttl_at tx >>= λ u.
      lift (or_error (http_status 400) (t.decode tx.body)) >>= after_message r t tx

  post-keeps :
      (until : ℕ) (h : c.Hash) (r : Request c.Hash Msg)
      → until ≤ r.stored_at / second + kept_for v
      → r.stored_at / second + kept_for v < 4294967296
      → (s : cache.State × W) → keeps.Holds h until s.0
      → keeps.Holds h until (post r s).1.0
  unfolding post_transaction lift
  post-keeps until h r later bound =
      let P : cache.State × W → Type 0 = λ s. keeps.Holds h until s.0 in
      bind_keeps P (lift (or_error (http_status 404) r.msg_type)) (after_type r) (λ s p. p)
        λ t.
          bind_keeps P (lift (extract_tx c cache v look add_transaction r)) _ (λ s p. p)
            λ tx.
              bind_keeps P (check_ttl c cache v look add_transaction r.ttl_at tx) _ (λ s p. p)
                λ u.
                  bind_keeps P (lift (or_error (http_status 400) (t.decode tx.body)))
                    (after_message r t tx) (λ s p. p)
                    λ msg.
                      bind_keeps P (lift (signer_address c cache v look add_transaction t msg)) _
                        (λ s p. p)
                        λ addr.
                          bind_keeps P
                            (check_signature c cache v look add_transaction r.stored_at tx addr) _
                            (λ s p.
                              signature-keeps v c cache keeps until h look r.stored_at tx addr later
                                bound s.0 p)
                            λ u s p. p

  module _ (on : v.is_disabled ≡ false) where
    extract_ok :
        (r : Request c.Hash Msg) (s t : cache.State × W) (tx : Transaction c.Hash)
        → lift (extract_tx c cache v look add_transaction r) s ≡ (ok tx, t)
        → unmarshal_transaction c r.decoded ≡ ok tx
    unfolding lift
    extract_ok r s t tx h = answered-ok _ _ _ (enabled-ok v.is_disabled _ _ tx on (ap (λ p. p.0) h))

    check_ttl-ok :
        (now : ℕ) (tx : Transaction c.Hash) (s t : cache.State × W)
        → check_ttl c cache v look add_transaction now tx s ≡ (ok tt, t)
        → ltb_int (latest_valid now) tx.timestamp ≡ false
    check_ttl-ok now tx s t h = ttl-ok v c cache on now tx s.0 (answered-ok _ _ _ (ap (λ p. p.0) h))

    check_signature-Holds :
        (now : ℕ) (tx : Transaction c.Hash) (addr : String) (s t : cache.State × W)
        → now / second + kept_for v < 4294967296
        → check_signature c cache v look add_transaction now tx addr s ≡ (ok tt, t)
        → keeps.Holds (hashed c tx).hash (now / second + kept_for v) t.0
    check_signature-Holds now tx addr s t bound h =
        signature-Holds v c cache on keeps look now tx addr s.0 t.0 bound
          (pair-ok _ t.0 (answered-ok _ _ _ (ap (λ p. p.0) h)) (ap (λ p. p.1.0) h))

    accept-Holds :
        (id : ℕ) (msg : Msg) (tx : Transaction c.Hash) (h : c.Hash) (until : ℕ)
        (s t : cache.State × W)
        → accept c cache v look add_transaction id msg tx s ≡ (ok tt, t)
        → keeps.Holds h until s.0
        → keeps.Holds h until t.0
    accept-Holds id msg tx h until s t k holds =
        subst (keeps.Holds h until) (ap (λ p. p.1.0) k) holds

    -- What is known of an accepted request.
    pub post-accepted :
        (r : Request c.Hash Msg) (s t : cache.State × W)
        → r.stored_at / second + kept_for v < 4294967296
        → post r s ≡ (ok tt, t)
        → (tx : Transaction c.Hash) × (unmarshal_transaction c r.decoded ≡ ok tx)
          × (ltb_int (latest_valid r.ttl_at) tx.timestamp ≡ false)
          × keeps.Holds (hashed c tx).hash (r.stored_at / second + kept_for v) t.0
    unfolding post_transaction
    post-accepted r s t bound h =
        let (ty, s1, h1, k1) =
          bind-ok (lift (or_error (http_status 404) r.msg_type)) (after_type r) s h in
        let (tx, s2, h2, k2) =
          bind-ok (lift (extract_tx c cache v look add_transaction r)) _ s1 k1 in
        let (u, s3, h3, k3) =
          bind-ok (check_ttl c cache v look add_transaction r.ttl_at tx) _ s2 k2 in
        let (msg, s4, h4, k4) =
          bind-ok (lift (or_error (http_status 400) (ty.decode tx.body))) (after_message r ty tx) s3
            k3 in
        let (addr, s5, h5, k5) =
          bind-ok (lift (signer_address c cache v look add_transaction ty msg)) _ s4 k4 in
        let (u', s6, h6, k6) =
          bind-ok (check_signature c cache v look add_transaction r.stored_at tx addr) _ s5 k5 in
        (
          tx,
          extract_ok r s1 s2 tx h2,
          check_ttl-ok r.ttl_at tx s2 s3 h3,
          accept-Holds ty.id msg tx (hashed c tx).hash (r.stored_at / second + kept_for v) s6 t k6
              (check_signature-Holds r.stored_at tx addr s5 s6 bound h6),
        )

    -- A request with a transaction that was in time and is in the cache since.
    pub post-refused :
        (r : Request c.Hash Msg) (ttl stored : ℕ) (tx : Transaction c.Hash) (s : cache.State × W)
        → v.message_expiration_seconds < 2147483648
        → unmarshal_transaction c r.decoded ≡ ok tx
        → ttl ≤ stored
        → ltb_int (latest_valid ttl) tx.timestamp ≡ false
        → keeps.Holds tx.hash (stored / second + kept_for v) s.0
        → (e : HttpError) × (post r s ≡ (err e, s))
    unfolding post_transaction lift
    post-refused r ttl stored tx s small same order past holds =
        let (e, refused) =
          ttl-IsError v small c cache keeps on ttl stored r.ttl_at tx s.0 order past holds in
        let extracted : extract_tx c cache v look add_transaction r ≡ ok tx =
          if-false v.is_disabled _ _ on ∙ ap (answered_by λ e. unparseable_body) same in
        let checked : check_ttl c cache v look add_transaction r.ttl_at tx s
            ≡ (err (http_result_from_error e), s) =
          ap (λ x. (answered_by http_result_from_error x, s)) refused in
        elim (Option-cases r.msg_type) [
          | inl none_ ↦ (
            http_status 404,
            bind-fails (lift (or_error (http_status 404) r.msg_type)) (after_type r) s
                (ap (λ o. (or_error (http_status 404) o, s)) none_),
          )
          | inr (ty, some_) ↦ (
            http_result_from_error e,
            bind-step (lift (or_error (http_status 404) r.msg_type)) (after_type r) s
                  (ap (λ o. (or_error (http_status 404) o, s)) some_)
                ∙ bind-step (lift (extract_tx c cache v look add_transaction r)) _ s
                    (ap (λ x. (x, s)) extracted)
                ∙ bind-fails (check_ttl c cache v look add_transaction r.ttl_at tx) _ s checked,
          )
        ]

    pub served-keeps :
        (at : ℕ) (h : c.Hash) (rs : List (Request c.Hash Msg)) (s : cache.State × W)
        → AreLater v at rs
        → keeps.Holds h (at / second + kept_for v) s.0
        → keeps.Holds h (at / second + kept_for v) (served c cache v look add_transaction rs s).0
    served-keeps at h [] s later p = p
    served-keeps at h (r ∷ rs) s (first, bound, later) p =
        served-keeps at h rs (post r s).1 later
          (post-keeps (at / second + kept_for v) h r (omega arith) bound s p)
