-- ===== src/Nonce/Replay.antt =====
-- No nonce is accepted twice by one NonceStorage of nonce.go.
use world_engine.Base.{
  ℕ, ◌^◌, ◌<◌, String, List, [], ◌∷◌, false, some, nat_eq, string_eq, ◌==◌, ltb, ◌≡◌, sym, arith,
  inl, inr, contains, Bool-cases, subst,
}
use text.Mathlib.TextEquality.{eq_iff}
use world_engine.Base.GoMap.{lookup}
use world_engine.Base.Distinct.{IsDistinct}
use world_engine.Base.Exec.{ok, err, Result-cases, fail, ◌>>=◌}
use world_engine.Nonce.{
  SortedSets, NonceStorage, too_old, get_max_nonce_for_key, note_used, unless_used, unless_too_old,
  use_nonce_for_key, use_nonce, nonce_set_key, max_valid_nonce, new_nonce_storage,
}
use world_engine.Nonce.Invariant.{
  Documented, Inv, top, fresh-Inv, get_max-Inv, get_max_answer, zadd-Inv,
}
use world_engine.Nonce.Counted.{note_used-Inv, accepted, note_other-Inv}

module _ {z : SortedSets} (d : Documented z) (k : String) where
  -- For the key `k`, a nonce that is in the window and was not in redis was not accepted before.
  is_new :
      (nonce : ℕ) (acc : List ℕ) (r : NonceStorage z)
      → too_old nonce (top d k r) ≡ false
      → d.member r.client k nonce ≡ false
      → Inv d k acc r
      → contains acc nonce ≡ false
  is_new nonce acc r recent free v = elim (Bool-cases (contains acc nonce)) [
    | inr new ↦ new
    | inl old ↦ absurd (ground (arith, v.held nonce old, recent, free))
  ]

  added-Inv :
      (j : String) (nonce n added : ℕ) (db : z.Db) (acc : List ℕ) (r : NonceStorage z)
      → nonce < 2 ^ 64
      → lookup j r.max_nonce ≡ some n
      → too_old nonce n ≡ false
      → z.zadd r.client j nonce ≡ ok (added, db)
      → Inv d k acc r
      → Inv d k
          (accepted k j nonce (unless_used j nonce added (record r { client = db })).0 acc)
          (unless_used j nonce added (record r { client = db })).1
  added-Inv j nonce n added db acc r valid there recent e v =
      let s : NonceStorage z = record r { client = db } in
      let w : Inv d k acc s = zadd-Inv d k j nonce added db acc r e v in
      elim (Bool-cases (nat_eq.beq added 0)) [
        | inl used ↦ rw (used, unless_used) w
        | inr new ↦ elim (Bool-cases (j == k)) [
          | inr off ↦ rw (new, unless_used, off) (note_other-Inv d k j nonce acc s off w)
          | inl on ↦
              let same : j ≡ k = (eq_iff j k).0 on in
              let e' : z.zadd r.client k nonce ≡ ok (added, db) =
                subst (λ i. z.zadd r.client i nonce ≡ ok (added, db)) same e in
              let there' : lookup k r.max_nonce ≡ some n =
                subst (λ i. lookup i r.max_nonce ≡ some n) same there in
              let fresh =
                is_new nonce acc r (ground (arith, there', recent))
                  (ground (arith, new, d.zadd_answer r.client db k nonce added e')) v in
              rw (new, unless_used, on)
                (subst (λ i. Inv d k (nonce ∷ acc) (note_used i nonce s)) (sym same)
                  (note_used-Inv d k nonce acc s fresh
                    (ground (arith, d.zadd_member r.client db k nonce added e' k nonce, eq_iff k k))
                    valid w))
        ]
      ]

  window-Inv :
      (j : String) (nonce n : ℕ) (acc : List ℕ) (r : NonceStorage z)
      → nonce < 2 ^ 64
      → lookup j r.max_nonce ≡ some n
      → Inv d k acc r
      → Inv d k
          (accepted k j nonce (unless_too_old j nonce n r).0 acc)
          (unless_too_old j nonce n r).1
  unfolding unless_too_old ◌>>=◌
  window-Inv j nonce n acc r valid there v = elim (Bool-cases (too_old nonce n)) [
    | inl old ↦ rw (old, unless_too_old) v
    | inr recent ↦ elim (Result-cases (z.zadd r.client j nonce)) [
      | inr (x, e) ↦ rw (recent, unless_too_old) (rw e v)
      | inl ((added, db), e) ↦
          rw (recent, unless_too_old)
            (rw e (added-Inv j nonce n added db acc r valid there recent e v))
    ]
  ]

  use-Inv :
      (j : String) (nonce : ℕ) (acc : List ℕ) (r : NonceStorage z)
      → nonce < 2 ^ 64
      → Inv d k acc r
      → Inv d k
          (accepted k j nonce (use_nonce_for_key j nonce r).0 acc)
          (use_nonce_for_key j nonce r).1
  unfolding use_nonce_for_key ◌>>=◌
  use-Inv j nonce acc r valid v =
      let q = get_max_nonce_for_key j r in
      let loaded : Inv d k acc q.1 = get_max-Inv d k j acc r v in
      elim (Result-cases q.0) [
        | inr (x, f) ↦
            let e : q ≡ (err x, q.1) = λ i. (f i, q.1) in rw (e, use_nonce_for_key) loaded
        | inl (n, f) ↦
            let e : q ≡ (ok n, q.1) = λ i. (f i, q.1) in
            rw (e, use_nonce_for_key)
              (window-Inv j nonce n acc q.1 valid (get_max_answer d k j r q.1 n e) loaded)
      ]

  -- The nonces for the key `k` that calls of UseNonce, from signers and nonces, have accepted.
  abbrev pub accept_all : List (String × ℕ) → List ℕ → NonceStorage z → List ℕ
  accept_all [] acc r = acc
  accept_all ((signer, nonce) ∷ calls) acc r =
      let (answer, r') = use_nonce signer nonce r in
      accept_all calls (accepted k (nonce_set_key signer) nonce answer acc) r'

  step-Inv :
      (signer : String) (nonce : ℕ) (acc : List ℕ) (r : NonceStorage z)
      → Inv d k acc r
      → Inv d k
          (accepted k (nonce_set_key signer) nonce (use_nonce signer nonce r).0 acc)
          (use_nonce signer nonce r).1
  unfolding use_nonce fail
  step-Inv signer nonce acc r v = elim (Bool-cases (ltb max_valid_nonce nonce)) [
    | inl large ↦ rw (large, use_nonce) v
    | inr small ↦
        rw (small, use_nonce) (use-Inv (nonce_set_key signer) nonce acc r (ground (arith, small)) v)
  ]

  accept_all-IsDistinct :
      (calls : List (String × ℕ)) (acc : List ℕ) (r : NonceStorage z)
      → Inv d k acc r
      → IsDistinct (accept_all calls acc r)
  accept_all-IsDistinct [] acc r v = v.distinct
  accept_all-IsDistinct ((signer, nonce) ∷ calls) acc r v =
      accept_all-IsDistinct calls
        (accepted k (nonce_set_key signer) nonce (use_nonce signer nonce r).0 acc)
        (use_nonce signer nonce r).1 (step-Inv signer nonce acc r v)

-- In any sequence of calls of UseNonce from a new NonceStorage on, over any database, the nonces
-- that were accepted under one redis key are distinct, cleanups and failed commands included.
pub no_replay :
    {z : SortedSets} (d : Documented z) (k : String) (db : z.Db) (calls : List (String × ℕ))
    → IsDistinct (accept_all d k calls [] (new_nonce_storage db))
no_replay d k db calls =
    accept_all-IsDistinct d k calls [] (new_nonce_storage db) (fresh-Inv d k db)
