-- ===== src/Nonce/Counted.antt =====
-- The counters of nonce.go keep what is relied on, for the signer's own nonces and for those of others.
use world_engine.Base.{
  ℕ, ◌+◌, ◌^◌, ◌<◌, max, String, List, ◌∷◌, true, false, some, if◌then◌else◌, nat_eq, string_eq,
  ◌==◌, ltb, ◌≡◌, ◌∙◌, ap, arith, inl, inr, contains, Bool-cases, subst,
}
use world_engine.Base.GoMap.{lookup, insert, lookup-insert, lookup-insert_self}
use world_engine.Base.Distinct.{IsDistinct-cons}
use world_engine.Base.Exec.{Result, ok, err}
use world_engine.Nonce.{NonceError, SortedSets, NonceStorage, count_or_zero, or_zero, note_used}
use world_engine.Nonce.Invariant.{Documented, Inv, top, length_bounded, cleanup-Inv}

-- A step for the key `j`, and what was accepted for `k`.
abbrev pub accepted : String → String → ℕ → Result NonceError (Unit {0}) → List ℕ → List ℕ
accepted k j nonce (ok _) acc = if j == k then nonce ∷ acc else acc
accepted k j nonce (err _) acc = acc

module _ {z : SortedSets} (d : Documented z) (k : String) where
  -- The nonce is counted, and the maximum is raised to it.
  pub counted_state : String → ℕ → NonceStorage z → NonceStorage z
  counted_state j nonce r = record r {
    max_nonce = insert j (max (or_zero (lookup j r.max_nonce)) nonce) r.max_nonce;
    count_nonce =
        insert j
          (record (count_or_zero (lookup j r.count_nonce)) {
            added = (count_or_zero (lookup j r.count_nonce)).added + 1;
          })
          r.count_nonce;
  }

  pub counted-Inv :
      (nonce : ℕ) (acc : List ℕ) (r : NonceStorage z)
      → contains acc nonce ≡ false
      → d.member r.client k nonce ≡ true
      → nonce < 2 ^ 64
      → Inv d k acc r
      → Inv d k (nonce ∷ acc) (counted_state k nonce r)
  unfolding counted_state contains
  counted-Inv nonce acc r fresh member valid v =
      let law = lookup-insert_self k (max (or_zero (lookup k r.max_nonce)) nonce) r.max_nonce in
      record {
        distinct = IsDistinct-cons nonce acc fresh v.distinct;
        loaded = λ n h. ground (arith, law);
        bounded = λ n h. ground (arith, law, v.bounded n);
        held = λ n h. ground (
          arith,
          law,
          v.held n,
          λ (same : nonce ≡ n). subst (λ t. d.member r.client k t ≡ true) same member,
        );
        counted = ground (
          arith,
          v.counted,
          lookup-insert_self k
              (record (count_or_zero (lookup k r.count_nonce)) {
                added = (count_or_zero (lookup k r.count_nonce)).added + 1;
              })
              r.count_nonce,
        );
        small = ground (arith, law, v.small);
      }

  -- What follows a ZADD that added the nonce for the key `k`.
  pub note_used-Inv :
      (nonce : ℕ) (acc : List ℕ) (r : NonceStorage z)
      → contains acc nonce ≡ false
      → d.member r.client k nonce ≡ true
      → nonce < 2 ^ 64
      → Inv d k acc r
      → Inv d k (nonce ∷ acc) (note_used k nonce r)
  unfolding note_used counted_state
  note_used-Inv nonce acc r fresh member valid v =
      let after : Inv d k (nonce ∷ acc) (counted_state k nonce r) =
        counted-Inv nonce acc r fresh member valid v in
      let c = count_or_zero (lookup k r.count_nonce) in
      let law = lookup-insert_self k (max (or_zero (lookup k r.max_nonce)) nonce) r.max_nonce in
      let long =
        length_bounded d k (nonce ∷ acc) (top d k (counted_state k nonce r)) after.distinct
          after.bounded in
      elim (Bool-cases (ltb (c.removed + 1500) (c.added + 1))) [
        | inr few ↦ rw (few, note_used) after
        | inl many ↦
            rw (many, note_used)
              (cleanup-Inv d k k (max (or_zero (lookup k r.max_nonce)) nonce) (nonce ∷ acc)
                (counted_state k nonce r)
                (λ same. (ground (arith, law), ground (arith, law, long, v.counted))) after)
      ]

  pub counted_other-Inv :
      (j : String) (nonce : ℕ) (acc : List ℕ) (r : NonceStorage z)
      → (j == k) ≡ false
      → Inv d k acc r
      → Inv d k acc (counted_state j nonce r)
  unfolding counted_state
  counted_other-Inv j nonce acc r off v =
      let law : lookup k (insert j (max (or_zero (lookup j r.max_nonce)) nonce) r.max_nonce)
          ≡ lookup k r.max_nonce =
        lookup-insert j k (max (or_zero (lookup j r.max_nonce)) nonce) r.max_nonce
        ∙ ap
            (λ b.
              if b then some (max (or_zero (lookup j r.max_nonce)) nonce) else lookup k r.max_nonce)
            off in
      record {
        distinct = v.distinct;
        loaded = λ n h. ground (arith, law, v.loaded n h);
        bounded = λ n h. ground (arith, law, v.bounded n h);
        held = λ n h. ground (arith, law, v.held n h);
        counted = ground (
          arith,
          v.counted,
          off,
          lookup-insert j k
              (record (count_or_zero (lookup j r.count_nonce)) {
                added = (count_or_zero (lookup j r.count_nonce)).added + 1;
              })
              r.count_nonce,
        );
        small = ground (arith, law, v.small);
      }

  -- What follows a ZADD for another key.
  pub note_other-Inv :
      (j : String) (nonce : ℕ) (acc : List ℕ) (r : NonceStorage z)
      → (j == k) ≡ false
      → Inv d k acc r
      → Inv d k acc (note_used j nonce r)
  unfolding note_used counted_state
  note_other-Inv j nonce acc r off v =
      let after : Inv d k acc (counted_state j nonce r) = counted_other-Inv j nonce acc r off v in
      let c = count_or_zero (lookup j r.count_nonce) in
      elim (Bool-cases (ltb (c.removed + 1500) (c.added + 1))) [
        | inr few ↦ rw (few, note_used) after
        | inl many ↦
            rw (many, note_used)
              (cleanup-Inv d k j (max (or_zero (lookup j r.max_nonce)) nonce) acc
                (counted_state j nonce r) (λ same. absurd (ground (arith, same, off))) after)
      ]
