-- ===== src/Sign/Panic.antt =====
-- What Verify answers, by the length of the signature, which it may read out of range.
use world_engine.Base.{
  ℕ, zero, suc, ◌≤◌, String, List, [], ◌∷◌, true, Option, none, some, ◌≡◌, refl, ltb, arith, length,
  get_elem?, Bool-cases, inl, inr, ◌↔◌, if◌then◌else◌, ◌⊎◌, ◌≢◌, ◌<◌, set, Option-cases, sym, ap,
  ◌∙◌, nat_eq, ◌==◌,
}
use world_engine.Base.Exec.{Result, ok, err}
use world_engine.Sign.{
  Transaction, SignError, index_out_of_range, signature_validation_failed, Crypto, verify,
  signed_by, hashed, from_yellow_paper,
}

module _ {A : Type 0} where
  none-length : (xs : List A) (i : ℕ) → get_elem? xs i ≡ none → length xs ≤ i
  none-length [] i h = omega arith
  none-length (x ∷ xs) zero h = cc
  none-length (x ∷ xs) (suc i) h = omega (arith, none-length xs i h)

  length-none : (xs : List A) (i : ℕ) → length xs ≤ i → get_elem? xs i ≡ none
  length-none [] i h = refl
  length-none (x ∷ xs) zero h = absurd (omega arith)
  length-none (x ∷ xs) (suc i) h = length-none xs i (omega arith)

  set_same : (xs : List A) (i : ℕ) (x : A) → get_elem? xs i ≡ some x → set xs i x ≡ xs
  set_same [] i x h = refl
  set_same (y ∷ xs) zero x h = cc
  set_same (y ∷ xs) (suc i) x h = ap (λ t. y ∷ t) (set_same xs i x h)

-- The recovery ID that a byte stands for.
abbrev pub recovery_id : ℕ → ℕ
recovery_id v = if v == 27 then 0 else if v == 28 then 1 else v

module _ (c : Crypto) where
  -- The signature's key, with its recovery ID at the offset, is that of the address.
  abbrev pub IsSignedBy : List ℕ → ℕ → c.Hash → c.Address → Type 0
  IsSignedBy sig v hash addr =
      (key : c.Key) × (c.sig_to_pub hash (set sig 64 (recovery_id v)) ≡ some key)
      × (c.same_address (c.pubkey_to_address key) addr ≡ true)

  -- What Verify answers, by the number of the signature's bytes.
  abbrev pub Verdict : List ℕ → c.Hash → c.Address → Result SignError (Unit {0}) → Type 0
  Verdict sig hash addr r =
      ((length sig < 64) × (r ≡ err signature_validation_failed))
      ⊎ ((length sig ≡ 64) × (r ≡ err index_out_of_range))
      ⊎ ((64 < length sig)
          × (r ≢ err index_out_of_range)
          × (v : ℕ) × (get_elem? sig 64 ≡ some v)
          × ((r ≡ ok tt) ↔ IsSignedBy sig v hash addr))

  from_yellow_paper_lem :
      (sig : List ℕ) (v : ℕ)
      → get_elem? sig 64 ≡ some v
      → from_yellow_paper c sig v ≡ set sig 64 (recovery_id v)
  from_yellow_paper_lem sig v h = ground (arith, set_same sig 64 v h)

  signed_by-in_range :
      (key : Option c.Key) (addr : c.Address) → signed_by c key addr ≢ err index_out_of_range
  signed_by-in_range none addr h = cc
  signed_by-in_range (some key) addr h =
      elim (Bool-cases (c.same_address (c.pubkey_to_address key) addr)) [
        | inl e ↦ let bad = rw e at h in cc
        | inr e ↦ let bad = rw e at h in cc
      ]

  signed_by_lem :
      (key : Option c.Key) (addr : c.Address)
      → (signed_by c key addr ≡ ok tt)
        ↔ ((k : c.Key) × (key ≡ some k) × (c.same_address (c.pubkey_to_address k) addr ≡ true))
  signed_by_lem none addr = (λ h. cc, λ (k, e, f). cc)
  signed_by_lem (some key) addr =
      elim (Bool-cases (c.same_address (c.pubkey_to_address key) addr)) [
        | inl e ↦ (λ h. (key, refl, e), λ h. rw e refl)
        | inr e ↦ (λ h. let bad = rw e at h in cc, λ (k, f, g). absurd (cc (e, f, g)))
      ]

  -- Verify refuses a signature of less than 64 bytes as invalid. One of 64 bytes it reads out of range,
  -- which is a panic. A longer one has a recovery ID in its byte 64, where 27 and 28 stand for 0 and 1,
  -- and Verify succeeds exactly where the key that is recovered with that ID, from the transaction's
  -- hash, is that of the address; it does not panic.
  pub verify-Verdict :
      (s : Transaction c.Hash) (hex_address : String)
      → Verdict
          (c.hex_to_bytes s.signature)
          (hashed c s).hash
          (c.hex_to_address hex_address)
          (verify c s hex_address)
  unfolding verify
  verify-Verdict s hex_address =
      let sig = c.hex_to_bytes s.signature in
      let addr = c.hex_to_address hex_address in
      let hash = (hashed c s).hash in
      elim (Bool-cases (ltb (length sig) 64)) [
        | inl short ↦ inl (ground arith, rw short refl)
        | inr long ↦ elim (Option-cases (get_elem? sig 64)) [
          | inl e ↦ inr (inl (ground (arith, long, none-length sig 64 e), rw (long, e) refl))
          | inr (v, e) ↦
              let key = c.sig_to_pub hash (set sig 64 (recovery_id v)) in
              let answer : verify c s hex_address ≡ signed_by c key addr =
                rw (long, e)
                  (ap (λ (b : List ℕ). signed_by c (c.sig_to_pub hash b) addr)
                    (from_yellow_paper_lem sig v e)) in
              inr (
                inr (
                  longer sig v e,
                  (λ h. signed_by-in_range key addr (sym answer ∙ h)),
                  v,
                  e,
                  (
                    λ h. (signed_by_lem key addr).0 (sym answer ∙ h),
                    λ h. answer ∙ (signed_by_lem key addr).1 h,
                  ),
                ))
        ]
      ]
    where
      longer : (sig : List ℕ) (v : ℕ) → get_elem? sig 64 ≡ some v → 64 < length sig
      longer sig v e = elim (Bool-cases (ltb 64 (length sig))) [
        | inl h ↦ ground arith
        | inr h ↦ absurd (cc (length-none sig 64 (ground arith), e))
      ]
