-- ===== src/Nonce/Invariant.antt =====
-- The invariant of NonceStorage of nonce.go that keeps out a replay, and the steps that leave the
-- accepted nonces as they are.
use world_engine.Base.{
  ℕ, zero, suc, ◌+◌, ◌-◌, ◌%◌, ◌^◌, ◌≤◌, ◌<◌, String, List, [], ◌∷◌, Bool, true, not, ◌&&◌, ◌||◌,
  some, if◌then◌else◌, nat_eq, string_eq, ◌==◌, leb, ◌≡◌, refl, ◌∙◌, ap, arith, ◌⊎◌, inl, inr,
  length, contains, count, Bool-cases, Option-cases, is_some,
}
use text.Mathlib.TextEquality.{eq_iff}
use world_engine.Base.GoMap.{lookup, lookup-insert, lookup-insert_self}
use world_engine.Base.Distinct.{IsDistinct, subset_length}
use world_engine.Base.Exec.{ok, Result-cases}
use world_engine.Nonce.{
  SortedSets, NonceStorage, count_or_zero, or_zero, first_or_zero, get_max_nonce_for_key,
  cleanup_old_nonces, new_nonce_storage,
}

-- The documented behaviour of the sorted sets: ZADD answers how many members are new and adds them,
-- ZREMRANGEBYSCORE removes exactly the members up to the score, and no other set is changed.
pub record Documented (z : SortedSets) : Type 0 where
  pub member : z.Db → String → ℕ → Bool
  pub zadd_answer :
      (db db' : z.Db) (k : String) (n a : ℕ)
      → z.zadd db k n ≡ ok (a, db')
      → a ≡ (if member db k n then 0 else 1)
  pub zadd_member :
      (db db' : z.Db) (k : String) (n a : ℕ)
      → z.zadd db k n ≡ ok (a, db')
      → (j : String) (m : ℕ) → member db' j m ≡ (((k == j) && (n == m)) || member db j m)
  pub zrem_member :
      (db db' : z.Db) (k : String) (top a : ℕ)
      → z.zrem_range_by_score db k top ≡ ok (a, db')
      → (j : String) (m : ℕ) → member db' j m ≡ (member db j m && not ((k == j) && leb m top))
  -- ParseUint reads 64 bits.
  pub zrange_small :
      (db : z.Db) (k : String) (ns : List ℕ)
      → z.zrange_last_to_first db k ≡ ok ns
      → first_or_zero ns < 2 ^ 64

module _ {z : SortedSets} (d : Documented z) (k : String) where
  abbrev pub top : NonceStorage z → ℕ
  top r = or_zero (lookup k r.max_nonce)

  -- The nonces `acc` that were accepted for the key `k` are distinct, none is above the maximum
  -- in memory, each is still in redis or too old, and they are at least as many as were counted.
  pub record Inv (acc : List ℕ) (r : NonceStorage z) : Type 0 where
    pub distinct : IsDistinct acc
    pub loaded : (n : ℕ) → contains acc n ≡ true → is_some (lookup k r.max_nonce) ≡ true
    pub bounded : (n : ℕ) → contains acc n ≡ true → n ≤ top r
    pub held : (n : ℕ) → contains acc n ≡ true → (d.member r.client k n ≡ true) ⊎ (n + 1000 ≤ top r)
    pub counted : (count_or_zero (lookup k r.count_nonce)).added ≤ length acc
    pub small : top r < 2 ^ 64

  pub fresh-Inv : (db : z.Db) → Inv [] (new_nonce_storage db)
  unfolding new_nonce_storage lookup contains count
  fresh-Inv db = record {
    distinct = λ n. omega arith;
    loaded = λ n h. absurd (ground arith);
    bounded = λ n h. absurd (ground arith);
    held = λ n h. absurd (ground arith);
    counted = omega arith;
    small = omega arith;
  }

  -- `0, …, top`
  abbrev up_to : ℕ → List ℕ
  up_to zero = 0 ∷ []
  up_to (suc top) = suc top ∷ up_to top

  length-up_to : (top : ℕ) → length (up_to top) ≡ suc top
  length-up_to zero = refl
  length-up_to (suc top) = ap suc (length-up_to top)

  contains-up_to : (top n : ℕ) → n ≤ top → contains (up_to top) n ≡ true
  unfolding contains
  contains-up_to zero n h = ground arith
  contains-up_to (suc top) n h = ground (arith, contains-up_to top n)

  -- Distinct numbers up to `top` are at most `top + 1`.
  pub length_bounded :
      (acc : List ℕ) (top : ℕ)
      → IsDistinct acc
      → ((n : ℕ) → contains acc n ≡ true → n ≤ top)
      → length acc ≤ suc top
  length_bounded acc top distinct bounded = omega (
    arith,
    length-up_to top,
    subset_length acc (up_to top) distinct (λ n h. contains-up_to top n (bounded n h)),
  )

  -- Reading the maximum for some key.
  pub get_max-Inv :
      (j : String) (acc : List ℕ) (r : NonceStorage z)
      → Inv acc r
      → Inv acc (get_max_nonce_for_key j r).1
  unfolding get_max_nonce_for_key
  get_max-Inv j acc r v = elim (Option-cases (lookup j r.max_nonce)) [
    | inr (n, e) ↦ rw (e, get_max_nonce_for_key) v
    | inl e ↦ elim (Result-cases (z.zrange_last_to_first r.client j)) [
      | inr (x, f) ↦ rw (e, f, get_max_nonce_for_key) v
      | inl (ns, f) ↦
          let small = d.zrange_small r.client j ns f in
          let law = lookup-insert j k (first_or_zero ns) r.max_nonce in
          rw (e, f, get_max_nonce_for_key)
            (record {
              distinct = v.distinct;
              loaded = λ n h. ground (arith, v.loaded n h, law);
              bounded = λ n h. ground (arith, v.loaded n h, v.bounded n h, law, eq_iff j k);
              held = λ n h. ground (arith, v.loaded n h, v.held n h, law, eq_iff j k);
              counted = v.counted;
              small = ground (arith, law, v.small);
            })
    ]
  ]

  pub get_max_answer :
      (j : String) (r r' : NonceStorage z) (n : ℕ)
      → get_max_nonce_for_key j r ≡ (ok n, r')
      → lookup j r'.max_nonce ≡ some n
  unfolding get_max_nonce_for_key
  get_max_answer j r r' n h = ground (arith, lookup-insert_self j n r.max_nonce)

  -- ZADD only adds members.
  pub zadd-Inv :
      (j : String) (nonce added : ℕ) (db : z.Db) (acc : List ℕ) (r : NonceStorage z)
      → z.zadd r.client j nonce ≡ ok (added, db)
      → Inv acc r
      → Inv acc (record r { client = db })
  zadd-Inv j nonce added db acc r e v = record {
    distinct = v.distinct;
    loaded = v.loaded;
    bounded = v.bounded;
    held = λ n h. ground (arith, v.held n h, d.zadd_member r.client db j nonce added e k n);
    counted = v.counted;
    small = v.small;
  }

  -- The bound of the cleanup, once the maximum is above the window.
  cleanup_bound : (t : ℕ) → 1000 ≤ t → t < 2 ^ 64 → (t + 2 ^ 64 - 1000) % 2 ^ 64 ≡ t - 1000
  cleanup_bound t low high = omega arith

  -- A cleanup for `k` removes only what is too old.
  cleaned :
      (j : String) (curr_max : ℕ) (acc : List ℕ) (r : NonceStorage z)
      → ((j == k) ≡ true → (curr_max ≡ top r) × (1000 ≤ curr_max))
      → Inv acc r
      → (removed : ℕ) (db : z.Db)
      → z.zrem_range_by_score r.client j ((curr_max + 2 ^ 64 - 1000) % 2 ^ 64) ≡ ok (removed, db)
      → (n : ℕ) → contains acc n ≡ true
      → (d.member db k n ≡ true) ⊎ (n + 1000 ≤ top r)
  cleaned j curr_max acc r at_key v removed db e n h =
      let law = d.zrem_member r.client db j ((curr_max + 2 ^ 64 - 1000) % 2 ^ 64) removed e k n in
      elim (Bool-cases (j == k)) [
        | inr off ↦ ground (arith, v.held n h, law)
        | inl on ↦
            let bound =
              cleanup_bound curr_max (at_key on).1 (omega (arith, (at_key on).0, v.small)) in
            let law' : d.member db k n
                ≡ (d.member r.client k n && not ((j == k) && leb n (curr_max - 1000))) =
              law ∙ ap (λ (b : ℕ). d.member r.client k n && not ((j == k) && leb n b)) bound in
            ground (arith, v.held n h, law', (at_key on).0, (at_key on).1)
      ]

  pub cleanup-Inv :
      (j : String) (curr_max : ℕ) (acc : List ℕ) (r : NonceStorage z)
      → ((j == k) ≡ true → (curr_max ≡ top r) × (1000 ≤ curr_max))
      → Inv acc r
      → Inv acc (cleanup_old_nonces j curr_max r)
  unfolding cleanup_old_nonces
  cleanup-Inv j curr_max acc r at_key v =
      let bound = (curr_max + 2 ^ 64 - 1000) % 2 ^ 64 in
      elim (Result-cases (z.zrem_range_by_score r.client j bound)) [
        | inr (x, e) ↦ rw (e, cleanup_old_nonces) v
        | inl ((removed, db), e) ↦
            rw (e, cleanup_old_nonces)
              (record {
                distinct = v.distinct;
                loaded = v.loaded;
                bounded = v.bounded;
                held = λ n h. cleaned j curr_max acc r at_key v removed db e n h;
                counted = ground (
                  arith,
                  v.counted,
                  eq_iff j k,
                  lookup-insert j k
                      (record (count_or_zero (lookup j r.count_nonce)) {
                        removed = (count_or_zero (lookup j r.count_nonce)).removed + removed;
                      })
                      r.count_nonce,
                );
                small = v.small;
              })
      ]
