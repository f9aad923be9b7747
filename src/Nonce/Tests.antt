-- ===== src/Nonce/Tests.antt =====
-- Tests of the nonce storage on sorted sets in memory.
use world_engine.Base.{
  ℕ, ◌<◌, ◌^◌, ◌≢◌, String, List, [], ◌∷◌, Bool, true, false, not, ◌&&◌, ◌||◌, ◌≡◌, refl, ap, sym,
  subst, ◌∙◌, arith, if◌then◌else◌, ◌==◌, nat_eq, string_eq, leb, contains,
}
use text.Mathlib.TextEquality.{eq_iff}
use world_engine.Base.GoMap.{lookup}
use world_engine.Base.Exec.{Result, ok, err}
use world_engine.Base.Distinct.{IsDistinct}
use world_engine.Nonce.{
  NonceError, SortedSets, NonceStorage, new_nonce_storage, nonce_set_key, use_nonce, first_or_zero,
  nonce_is_too_old,
}
use world_engine.Nonce.Invariant.{Documented}
use world_engine.Nonce.Replay.{accept_all, no_replay}
use world_engine.Nonce.Restart.{IsEmptyRange, restart_accepts_old}

-- The members of each key, newest first.
abbrev Sets : Type 0
Sets = List (String × ℕ)

abbrev has : Sets → String → ℕ → Bool
has [] k n = false
has ((j, m) ∷ db) k n = ((j == k) && (m == n)) || has db k n

abbrev without : Sets → String → ℕ → Sets
without [] k top = []
without ((j, m) ∷ db) k top =
    let rest = without db k top in if (k == j) && leb m top then rest else (j, m) ∷ rest

-- The members of a key, each once.
abbrev members : Sets → String → List ℕ
members [] k = []
members ((j, m) ∷ db) k =
    let rest = members db k in if (j == k) && not (has db j m) then m ∷ rest else rest

-- ZRANGE key -1 0 answers a member only where it is the only one; no score is above 2^64.
abbrev only : List ℕ → List ℕ
only (n ∷ []) = if leb (2 ^ 64) n then [] else n ∷ []
only _ = []

abbrev sets : SortedSets
sets = record {
  Db = Sets;
  zadd = λ db k n. ok (if has db k n then 0 else 1, (k, n) ∷ db);
  zrem_range_by_score = λ db k top. ok (0, without db k top);
  zrange_last_to_first = λ db k. ok (only (members db k));
}

without-has :
    (db : Sets) (k : String) (top : ℕ) (j : String) (m : ℕ)
    → has (without db k top) j m ≡ (has db j m && not ((k == j) && leb m top))
without-has [] k top j m = refl
without-has ((i, n) ∷ db) k top j m =
    ground (arith, without-has db k top j m, eq_iff i j, eq_iff k i, eq_iff k j, eq_iff j i)

only_small : (ns : List ℕ) → first_or_zero (only ns) < 2 ^ 64
only_small [] = omega arith
only_small (n ∷ []) = ground arith
only_small (n ∷ m ∷ ns) = omega arith

abbrev set_of : Result NonceError (ℕ × Sets) → Sets
set_of (ok (a, db)) = db
set_of (err error) = []

abbrev values_of : Result NonceError (List ℕ) → List ℕ
values_of (ok ns) = ns
values_of (err error) = []

sets-Documented : Documented sets
sets-Documented = record {
  member = has;
  zadd_answer = λ db db' k n a h. ground (arith, h);
  zadd_member = λ db db' k n a h j m. ground (arith, h);
  zrem_member = λ db db' k top a h j m.
      ap (λ (r : Result NonceError (ℕ × Sets)). has (set_of r) j m) (sym h)
      ∙ without-has db k top j m;
  zrange_small = λ db k ns h.
      subst (λ (r : Result NonceError (List ℕ)). first_or_zero (values_of r) < 2 ^ 64) h
        (only_small (members db k));
}

contains-members : (db : Sets) (k : String) (n : ℕ) → contains (members db k) n ≡ has db k n
unfolding contains
contains-members [] k n = refl
contains-members ((j, m) ∷ db) k n = ground (
  arith,
  contains-members db k n,
  eq_iff j k,
  λ (same : j ≡ k). ap (λ (t : String). has db t m) same,
  nat_eq.beq_iff m n,
  λ (same : m ≡ n). ap (λ (t : ℕ). has db k t) same,
)

only_one :
    (ns : List ℕ) (a b : ℕ) → a ≢ b → contains ns a ≡ true → contains ns b ≡ true → only ns ≡ []
unfolding contains
only_one [] a b ne h k = refl
only_one (n ∷ []) a b ne h k = absurd (ground (arith, ne))
only_one (n ∷ m ∷ ns) a b ne h k = refl

sets-IsEmptyRange : IsEmptyRange sets-Documented
unfolding sets-Documented
sets-IsEmptyRange db k a b ne h j =
    ap (λ (t : List ℕ). ok t)
      (only_one (members db k) a b ne (contains-members db k a ∙ h) (contains-members db k b ∙ j))

no_replay_example : IsDistinct (
    accept_all sets-Documented
      (nonce_set_key "0xabc")
      (("0xabc", 7) ∷ ("0xdef", 7) ∷ ("0xabc", 7) ∷ ("0xabc", 3000) ∷ ("0xabc", 7) ∷ [])
      []
      (new_nonce_storage []))
no_replay_example =
    no_replay sets-Documented (nonce_set_key "0xabc") []
      (("0xabc", 7) ∷ ("0xdef", 7) ∷ ("0xabc", 7) ∷ ("0xabc", 3000) ∷ ("0xabc", 7) ∷ [])

abbrev key : String
unfolding nonce_set_key
key = nonce_set_key "0xabc"

abbrev storage : NonceStorage sets
storage = record {
  client = (key, 2000) ∷ (key, 5000) ∷ [];
  max_nonce = (key, 5000) ∷ [];
  count_nonce = [];
}

restart_accepts_old_example :
    ((use_nonce "0xabc" 1 storage).0 ≡ err nonce_is_too_old)
    × ((use_nonce "0xabc" 1 (new_nonce_storage {z = sets} storage.client)).0 ≡ ok tt)
unfolding nonce_set_key lookup sets-Documented
restart_accepts_old_example =
    restart_accepts_old sets-Documented sets-IsEmptyRange "0xabc" 1 2000 5000 1 storage
      ((key, 1) ∷ storage.client) (λ same. absurd (omega (arith, same))) refl refl refl
      (omega arith) (omega arith) refl refl
