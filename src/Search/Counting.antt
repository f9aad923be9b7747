-- ===== src/Search/Counting.antt =====
-- The maps by which cardinal/composedsearch.go counts and marks entity IDs.
use world_engine.Base.{
  ℕ, ◌+◌, ◌≤◌, ◌≡◌, refl, sym, ap, ◌∙◌, Bool, true, false, ◌&&◌, ◌||◌, List, [], ◌∷◌, ◌++◌, filter,
  contains, count, contains_iff_count, is_some, nat_eq, ◌==◌, arith, beq_refl,
}
use mathlib.Core.List.{append-nil, append_assoc}
use world_engine.Base.GoMap.{
  GoMap, lookup, insert, keys, IsMap, insert-IsMap, lookup-insert, contains-keys,
}
use world_engine.Search.Composed.{
  count_ids, mark_ids, ids_with_count, or_zero, call_each, append_result,
}

pub count_ids-or_zero :
    (id : ℕ) (ids : List ℕ) (m : GoMap ℕ ℕ)
    → or_zero (lookup id (count_ids ids m)) ≡ or_zero (lookup id m) + count id ids
unfolding count_ids count
count_ids-or_zero id [] m = omega arith
count_ids-or_zero id (x ∷ ids) m = ground (
  arith,
  count_ids-or_zero id ids (insert x (or_zero (lookup x m) + 1) m),
  lookup-insert x id (or_zero (lookup x m) + 1) m,
  nat_eq.beq_iff x id,
)

pub count_ids-is_some :
    (id : ℕ) (ids : List ℕ) (m : GoMap ℕ ℕ)
    → is_some (lookup id (count_ids ids m)) ≡ (is_some (lookup id m) || contains ids id)
unfolding count_ids contains
count_ids-is_some id [] m = ground arith
count_ids-is_some id (x ∷ ids) m = ground (
  arith,
  count_ids-is_some id ids (insert x (or_zero (lookup x m) + 1) m),
  lookup-insert x id (or_zero (lookup x m) + 1) m,
)

pub count_ids-IsMap : (ids : List ℕ) (m : GoMap ℕ ℕ) → IsMap m → IsMap (count_ids ids m)
unfolding count_ids
count_ids-IsMap [] m h = h
count_ids-IsMap (x ∷ ids) m h =
    count_ids-IsMap ids (insert x (or_zero (lookup x m) + 1) m)
      (insert-IsMap x (or_zero (lookup x m) + 1) m h)

pub mark_ids-is_some :
    (id : ℕ) (ids : List ℕ) (m : GoMap ℕ Bool)
    → is_some (lookup id (mark_ids ids m)) ≡ (is_some (lookup id m) || contains ids id)
unfolding mark_ids contains
mark_ids-is_some id [] m = ground arith
mark_ids-is_some id (x ∷ ids) m =
    ground (arith, mark_ids-is_some id ids (insert x true m), lookup-insert x id true m)

pub mark_ids-IsMap : (ids : List ℕ) (m : GoMap ℕ Bool) → IsMap m → IsMap (mark_ids ids m)
unfolding mark_ids
mark_ids-IsMap [] m h = h
mark_ids-IsMap (x ∷ ids) m h = mark_ids-IsMap ids (insert x true m) (insert-IsMap x true m h)

pub count-ids_with_count :
    (id n : ℕ) (m : GoMap ℕ ℕ) → count id (ids_with_count n m) ≤ count id (keys m)
unfolding ids_with_count count keys
count-ids_with_count id n [] = omega arith
count-ids_with_count id n ((j, c) ∷ m) = ground (arith, count-ids_with_count id n m)

-- The head of a map is the only entry of its key.
head-fresh : (j c : ℕ) (m : GoMap ℕ ℕ) → IsMap ((j, c) ∷ m) → contains (keys m) j ≡ false
unfolding keys count
head-fresh j c m h = ground (arith, h j, contains_iff_count j (keys m), beq_refl j)

tail-IsMap : (j c : ℕ) (m : GoMap ℕ ℕ) → IsMap ((j, c) ∷ m) → IsMap m
unfolding keys count
tail-IsMap j c m h k = ground (arith, h k)

pub contains-ids_with_count :
    (id n : ℕ) (m : GoMap ℕ ℕ)
    → IsMap m
    → contains (ids_with_count n m) id ≡ (is_some (lookup id m) && (or_zero (lookup id m) == n))
unfolding ids_with_count contains lookup
contains-ids_with_count id n [] h = ground arith
contains-ids_with_count id n ((j, c) ∷ m) h = ground (
  arith,
  contains-ids_with_count id n m (tail-IsMap j c m h),
  head-fresh j c m h,
  contains-keys id m,
  contains-keys j m,
  nat_eq.beq_iff j id,
  λ (same : j ≡ id). ap (λ (t : ℕ). is_some (lookup t m)) same,
)

pub contains-filter :
    (p : ℕ → Bool) (id : ℕ) (ids : List ℕ) → contains (filter p ids) id ≡ (contains ids id && p id)
unfolding contains
contains-filter p id [] = refl
contains-filter p id (x ∷ ids) =
    ground (arith, contains-filter p id ids, nat_eq.beq_iff x id, λ (same : x ≡ id). ap p same)

pub count-filter : (p : ℕ → Bool) (id : ℕ) (ids : List ℕ) → count id (filter p ids) ≤ count id ids
unfolding count
count-filter p id [] = omega arith
count-filter p id (x ∷ ids) = ground (arith, count-filter p id ids)

pub call_each-append_result : (ids acc : List ℕ) → call_each append_result ids acc ≡ acc ++ ids
unfolding call_each
call_each-append_result [] acc = sym (append-nil acc)
call_each-append_result (x ∷ ids) acc =
    call_each-append_result ids (acc ++ (x ∷ [])) ∙ append_assoc acc (x ∷ []) ids
