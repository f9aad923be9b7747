-- ===== src/Search/Sorting.antt =====
-- fastSortIDs of cardinal/search.go, which is slices.Sort on entity IDs.
use world_engine.Base.{
  ℕ, ◌+◌, ◌≤◌, ◌≡◌, List, [], ◌∷◌, contains, count, contains_iff_count, if◌then◌else◌, leb, nat_eq,
  arith, ◌==◌,
}

abbrev pub insert_id : ℕ → List ℕ → List ℕ
insert_id id [] = id ∷ []
insert_id id (x ∷ xs) = let rest = insert_id id xs in if leb id x then id ∷ x ∷ xs else x ∷ rest

unfoldable pub sort_ids : List ℕ → List ℕ
sort_ids [] = []
sort_ids (x ∷ xs) = insert_id x (sort_ids xs)

count-insert_id :
    (id x : ℕ) (xs : List ℕ) → count id (insert_id x xs) ≡ (if x == id then 1 else 0) + count id xs
unfolding count
count-insert_id id x [] = ground arith
count-insert_id id x (y ∷ ys) = ground (arith, count-insert_id id x ys)

pub count-sort_ids : (id : ℕ) (xs : List ℕ) → count id (sort_ids xs) ≡ count id xs
unfolding count sort_ids
count-sort_ids id [] = omega arith
count-sort_ids id (x ∷ xs) =
    ground (arith, count-sort_ids id xs, count-insert_id id x (sort_ids xs))

pub contains-sort_ids : (id : ℕ) (xs : List ℕ) → contains (sort_ids xs) id ≡ contains xs id
contains-sort_ids id xs =
    ground
      (arith, contains_iff_count id xs, contains_iff_count id (sort_ids xs), count-sort_ids id xs)

-- Each ID is at most the next.
abbrev pub Ascends : List ℕ → Type 0
Ascends [] = Unit
Ascends (x ∷ []) = Unit
Ascends (x ∷ y ∷ xs) = (x ≤ y) × Ascends (y ∷ xs)

insert_id-Ascends : (id : ℕ) (xs : List ℕ) → Ascends xs → Ascends (insert_id id xs)
insert_id-Ascends id [] h = tt
insert_id-Ascends id (x ∷ []) h = ground arith
insert_id-Ascends id (x ∷ y ∷ xs) h = ground (arith, insert_id-Ascends id (y ∷ xs) h.1)

pub sort_ids-Ascends : (xs : List ℕ) → Ascends (sort_ids xs)
unfolding sort_ids
sort_ids-Ascends [] = tt
sort_ids-Ascends (x ∷ xs) = insert_id-Ascends x (sort_ids xs) (sort_ids-Ascends xs)
