-- ===== src/Gamestate/Active/Laws.antt =====
-- What swapRemove of active.go does to the entities of an archetype.
use world_engine.Base.{
  ℕ, zero, suc, ◌+◌, ◌-◌, ◌<◌, List, [], ◌∷◌, Bool, true, false, none, some, ◌≡◌, ◌≢◌, ◌==◌, nat_eq,
  length, get_elem?, set, take, arith, if◌then◌else◌, ltb, refl, ap, ◌∙◌, count, contains,
  length-set, get_elem?-set_ne, get_elem?-IsSome, Bool-cases, inl, inr, ◌⊎◌,
}
use world_engine.Base.Exec.{Result, ok, err}
use world_engine.Gamestate.Types.{Error, cannot_find_entity}
use world_engine.Gamestate.Active.{ActiveEntities, index_of, remove_at, swap_remove}

abbrev one_if : Bool → ℕ
one_if b = if b then 1 else 0

count-set :
    (xs : List ℕ) (i x v j : ℕ)
    → get_elem? xs i ≡ some x
    → count j (set xs i v) + one_if (x == j) ≡ count j xs + one_if (v == j)
unfolding count
count-set [] i x v j h = cc
count-set (y ∷ xs) zero x v j h = ground arith
count-set (y ∷ xs) (suc i) x v j h = omega (arith, count-set xs i x v j h)

count-take_last :
    (xs : List ℕ) (n x j : ℕ)
    → length xs ≡ suc n
    → get_elem? xs n ≡ some x
    → count j (take n xs) + one_if (x == j) ≡ count j xs
unfolding count
count-take_last [] n x j l h = cc
count-take_last (y ∷ []) zero x j l h = ground arith
count-take_last (y ∷ z ∷ xs) zero x j l h = absurd (omega arith)
count-take_last (y ∷ xs) (suc n) x j l h = omega (arith, count-take_last xs n x j (omega arith) h)

module _ (ids : List ℕ) (i n id last j : ℕ) (size : length ids ≡ suc n) where
  removed_last :
      get_elem? ids n ≡ some last
      → get_elem? ids i ≡ some id
      → i ≡ n
      → count j (take n ids) + one_if (id == j) ≡ count j ids
  removed_last at_end at_i here =
      let same : last ≡ id = cc (at_end, at_i, here) in
      omega (arith, count-take_last ids n last j size at_end, ap (λ (t : ℕ). one_if (t == j)) same)

  removed_inside :
      get_elem? ids n ≡ some last
      → get_elem? ids i ≡ some id
      → i ≢ n
      → count j (take n (set ids i last)) + one_if (id == j) ≡ count j ids
  removed_inside at_end at_i elsewhere = omega (
    arith,
    count-take_last (set ids i last) n last j (length-set ids i last ∙ size)
        (get_elem?-set_ne ids i n last elsewhere ∙ at_end),
    count-set ids i id last j at_i,
  )

-- Without the entity at place `i`, each other one is there as often as before.
count-remove_at :
    (ids : List ℕ) (i id j : ℕ)
    → get_elem? ids i ≡ some id
    → i < length ids
    → count j (remove_at ids i) + one_if (id == j) ≡ count j ids
unfolding remove_at
count-remove_at ids i id j h lt =
    let n = length ids - 1 in
    let size : length ids ≡ suc n = omega arith in
    let (last, at_end) = get_elem?-IsSome ids n (omega arith) in
    elim (Bool-cases (ltb i n)) [
      | inl inside ↦
          rw (inside, at_end) (removed_inside ids i n id last j size at_end h (ground arith))
      | inr end ↦ rw end (removed_last ids i n id last j size at_end h (ground arith))
    ]

-- The place that the search finds holds the entity, and it finds one exactly if there is one.
pub record Finds (id : ℕ) (ids : List ℕ) (i : ℕ) : Type 0 where
  pub holds : get_elem? ids i ≡ some id
  pub within : i < length ids

index_of-Finds :
    (id : ℕ) (ids : List ℕ) (k : ℕ)
    → ((index_of id ids k ≡ none) × (contains ids id ≡ false))
      ⊎ ((i : ℕ) × (index_of id ids k ≡ some (k + i)) × Finds id ids i × (contains ids id ≡ true))
unfolding index_of contains
index_of-Finds id [] k = inl (refl, refl)
index_of-Finds id (x ∷ xs) k = elim (Bool-cases (id == x)) [
  | inl same ↦ inr (0, ground arith, ground arith, ground arith)
  | inr other ↦ elim (index_of-Finds id xs (k + 1)) [
    | inl (no_index, missing) ↦ inl (ground arith, ground arith)
    | inr (i, found, at, there) ↦ inr (suc i, ground arith, ground arith, ground arith)
  ]
]

-- `swap_remove a id` fails exactly if `id` is not among the entities; else it takes one occurrence
-- of `id` away, keeps every other entity as often as it was there, and keeps `modified`.
abbrev pub SwapRemoved : ActiveEntities → ℕ → Result Error ActiveEntities → Type 0
SwapRemoved a id (err error) = (error ≡ cannot_find_entity) × (contains a.ids id ≡ false)
SwapRemoved a id (ok b) =
    (contains a.ids id ≡ true)
    × ((j : ℕ) → count j b.ids + (if id == j then 1 else 0) ≡ count j a.ids)
    × (b.modified ≡ a.modified)

-- For every group of entities and every ID, swapRemove fails with "cannot find entity" exactly if
-- the ID is not in the group; else it removes one occurrence of that ID, every other ID occurs as
-- often as before, and the modified flag is as it was.
pub swap_remove-SwapRemoved : (a : ActiveEntities) (id : ℕ) → SwapRemoved a id (swap_remove a id)
unfolding swap_remove
swap_remove-SwapRemoved a id = elim (index_of-Finds id a.ids 0) [
  | inl (none_found, missing) ↦ rw none_found (refl, missing)
  | inr (i, found, at, there) ↦
      let e : index_of id a.ids 0 ≡ some i = ground arith in
      rw e (there, λ j. count-remove_at a.ids i id j at.holds at.within, refl)
]
