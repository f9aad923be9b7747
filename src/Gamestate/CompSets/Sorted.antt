-- ===== src/Gamestate/CompSets/Sorted.antt =====
-- sortComponentSet of component.go on components in the order of their IDs.
use world_engine.Base.{◌<◌, List, [], ◌∷◌, ◌++◌, ◌≡◌, refl, ap, ◌∙◌, nat_eq, arith}
use world_engine.Gamestate.Types.{Env, ComponentMetadata}
use world_engine.Gamestate.CompSets.{insert_sorted, sort_by_id}

module _ {e : Env} where
  -- The IDs ascend.
  abbrev pub Ascends : List (ComponentMetadata e) → Type 0
  Ascends [] = Unit
  Ascends (x ∷ []) = Unit
  Ascends (x ∷ y ∷ xs) = (x.id < y.id) × Ascends (y ∷ xs)

  tail-Ascends :
      (x : ComponentMetadata e) (xs : List (ComponentMetadata e)) → Ascends (x ∷ xs) → Ascends xs
  tail-Ascends x [] h = tt
  tail-Ascends x (y ∷ xs) h = h.1

  insert_sorted_first :
      (x : ComponentMetadata e) (xs : List (ComponentMetadata e))
      → Ascends (x ∷ xs)
      → insert_sorted x xs ≡ x ∷ xs
  unfolding insert_sorted
  insert_sorted_first x [] h = refl
  insert_sorted_first x (y ∷ xs) h = ground arith

  -- A component before all others moves to the front.
  sort_by_id_last :
      (c : ComponentMetadata e) (ys : List (ComponentMetadata e))
      → Ascends (c ∷ ys)
      → sort_by_id (ys ++ c ∷ []) ≡ c ∷ ys
  unfolding sort_by_id insert_sorted
  sort_by_id_last c [] h = refl
  sort_by_id_last c (y ∷ []) h = ground arith
  sort_by_id_last c (y ∷ z ∷ ys) h =
      let less : c.id < z.id = omega (arith, h.0, h.1.0) in
      ap (insert_sorted y) (sort_by_id_last c (z ∷ ys) (less, h.1.1)) ∙ ground (arith, h)

  -- Sorted after the others, a component goes to its place.
  pub sort_by_id_placed :
      (xs ys : List (ComponentMetadata e)) (c : ComponentMetadata e)
      → Ascends (xs ++ c ∷ ys)
      → sort_by_id ((xs ++ ys) ++ c ∷ []) ≡ xs ++ c ∷ ys
  unfolding sort_by_id
  sort_by_id_placed [] ys c h = sort_by_id_last c ys h
  sort_by_id_placed (x ∷ xs) ys c h =
      ap (insert_sorted x) (sort_by_id_placed xs ys c (tail-Ascends x (xs ++ c ∷ ys) h))
      ∙ insert_sorted_first x (xs ++ c ∷ ys) h

  pub sort_by_id_sorted : (xs : List (ComponentMetadata e)) → Ascends xs → sort_by_id xs ≡ xs
  unfolding sort_by_id
  sort_by_id_sorted [] h = refl
  sort_by_id_sorted (x ∷ xs) h =
      ap (insert_sorted x) (sort_by_id_sorted xs (tail-Ascends x xs h)) ∙ insert_sorted_first x xs h

  -- The components before the last.
  pub init-Ascends :
      (xs : List (ComponentMetadata e)) (y : ComponentMetadata e)
      → Ascends (xs ++ y ∷ [])
      → Ascends xs
  init-Ascends [] y h = tt
  init-Ascends (x ∷ []) y h = tt
  init-Ascends (x ∷ z ∷ xs) y h = (h.0, init-Ascends (z ∷ xs) y h.1)
