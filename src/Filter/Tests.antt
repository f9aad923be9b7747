-- ===== src/Filter/Tests.antt =====
-- Tests of cardinal/filter.
use world_engine.Base.{
  ◌≡◌, refl, ◌↔◌, true, [], ◌∷◌, length, contains, count, arith, string_eq, nat_eq,
}
use world_engine.Base.Distinct.{IsSubset, IsDistinct, IsDistinct-cons}
use world_engine.Filter.{
  Component, exact, having, negation, or, nil, cons, matches_components, match_component_metadata,
  create_component_matcher,
}
use world_engine.Filter.Laws.{
  names, SameNames, match_component_metadata-matcher, exact_same_names, matches-SameNames,
}

abbrev health : Component
health = record { name = "Health" }

abbrev energy : Component
energy = record { name = "Energy" }

match_component_metadata-matcher_example :
    match_component_metadata (health ∷ energy ∷ []) energy
    ≡ create_component_matcher (health ∷ energy ∷ []) energy
match_component_metadata-matcher_example =
    match_component_metadata-matcher (health ∷ energy ∷ []) energy

both-IsDistinct : IsDistinct (names (health ∷ energy ∷ []))
unfolding count contains
both-IsDistinct =
    IsDistinct-cons "Health" ("Energy" ∷ []) refl
      (IsDistinct-cons "Energy" [] refl (λ n. omega arith))

exact_same_names_example :
    (matches_components (exact (energy ∷ health ∷ [])) (health ∷ energy ∷ []) ≡ true) ↔ (
      (length (health ∷ energy ∷ []) ≡ length (energy ∷ health ∷ []))
      × IsSubset (names (health ∷ energy ∷ [])) (names (energy ∷ health ∷ []))
      × IsSubset (names (energy ∷ health ∷ [])) (names (health ∷ energy ∷ [])))
exact_same_names_example =
    exact_same_names (energy ∷ health ∷ []) (health ∷ energy ∷ []) both-IsDistinct

swapped-SameNames : SameNames (health ∷ energy ∷ []) (energy ∷ health ∷ [])
unfolding contains
swapped-SameNames = (refl, λ n. ground arith)

matches-SameNames_example :
    matches_components
      (negation (or (cons (exact (health ∷ [])) (cons (having (energy ∷ [])) nil))))
      (health ∷ energy ∷ [])
    ≡ matches_components
        (negation (or (cons (exact (health ∷ [])) (cons (having (energy ∷ [])) nil))))
        (energy ∷ health ∷ [])
matches-SameNames_example =
    matches-SameNames (negation (or (cons (exact (health ∷ [])) (cons (having (energy ∷ [])) nil))))
      (health ∷ energy ∷ []) (energy ∷ health ∷ []) swapped-SameNames
