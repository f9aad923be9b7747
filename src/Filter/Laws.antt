-- ===== src/Filter/Laws.antt =====
-- What the filters of cardinal/filter match.
use world_engine.Base.{
  suc, String, ◌≡◌, refl, sym, ap, ◌∙◌, ◌↔◌, Bool, true, false, not, ◌||◌, List, [], ◌∷◌, length,
  arith, is_some, if◌then◌else◌, ◌==◌, string_eq, nat_eq, contains, Bool-cases, inl, inr,
}
use text.Mathlib.TextEquality.{eq_iff}
use world_engine.Base.GoMap.{GoMap, lookup, insert, lookup-insert}
use world_engine.Base.Distinct.{IsSubset, IsSubset-cons, IsDistinct, same_length_subset}
use world_engine.Filter.{
  Component, ComponentFilter, Filters, all, and, or, negation, having, exact, nil, cons,
  match_component_metadata, fill_matcher, create_component_matcher, matches_each,
  matches_components, matches_and, matches_or,
}

abbrev pub names : List Component → List String
names [] = []
names (c ∷ cs) = c.name ∷ names cs

lookup-fill :
    (n : String) (cs : List Component) (m : GoMap String Component)
    → is_some (lookup n (fill_matcher cs m)) ≡ (is_some (lookup n m) || contains (names cs) n)
unfolding fill_matcher contains
lookup-fill n [] m = ground arith
lookup-fill n (c ∷ cs) m =
    ground (arith, lookup-fill n cs (insert c.name c m), lookup-insert c.name n c m)

pub matcher-contains :
    (cs : List Component) (c : Component)
    → create_component_matcher cs c ≡ contains (names cs) c.name
unfolding create_component_matcher lookup
matcher-contains cs c = lookup-fill c.name cs []

match_component_metadata-contains :
    (cs : List Component) (c : Component)
    → match_component_metadata cs c ≡ contains (names cs) c.name
unfolding match_component_metadata contains
match_component_metadata-contains [] c = refl
match_component_metadata-contains (x ∷ cs) c =
    ground
      (arith, match_component_metadata-contains cs c, eq_iff c.name x.name, eq_iff x.name c.name)

-- MatchComponentMetadata, which scans the slice, and the matcher of CreateComponentMatcher, which
-- looks up a map, give the same answer for every slice and every component.
pub match_component_metadata-matcher :
    (cs : List Component) (c : Component)
    → match_component_metadata cs c ≡ create_component_matcher cs c
match_component_metadata-matcher cs c =
    match_component_metadata-contains cs c ∙ sym (matcher-contains cs c)

matches_each-subset :
    (ds cs : List Component)
    → (matches_each (create_component_matcher ds) cs ≡ true) ↔ IsSubset (names cs) (names ds)
unfolding matches_each contains
matches_each-subset ds [] = (λ _ n h. cc, λ _. refl)
matches_each-subset ds (c ∷ cs) = elim (Bool-cases (create_component_matcher ds c)) [
  | inl e ↦ (
    λ h.
        (IsSubset-cons c.name (names cs) (names ds)).1
          (sym (matcher-contains ds c) ∙ e, (matches_each-subset ds cs).0 (rw e at h)),
    λ h. rw e ((matches_each-subset ds cs).1 ((IsSubset-cons c.name (names cs) (names ds)).0 h).1),
  )
  | inr e ↦ (
    λ h. absurd (cc (rw e at h)),
    λ h.
        absurd
          (cc (e, matcher-contains ds c, ((IsSubset-cons c.name (names cs) (names ds)).0 h).0)),
  )
]

-- Contains(cs) matches an archetype exactly when each name in `cs` is among the archetype's names.
having-subset :
    (cs comps : List Component)
    → (matches_components (having cs) comps ≡ true) ↔ IsSubset (names cs) (names comps)
unfolding matches_components
having-subset cs comps = matches_each-subset comps cs

length-names : (cs : List Component) → length (names cs) ≡ length cs
length-names [] = refl
length-names (c ∷ cs) = ap suc (length-names cs)

-- Exact(cs), with the names of the archetype distinct, matches exactly the archetypes that have
-- as many components as `cs` and whose names are all in `cs`; then each name of `cs` is in the
-- archetype too.
pub exact_same_names :
    (cs comps : List Component)
    → IsDistinct (names comps)
    → (matches_components (exact cs) comps ≡ true) ↔ (
        (length comps ≡ length cs)
        × IsSubset (names comps) (names cs)
        × IsSubset (names cs) (names comps))
unfolding matches_components
exact_same_names cs comps d = elim (Bool-cases (length comps == length cs)) [
  | inl e ↦ (
    λ h.
        let sub = (matches_each-subset cs comps).0 (rw e at h) in
        (same e, sub, same_length_subset (names comps) (names cs) d (same_names e) sub),
    λ h. rw e ((matches_each-subset cs comps).1 h.1),
  )
  | inr e ↦ (λ h. absurd (cc (rw e at h)), λ h. absurd (ground arith))
]
  where
    same : (length comps == length cs) ≡ true → length comps ≡ length cs
    same e = ground arith

    same_names : (length comps == length cs) ≡ true → length (names comps) ≡ length (names cs)
    same_names e = length-names comps ∙ same e ∙ sym (length-names cs)

-- The two slices have the same names and the same length.
abbrev pub SameNames : List Component → List Component → Type 0
SameNames xs ys =
    (length xs ≡ length ys) × ((n : String) → contains (names xs) n ≡ contains (names ys) n)

same_iff : {a b : Bool} → (a ≡ true → b ≡ true) → (b ≡ true → a ≡ true) → a ≡ b
same_iff {a = true} {b = true} f g = refl
same_iff {a = true} {b = false} f g = sym (f refl)
same_iff {a = false} {b = true} f g = g refl
same_iff {a = false} {b = false} f g = refl

having_same :
    (cs xs ys : List Component)
    → SameNames xs ys
    → matches_components (having cs) xs ≡ matches_components (having cs) ys
having_same cs xs ys s =
    same_iff (λ h. (having-subset cs ys).1 (λ n m. sym (s.1 n) ∙ (having-subset cs xs).0 h n m))
      (λ h. (having-subset cs xs).1 (λ n m. s.1 n ∙ (having-subset cs ys).0 h n m))

exact_same :
    (cs xs ys : List Component)
    → SameNames xs ys
    → matches_components (exact cs) xs ≡ matches_components (exact cs) ys
unfolding matches_components
exact_same cs xs ys s = rw s.0 (
    ap (λ (b : Bool). if not (length ys == length cs) then false else b)
      (same_iff
        (λ h. (matches_each-subset cs ys).1 (λ n m. (matches_each-subset cs xs).0 h n (s.1 n ∙ m)))
        (λ h.
          (matches_each-subset cs xs).1
            (λ n m. (matches_each-subset cs ys).0 h n (sym (s.1 n) ∙ m)))))

mutual
  unfolding matches_components matches_and matches_or

  matches_same :
      (f : ComponentFilter) (xs ys : List Component)
      → SameNames xs ys
      → matches_components f xs ≡ matches_components f ys
  matches_same all xs ys s = refl
  matches_same (and fs) xs ys s = and_same fs xs ys s
  matches_same (or fs) xs ys s = or_same fs xs ys s
  matches_same (negation f) xs ys s = ap not (matches_same f xs ys s)
  matches_same (having cs) xs ys s = having_same cs xs ys s
  matches_same (exact cs) xs ys s = exact_same cs xs ys s

  and_same :
      (fs : Filters) (xs ys : List Component)
      → SameNames xs ys
      → matches_and fs xs ≡ matches_and fs ys
  and_same nil xs ys s = refl
  and_same (cons f fs) xs ys s = rw (matches_same f xs ys s, and_same fs xs ys s)

  or_same :
      (fs : Filters) (xs ys : List Component)
      → SameNames xs ys
      → matches_or fs xs ≡ matches_or fs ys
  or_same nil xs ys s = refl
  or_same (cons f fs) xs ys s = rw (matches_same f xs ys s, or_same fs xs ys s)

-- No filter, however nested, tells two component slices apart that have the same length and the
-- same names: the order of an archetype's components does not matter.
pub matches-SameNames :
    (f : ComponentFilter) (xs ys : List Component)
    → SameNames xs ys
    → matches_components f xs ≡ matches_components f ys
matches-SameNames = matches_same
