-- ===== src/Cql/Meaning.antt =====
-- The filter of a query of cql.go means what the query means.
use world_engine.Base.{
  ℕ, suc, String, List, [], ◌∷◌, Bool, true, false, not, ◌&&◌, Option, none, some, ◌≡◌, refl, sym,
  ap, ◌∙◌, nat_eq, ◌==◌, arith, length, string_eq, ◌⊎◌, inl, inr,
}
use world_engine.Base.Exec.{Result, ok, err, Result-cases}
use world_engine.Filter.{
  Component, ComponentFilter, negation, having, exact, matches_each, matches_components,
  create_component_matcher,
}
use world_engine.Filter.Laws.{names, matcher-contains}
use world_engine.Cql.{
  CqlError, CqlValue, cql_value, nil_value, to_value, PointerToTerm, nil_term, to_term, CqlTerm,
  cql_term, CqlOpFactors, no_more, op_factor, and_then, combine_filters, components_of,
  unknown_component, with_parameters, positive, value_to_component_filter, sub_to_component_filter,
  term_to_component_filter, op_factors_to_component_filter, parsed, parse,
  exact_cannot_have_zero_parameters, contains_cannot_have_zero_parameters,
}
use world_engine.Cql.Reference.{
  Agrees, ParseAgrees, all_in, all_known, combine, form_is_valid, form_means, given, is_operator,
  right_is_valid, right_means, sub_is_valid, sub_means, term_is_valid, term_means, value_is_valid,
  value_means,
}

matches_each-all_in :
    (ds cs : List Component)
    → matches_each (create_component_matcher ds) cs ≡ all_in (names cs) (names ds)
unfolding matches_each
matches_each-all_in ds [] = refl
matches_each-all_in ds (c ∷ cs) = ground (arith, matcher-contains ds c, matches_each-all_in ds cs)

length-names : (cs : List Component) → length (names cs) ≡ length cs
length-names [] = refl
length-names (c ∷ cs) = ap suc (length-names cs)

module _ {E : Type 0} (look : String → Result E Component) (comps : List Component) where
  negation-Agrees :
      (r : Result (CqlError E) ComponentFilter) (valid means : Bool)
      → Agrees comps r valid means
      → Agrees comps (and_then r (λ f. ok (negation f))) valid (not means)
  unfolding matches_components
  negation-Agrees (ok f) valid means h = (h.0, ap not h.1)
  negation-Agrees (err e) valid means h = h

  then-Agrees :
      (r : Result (CqlError E) ComponentFilter) (valid means valid' means' : Bool)
      (next : ComponentFilter → Result (CqlError E) ComponentFilter)
      → Agrees comps r valid means
      → ((f : ComponentFilter)
          → matches_components f comps ≡ means
          → Agrees comps (next f) valid' means')
      → Agrees comps (and_then r next) (valid && valid') means'
  then-Agrees (ok f) valid means valid' means' next h k = rw h.0 (k f h.1)
  then-Agrees (err e) valid means valid' means' next h k = rw h refl

  module _ (named : (n : String) (c : Component) → look n ≡ ok c → c.name ≡ n) where
    -- What the loop over the names finds.
    found_all :
        (ns : List String)
        → ((cs : List Component) × (components_of look ns ≡ ok cs)
            × (names cs ≡ ns)
            × (all_known look ns ≡ true))
          ⊎ ((e : CqlError E) × (components_of look ns ≡ err e) × (all_known look ns ≡ false))
    unfolding components_of
    found_all [] = inl ([], refl, refl, refl)
    found_all (n ∷ ns) = elim (Result-cases (look n)) [
      | inr (e, h) ↦ inr (unknown_component e, rw h refl, rw h refl)
      | inl (c, h) ↦ elim (found_all ns) [
        | inl (cs, a, b, g) ↦
            inl (c ∷ cs, rw (h, a) refl, (λ i. named n c h i ∷ b i), rw (h, g) refl)
        | inr (e, a, g) ↦ inr (e, rw (h, a) refl, rw (h, g) refl)
      ]
    ]

    exact-Agrees :
        (e : CqlError E) (ns : List String)
        → Agrees comps
            (with_parameters look e exact ns)
            (given look ns)
            ((length comps == length ns) && all_in (names comps) ns)
    unfolding matches_components
    exact-Agrees e [] = refl
    exact-Agrees e (n ∷ ns) = elim (found_all (n ∷ ns)) [
      | inr (x, a, g) ↦ rw a g
      | inl (cs, a, b, g) ↦
          let size : length cs ≡ length (n ∷ ns) = sym (length-names cs) ∙ ap length b in
          let all_there = matches_each-all_in cs comps ∙ ap (all_in (names comps)) b in
          rw a (g, rw (size, all_there) (ground arith))
    ]

    having-Agrees :
        (e : CqlError E) (ns : List String)
        → Agrees comps (with_parameters look e having ns) (given look ns) (all_in ns (names comps))
    unfolding matches_components
    having-Agrees e [] = refl
    having-Agrees e (n ∷ ns) = elim (found_all (n ∷ ns)) [
      | inr (x, a, g) ↦ rw a g
      | inl (cs, a, b, g) ↦
          rw a (g, matches_each-all_in comps cs ∙ ap (λ xs. all_in xs (names comps)) b)
    ]

    positive-Agrees :
        (exact_ : Option (List String)) (all_ : Bool) (contains_ : Option (List String))
        (sub : Result (CqlError E) ComponentFilter) (valid means : Bool)
        → Agrees comps sub valid means
        → Agrees comps
            (positive look exact_ all_ contains_ sub)
            (form_is_valid look exact_ all_ contains_ valid)
            (form_means exact_ all_ contains_ means (names comps))
    unfolding matches_components
    positive-Agrees (some ns) all_ contains_ sub valid means h =
        rw (length-names comps) (exact-Agrees exact_cannot_have_zero_parameters ns)
    positive-Agrees none true contains_ sub valid means h = (refl, refl)
    positive-Agrees none false (some ns) sub valid means h =
        having-Agrees contains_cannot_have_zero_parameters ns
    positive-Agrees none false none sub valid means h = h

    combine-Agrees :
        (operator : ℕ) (f g : ComponentFilter) (a b : Bool)
        → matches_components f comps ≡ a
        → matches_components g comps ≡ b
        → Agrees comps
            (combine_filters {E = E} operator f g)
            (is_operator operator)
            (combine operator a b)
    unfolding matches_components
    combine-Agrees operator f g a b h k = ground (arith, h, k)

    mutual
      unfolding value_to_component_filter

      value-Agrees :
          (v : CqlValue)
          → Agrees comps
              (value_to_component_filter look v)
              (value_is_valid look v)
              (value_means v (names comps))
      value-Agrees (cql_value exact_ all_ contains_ (to_value v) sub) =
          negation-Agrees _ _ _ (value-Agrees v)
      value-Agrees (cql_value exact_ all_ contains_ nil_value sub) =
          positive-Agrees exact_ all_ contains_ _ _ _ (sub-Agrees sub)

      sub-Agrees :
          (p : PointerToTerm)
          → Agrees comps
              (sub_to_component_filter look p)
              (sub_is_valid look p)
              (sub_means p (names comps))
      sub-Agrees nil_term = refl
      sub-Agrees (to_term t) = term-Agrees t

      term-Agrees :
          (t : CqlTerm)
          → Agrees comps
              (term_to_component_filter look t)
              (term_is_valid look t)
              (term_means t (names comps))
      term-Agrees (cql_term nil_value right) = refl
      term-Agrees (cql_term (to_value left) right) =
          then-Agrees _ _ _ _ _ _ (value-Agrees left)
            λ f h. right-Agrees right f (value_means left (names comps)) h

      right-Agrees :
          (right : CqlOpFactors) (f : ComponentFilter) (a : Bool)
          → matches_components f comps ≡ a
          → Agrees comps
              (op_factors_to_component_filter look right f)
              (right_is_valid look right)
              (right_means right a (names comps))
      right-Agrees no_more f a h = (refl, h)
      right-Agrees (op_factor operator v rest) f a h =
          then-Agrees (value_to_component_filter look v) _ _ _ _ _ (value-Agrees v) λ g k.
            then-Agrees (combine_filters operator f g) _ _ _ _ _
              (combine-Agrees operator f g a (value_means v (names comps)) h k)
              λ both e. right-Agrees rest both (combine operator a (value_means v (names comps))) e

    -- Where components are found under their own names, Parse refuses a text that the parser refuses,
    -- with the parser's error, and makes a filter of a text that the parser takes exactly where the
    -- query is valid: the operators are `&` and `|`, EXACT and CONTAINS have parameters, all of which
    -- name components, and no pointer that counts is nil. The filter matches an archetype exactly where
    -- the query holds of the names of its components, the operators being taken from the left, without
    -- precedence: EXACT where there are as many as parameters and all are parameters, CONTAINS where
    -- all parameters are among them, ALL always, `!` where the rest does not.
    pub parse-ParseAgrees :
        (parse_string : String → Result E CqlTerm) (text : String)
        → ParseAgrees look comps (parse_string text) (parse parse_string look text)
    unfolding parse
    parse-ParseAgrees parse_string text = by_answer (parse_string text)
      where
        by_answer : (r : Result E CqlTerm) → ParseAgrees look comps r (parsed look r)
        by_answer (ok t) = term-Agrees t
        by_answer (err e) = refl
