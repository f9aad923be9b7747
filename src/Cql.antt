-- ===== src/Cql.antt =====
-- cardinal/server/handler/cql/cql.go: the conversion of a query, as the parser library leaves it, to
-- a filter. The parser is a parameter; the texts of the syntax trees and the captures of the parser
-- are left out.
pub mod Reference
pub mod Meaning
pub mod Tests
use world_engine.Base.{
  ℕ, String, List, [], ◌∷◌, Bool, true, false, Option, none, some, nat_eq, ◌==◌, if◌then◌else◌,
}
use world_engine.Base.Exec.{Result, ok, err}
use world_engine.Filter.{
  Component, ComponentFilter, all, and, or, negation, having, exact, nil, cons,
}

pub data CqlError (E : Type 0) : Type 0 where
  exact_cannot_have_zero_parameters contains_cannot_have_zero_parameters : CqlError E
  unknown_error_during_conversion not_enough_values_in_expression invalid_operator : CqlError E
  unknown_component failed_to_parse : E → CqlError E

abbrev pub op_and : ℕ
op_and = 0

abbrev pub op_or : ℕ
op_or = 1

-- A value has a field for each of its forms, the pointers of which may be nil: EXACT, ALL, CONTAINS,
-- the negation and the subexpression. A factor is its value.
mutual
  pub data CqlValue : Type 0 where
    cql_value :
        (exact_ : Option (List String)) (all_ : Bool) (contains_ : Option (List String))
        → PointerToValue
        → PointerToTerm
        → CqlValue

  pub data PointerToValue : Type 0 where
    nil_value : PointerToValue
    to_value : CqlValue → PointerToValue

  pub data PointerToTerm : Type 0 where
    nil_term : PointerToTerm
    to_term : CqlTerm → PointerToTerm

  pub data CqlTerm : Type 0 where
    cql_term : PointerToValue → CqlOpFactors → CqlTerm

  pub data CqlOpFactors : Type 0 where
    no_more : CqlOpFactors
    op_factor : ℕ → CqlValue → CqlOpFactors → CqlOpFactors

module _ {E A B : Type 0} where
  -- `if err != nil { return nil, err }`
  abbrev pub and_then : Result E A → (A → Result E B) → Result E B
  and_then (ok a) f = f a
  and_then (err e) f = err e

module _ {E : Type 0} where
  abbrev pub combine_filters :
      ℕ → ComponentFilter → ComponentFilter → Result (CqlError E) ComponentFilter
  combine_filters operator acc f =
      if operator == op_and
      then ok (and (cons acc (cons f nil)))
      else if operator == op_or
      then ok (or (cons acc (cons f nil)))
      else err invalid_operator

  module _ (string_to_component : String → Result E Component) where
    abbrev found : Result E Component → Result (CqlError E) Component
    found (ok c) = ok c
    found (err e) = err (unknown_component e)

    -- The loop over the names of EXACT and of CONTAINS.
    unfoldable pub components_of : List String → Result (CqlError E) (List Component)
    components_of [] = ok []
    components_of (name ∷ rest) =
        and_then (found (string_to_component name))
          λ c. and_then (components_of rest) λ cs. ok (c ∷ cs)

    -- A list of names as the parameters of EXACT or of CONTAINS.
    abbrev pub with_parameters :
        CqlError E
        → (List Component → ComponentFilter)
        → List String
        → Result (CqlError E) ComponentFilter
    with_parameters none_given form [] = err none_given
    with_parameters none_given form (name ∷ rest) =
        and_then (components_of (name ∷ rest)) λ cs. ok (form cs)

    -- What is not a negation, `sub` being the subexpression.
    abbrev pub positive :
        Option (List String)
        → Bool
        → Option (List String)
        → Result (CqlError E) ComponentFilter
        → Result (CqlError E) ComponentFilter
    positive (some names) all_ contains_ sub =
        with_parameters exact_cannot_have_zero_parameters exact names
    positive none true contains_ sub = ok all
    positive none false (some names) sub =
        with_parameters contains_cannot_have_zero_parameters having names
    positive none false none sub = sub

unfoldable mutual
  pub value_to_component_filter :
      {E : Type 0} → (String → Result E Component) → CqlValue → Result (CqlError E) ComponentFilter
  value_to_component_filter look (cql_value exact_ all_ contains_ (to_value v) sub) =
      and_then (value_to_component_filter look v) λ f. ok (negation f)
  value_to_component_filter look (cql_value exact_ all_ contains_ nil_value sub) =
      positive look exact_ all_ contains_ (sub_to_component_filter look sub)

  pub sub_to_component_filter :
      {E : Type 0}
      → (String → Result E Component)
      → PointerToTerm
      → Result (CqlError E) ComponentFilter
  sub_to_component_filter look nil_term = err unknown_error_during_conversion
  sub_to_component_filter look (to_term t) = term_to_component_filter look t

  pub term_to_component_filter :
      {E : Type 0} → (String → Result E Component) → CqlTerm → Result (CqlError E) ComponentFilter
  term_to_component_filter look (cql_term nil_value right) = err not_enough_values_in_expression
  term_to_component_filter look (cql_term (to_value left) right) =
      and_then (value_to_component_filter look left) (op_factors_to_component_filter look right)

  -- The loop over `term.Right`.
  pub op_factors_to_component_filter :
      {E : Type 0}
      → (String → Result E Component)
      → CqlOpFactors
      → ComponentFilter
      → Result (CqlError E) ComponentFilter
  op_factors_to_component_filter look no_more acc = ok acc
  op_factors_to_component_filter look (op_factor operator v rest) acc =
      and_then (value_to_component_filter look v)
        λ f. and_then (combine_filters operator acc f) (op_factors_to_component_filter look rest)

abbrev pub parsed :
    {E : Type 0}
    → (String → Result E Component)
    → Result E CqlTerm
    → Result (CqlError E) ComponentFilter
parsed look (ok term) = term_to_component_filter look term
parsed look (err e) = err (failed_to_parse e)

-- `parse_string` stands for the parser that participle builds.
unfoldable pub parse :
    {E : Type 0}
    → (String → Result E CqlTerm)
    → (String → Result E Component)
    → String
    → Result (CqlError E) ComponentFilter
unfolding term_to_component_filter
parse parse_string look cql_text = parsed look (parse_string cql_text)
