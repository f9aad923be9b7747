-- ===== src/Cql/Reference.antt =====
-- What a query of cql.go means, on the names of an archetype's components, and when it is valid.
use world_engine.Base.{
  ℕ, String, List, [], ◌∷◌, Bool, true, false, not, ◌&&◌, ◌||◌, Option, none, some, ◌≡◌, nat_eq,
  ◌==◌, if◌then◌else◌, length, contains, string_eq,
}
use world_engine.Base.Exec.{Result, ok, err}
use world_engine.Filter.{Component, ComponentFilter, matches_components}
use world_engine.Filter.Laws.{names}
use world_engine.Cql.{
  CqlError, failed_to_parse, op_and, op_or, CqlValue, cql_value, nil_value, to_value, PointerToTerm,
  nil_term, to_term, CqlTerm, cql_term, CqlOpFactors, no_more, op_factor,
}

-- Every name of the first list is in the second.
abbrev pub all_in : List String → List String → Bool
all_in [] ys = true
all_in (x ∷ xs) ys = contains ys x && all_in xs ys

-- What a form that is no negation says of the names of an archetype's components.
abbrev pub form_means :
    Option (List String) → Bool → Option (List String) → Bool → List String → Bool
form_means (some ns) all_ contains_ sub comps = (length comps == length ns) && all_in comps ns
form_means none true contains_ sub comps = true
form_means none false (some ns) sub comps = all_in ns comps
form_means none false none sub comps = sub

abbrev pub combine : ℕ → Bool → Bool → Bool
combine operator a b = if operator == op_and then a && b else a || b

-- The operators have no precedence: they are taken from the left.
abbrev mutual
  pub value_means : CqlValue → List String → Bool
  value_means (cql_value exact_ all_ contains_ (to_value v) sub) comps = not (value_means v comps)
  value_means (cql_value exact_ all_ contains_ nil_value sub) comps =
      form_means exact_ all_ contains_ (sub_means sub comps) comps

  pub sub_means : PointerToTerm → List String → Bool
  sub_means nil_term comps = false
  sub_means (to_term t) comps = term_means t comps

  pub term_means : CqlTerm → List String → Bool
  term_means (cql_term nil_value right) comps = false
  term_means (cql_term (to_value left) right) comps =
      right_means right (value_means left comps) comps

  pub right_means : CqlOpFactors → Bool → List String → Bool
  right_means no_more acc comps = acc
  right_means (op_factor operator v rest) acc comps =
      right_means rest (combine operator acc (value_means v comps)) comps

abbrev pub is_ok : {E A : Type 0} → Result E A → Bool
is_ok (ok a) = true
is_ok (err e) = false

abbrev pub is_operator : ℕ → Bool
is_operator operator = (operator == op_and) || (operator == op_or)

module _ {E : Type 0} (look : String → Result E Component) where
  abbrev pub all_known : List String → Bool
  all_known [] = true
  all_known (n ∷ ns) = is_ok (look n) && all_known ns

  -- One parameter or more, each the name of a component.
  abbrev pub given : List String → Bool
  given [] = false
  given (n ∷ ns) = all_known (n ∷ ns)

  abbrev pub form_is_valid : Option (List String) → Bool → Option (List String) → Bool → Bool
  form_is_valid (some ns) all_ contains_ sub = given ns
  form_is_valid none true contains_ sub = true
  form_is_valid none false (some ns) sub = given ns
  form_is_valid none false none sub = sub

-- EXACT and CONTAINS have parameters, which are names of components, nothing is nil that counts, and
-- the operators are `&` and `|`.
abbrev mutual
  pub value_is_valid : {E : Type 0} → (String → Result E Component) → CqlValue → Bool
  value_is_valid look (cql_value exact_ all_ contains_ (to_value v) sub) = value_is_valid look v
  value_is_valid look (cql_value exact_ all_ contains_ nil_value sub) =
      form_is_valid look exact_ all_ contains_ (sub_is_valid look sub)

  pub sub_is_valid : {E : Type 0} → (String → Result E Component) → PointerToTerm → Bool
  sub_is_valid look nil_term = false
  sub_is_valid look (to_term t) = term_is_valid look t

  pub term_is_valid : {E : Type 0} → (String → Result E Component) → CqlTerm → Bool
  term_is_valid look (cql_term nil_value right) = false
  term_is_valid look (cql_term (to_value left) right) =
      value_is_valid look left && right_is_valid look right

  pub right_is_valid : {E : Type 0} → (String → Result E Component) → CqlOpFactors → Bool
  right_is_valid look no_more = true
  right_is_valid look (op_factor operator v rest) =
      value_is_valid look v && (is_operator operator && right_is_valid look rest)

-- A filter is made exactly where the query is valid, and it matches what the query means.
abbrev pub Agrees :
    {E : Type 0} → List Component → Result (CqlError E) ComponentFilter → Bool → Bool → Type 0
Agrees comps (ok f) valid means = (valid ≡ true) × (matches_components f comps ≡ means)
Agrees comps (err e) valid means = valid ≡ false

-- The same for a text, by what the parser makes of it: a text that it refuses is refused with the
-- parser's error.
abbrev pub ParseAgrees :
    {E : Type 0}
    → (String → Result E Component)
    → List Component
    → Result E CqlTerm
    → Result (CqlError E) ComponentFilter
    → Type 0
ParseAgrees look comps (ok t) r = Agrees comps r (term_is_valid look t) (term_means t (names comps))
ParseAgrees look comps (err e) r = r ≡ err (failed_to_parse e)
