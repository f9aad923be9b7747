-- ===== src/Cql/Tests.antt =====
-- Tests of the conversion of queries.
use world_engine.Base.{
  String, List, [], ◌∷◌, false, none, some, ◌≡◌, refl, contains, arith, string_eq, ◌==◌,
  if◌then◌else◌,
}
use world_engine.Base.Exec.{Result, ok, err}
use world_engine.Filter.{Component}
use world_engine.Cql.{
  CqlValue, cql_value, nil_value, to_value, nil_term, CqlTerm, cql_term, no_more, op_factor, op_and,
  op_or, parse, failed_to_parse, exact_cannot_have_zero_parameters,
}
use world_engine.Cql.Reference.{ParseAgrees, term_means}
use world_engine.Cql.Meaning.{parse-ParseAgrees}

-- Every name but "Ghost" is that of a component.
abbrev look : String → Result String Component
look n = if n == "Ghost" then err "not found" else ok (record { name = n })

abbrev health : Component
health = record { name = "Health" }

abbrev position : Component
position = record { name = "Position" }

abbrev exactly : List String → CqlValue
exactly ns = cql_value (some ns) false none nil_value nil_term

abbrev contains_ : List String → CqlValue
contains_ ns = cql_value none false (some ns) nil_value nil_term

abbrev not_ : CqlValue → CqlValue
not_ v = cql_value none false none (to_value v) nil_term

-- EXACT(Health) | CONTAINS(Position) & !EXACT(Health)
abbrev query : CqlTerm
query = cql_term (to_value (exactly ("Health" ∷ []))) (
    op_factor op_or (contains_ ("Position" ∷ []))
      (op_factor op_and (not_ (exactly ("Health" ∷ []))) no_more))

abbrev parser : String → Result String CqlTerm
parser text = if text == "" then err "unexpected end" else ok query

look_named : (n : String) (c : Component) → look n ≡ ok c → c.name ≡ n
look_named n c h = ground (arith, h)

parse-ParseAgrees_example :
    ParseAgrees look (health ∷ []) (parser "query") (parse parser look "query")
parse-ParseAgrees_example = parse-ParseAgrees look (health ∷ []) look_named parser "query"

-- `|` binds no weaker than `&`: the conjunction is of the whole before it.
from_the_left : term_means query ("Health" ∷ []) ≡ false
unfolding contains
from_the_left = refl

no_parameters :
    parse (λ (text : String). ok (cql_term (to_value (exactly [])) no_more)) look "EXACT()"
    ≡ err exact_cannot_have_zero_parameters
unfolding parse
no_parameters = refl

nothing_to_parse : parse parser look "" ≡ err (failed_to_parse "unexpected end")
unfolding parse
nothing_to_parse = refl
