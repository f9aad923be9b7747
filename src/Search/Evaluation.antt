-- ===== src/Search/Evaluation.antt =====
-- evaluateSearch of the composed searches in cardinal/composedsearch.go.
use world_engine.Base.{ℕ, ◌≡◌, ◌∙◌, Bool, false, refl, ◌&&◌, [], contains, is_some, arith, nat_eq}
use world_engine.Base.GoMap.{lookup}
use world_engine.Search.{Reader, Caches}
use world_engine.Search.Counting.{contains-filter, mark_ids-is_some}
use world_engine.Search.Composed.{
  Searchable, not_search, evaluate_all, evaluate_everything, mark_ids,
}

no_marks : (a : ℕ) → is_some (lookup {V = Bool} a []) ≡ false
unfolding lookup
no_marks a = refl

-- The archetypes of NotSearch are those of the search that it negates, as far as they are among all
-- archetypes, and not the others.
pub not_search-evaluate_all :
    (r : Reader) (s : Searchable) (caches : Caches) (a : ℕ)
    → contains (evaluate_all r (not_search s) caches).0 a
      ≡ (contains (evaluate_all r s caches).0 a && contains (evaluate_everything r) a)
unfolding evaluate_all
not_search-evaluate_all r s caches a =
    contains-filter (λ id. is_some (lookup id (mark_ids (evaluate_everything r) []))) a
      (evaluate_all r s caches).0
    ∙ ground (arith, mark_ids-is_some a (evaluate_everything r) [], no_marks a)
