-- ===== src/Search/Sets.antt =====
-- What the searches of cardinal/composedsearch.go mean as sets of entities.
use world_engine.Base.{
  ℕ, suc, ◌+◌, ◌≤◌, ◌≡◌, refl, sym, ap, ◌∙◌, Bool, true, false, ◌&&◌, ◌||◌, not, List, [], ◌∷◌,
  contains, count, if◌then◌else◌, nat_eq, ◌==◌, arith, count-append, filter, subst,
}
use world_engine.Base.Exec.{Result, ok}
use world_engine.Base.Distinct.{IsDistinct}
use world_engine.Filter.{Component, ComponentFilter, all, matches_components}
use world_engine.Search.{Reader, Caches, Search, SearchError, filter_value, evaluate, collect}
use world_engine.Search.Sorting.{sort_ids, count-sort_ids, contains-sort_ids}
use world_engine.Search.Caching.{
  matching, IsReaderOf, IsCached, evaluate_matches, evaluate-IsCached,
}
use world_engine.Search.Counting.{contains-filter, count-filter}
use world_engine.Search.Single.{gather, found, search_answers, all-AllRead}
use world_engine.Search.Composed.{
  Searchable, Searchables, single, or_search, and_search, not_search, nil, cons, size,
}

-- Whether an entity belongs to a search, where `members f` are the entities of the archetypes that
-- match f: union, intersection (of no searches: nothing) and complement among all entities.
abbrev mutual
  pub finds : (ComponentFilter → List ℕ) → Searchable → ℕ → Bool
  finds members (single s) id =
      contains (members s.component_filter) id && filter_value s.component_property_filter id
  finds members (or_search ss) id = finds_any members ss id
  finds members (and_search ss) id = not (size ss == 0) && finds_all members ss id
  finds members (not_search s) id = contains (members all) id && not (finds members s id)

  pub finds_any : (ComponentFilter → List ℕ) → Searchables → ℕ → Bool
  finds_any members nil id = false
  finds_any members (cons s ss) id = finds members s id || finds_any members ss id

  pub finds_all : (ComponentFilter → List ℕ) → Searchables → ℕ → Bool
  finds_all members nil id = true
  finds_all members (cons s ss) id = finds members s id && finds_all members ss id

-- Under each cache pointer the searches have its one filter.
abbrev mutual
  pub IsOwned : (ℕ → ComponentFilter) → Searchable → Type 0
  IsOwned owner (single s) = owner s.arch_matches ≡ s.component_filter
  IsOwned owner (or_search ss) = AreOwned owner ss
  IsOwned owner (and_search ss) = AreOwned owner ss
  IsOwned owner (not_search s) = IsOwned owner s

  pub AreOwned : (ℕ → ComponentFilter) → Searchables → Type 0
  AreOwned owner nil = Unit {0}
  AreOwned owner (cons s ss) = IsOwned owner s × AreOwned owner ss

-- How many of the searches have the entity.
abbrev pub hits : (ComponentFilter → List ℕ) → Searchables → ℕ → ℕ
hits members nil id = 0
hits members (cons s ss) id = (if finds members s id then 1 else 0) + hits members ss id

hits_bounded :
    (members : ComponentFilter → List ℕ) (ss : Searchables) (id : ℕ) → hits members ss id ≤ size ss
hits_bounded members nil id = omega arith
hits_bounded members (cons s ss) id = ground (arith, hits_bounded members ss id)

pub hits-finds_all :
    (members : ComponentFilter → List ℕ) (ss : Searchables) (id : ℕ)
    → (hits members ss id == size ss) ≡ finds_all members ss id
hits-finds_all members nil id = refl
hits-finds_all members (cons s ss) id =
    ground (arith, hits-finds_all members ss id, hits_bounded members ss id)

pub hits-finds_any :
    (members : ComponentFilter → List ℕ) (ss : Searchables) (id : ℕ)
    → not (hits members ss id == 0) ≡ finds_any members ss id
hits-finds_any members nil id = refl
hits-finds_any members (cons s ss) id = ground (arith, hits-finds_any members ss id)

-- The entities of the archetypes that match, in a game state.
abbrev pub members_of : List (List Component) → (ℕ → List ℕ) → ComponentFilter → List ℕ
members_of archs entities f = gather entities (matching f 0 archs)

-- A search returned distinct entities, those of p, and the caches are right after it.
pub record Answer (owner : ℕ → ComponentFilter) (archs : List (List Component)) (p : ℕ → Bool)
    (answer : Result SearchError (List ℕ) × Caches) : Type 0 where
  pub ids : List ℕ
  pub returned : answer.0 ≡ ok ids
  pub distinct : IsDistinct ids
  pub exact : (id : ℕ) → contains ids id ≡ p id
  pub valid : IsCached owner archs answer.1

-- A filter has no more entities than all archetypes.
count-gather :
    (entities : ℕ → List ℕ) (f : ComponentFilter) (i : ℕ) (archs : List (List Component)) (id : ℕ)
    → count id (gather entities (matching f i archs))
      ≤ count id (gather entities (matching all i archs))
unfolding matching gather count matches_components
count-gather entities f i [] id = omega arith
count-gather entities f i (comps ∷ archs) id = ground (
  arith,
  count-gather entities f (suc i) archs id,
  count-append id (entities i) (gather entities (matching f (suc i) archs)),
  count-append id (entities i) (gather entities (matching all (suc i) archs)),
)

pub single-Answer :
    (owner : ℕ → ComponentFilter) (archs : List (List Component)) (r : Reader)
    (entities : ℕ → List ℕ) (s : Search) (caches : Caches)
    → IsReaderOf archs r
    → ((a : ℕ) → r.get_entities_for_arch_id a ≡ ok (entities a))
    → IsDistinct (members_of archs entities all)
    → owner s.arch_matches ≡ s.component_filter
    → IsCached owner archs caches
    → Answer owner archs (finds (members_of archs entities) (single s)) (collect r s caches)
single-Answer owner archs r entities s caches reader reads once owned valid =
    let fn = filter_value s.component_property_filter in
    let matched = evaluate_matches owner archs r s caches reader valid owned in
    let members = members_of archs entities s.component_filter in
    let found_ids : found entities s (evaluate r s caches).0 ≡ filter fn members =
      ap (λ (t : List ℕ). filter fn (gather entities t)) matched in
    let collected =
      (search_answers r entities s caches
        (all-AllRead r entities reads (evaluate r s caches).0)).0 in
    record {
      ids = sort_ids (filter fn members);
      returned =
          ap (λ (q : Result SearchError (List ℕ) × Caches). q.0) collected
          ∙ ap (λ (t : List ℕ). ok (sort_ids t)) found_ids;
      distinct = λ id. omega (
        arith,
        count-sort_ids id (filter fn members),
        count-filter fn id members,
        count-gather entities s.component_filter 0 archs id,
        once id,
      );
      exact = λ id. contains-sort_ids id (filter fn members) ∙ contains-filter fn id members;
      valid =
          subst (λ (c : Caches). IsCached owner archs c)
            (sym (ap (λ (q : Result SearchError (List ℕ) × Caches). q.1) collected))
            (evaluate-IsCached owner archs r s caches reader valid owned);
    }
