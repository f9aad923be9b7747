-- ===== src/Search.antt =====
-- cardinal/search.go, search_iterator.go, filtercomponent.go and gamestate/iter_archetype.go: the
-- search for entities by components, with its cache of archetypes. Searches share caches through
-- pointers. The reader does not change while one search runs; a callback has a state of its own. The
-- deferred panicOnFatalError, which panics on the error that is returned, is left out.
pub mod Sorting
pub mod Composed
pub mod Counting
pub mod Single
pub mod Sets
pub mod Answers
pub mod Evaluation
pub mod Caching
pub mod Tests
use world_engine.Base.{
  ℕ, suc, ◌+◌, ◌≡◌, Bool, true, false, ◌&&◌, ◌||◌, Option, none, some, List, [], ◌∷◌, ◌++◌, length,
  if◌then◌else◌, leb, nat_eq, ◌==◌,
}
use world_engine.Base.Exec.{Result, ok, err, Exec, pure, fail, lift, gets, modify, ◌>>=◌, ◌>>◌}
use world_engine.Filter.{Component, ComponentFilter}
use world_engine.Search.Sorting.{sort_ids}

pub data SearchError : Type 0 where
  read_failure no_search_results all_filters_failed : SearchError

-- What a search uses of gamestate.Reader; a failure inside SearchFrom is swallowed there.
pub record Reader : Type 0 where
  pub search_from : ComponentFilter → ℕ → List ℕ
  pub archetype_count : ℕ
  pub get_entities_for_arch_id : ℕ → Result SearchError (List ℕ)

pub record Cache : Type 0 where
  pub archetypes : List ℕ
  pub seen : ℕ

-- The caches by pointer.
abbrev pub Caches : Type 0
Caches = ℕ → Cache

abbrev pub empty_cache : Cache
empty_cache = record { archetypes = []; seen = 0 }

abbrev pub M : Type 0 → Type 0
M A = Exec SearchError Caches A

abbrev pub FilterFn : Type 0
FilterFn = ℕ → Result SearchError Bool

pub record Search : Type 0 where
  pub arch_matches : ℕ
  pub component_filter : ComponentFilter
  pub component_property_filter : Option FilterFn

-- math.MaxUint64
abbrev pub bad_entity_id : ℕ
bad_entity_id = 18446744073709551615

-- The two accumulators of the loop in AndFilter and in OrFilter.
abbrev pub filter_step : (Bool → Bool → Bool) → Result SearchError Bool → Bool × ℕ → Bool × ℕ
filter_step join (ok res) (result, err_count) = (join result res, err_count)
filter_step join (err error) (result, err_count) = (result, suc err_count)

unfoldable pub filter_loop : (Bool → Bool → Bool) → List FilterFn → ℕ → Bool × ℕ → Bool × ℕ
filter_loop join [] id acc = acc
filter_loop join (fn ∷ fns) id acc = filter_loop join fns id (filter_step join (fn id) acc)

abbrev pub unless_all_failed : ℕ → Bool × ℕ → Result SearchError Bool
unless_all_failed n (result, err_count) =
    if err_count == n then err all_filters_failed else ok result

unfoldable pub and_filter : List FilterFn → FilterFn
unfolding filter_loop
and_filter fns id = unless_all_failed (length fns) (filter_loop (λ a b. a && b) fns id (true, 0))

unfoldable pub or_filter : List FilterFn → FilterFn
unfolding filter_loop
or_filter fns id = unless_all_failed (length fns) (filter_loop (λ a b. a || b) fns id (false, 0))

-- NewSearch with the pointer of a new cache, then Entity.
unfoldable pub entity : ℕ → ComponentFilter → Search
entity pointer component_filter = record {
  arch_matches = pointer;
  component_filter = component_filter;
  component_property_filter = none;
}

-- The search that Where returns has a new cache.
abbrev pub joined : Option FilterFn → FilterFn → FilterFn
joined none fn = fn
joined (some old) fn = and_filter (old ∷ fn ∷ [])

unfoldable pub where_ : ℕ → FilterFn → Search → Search
unfolding and_filter
where_ pointer fn s = record {
  arch_matches = pointer;
  component_filter = s.component_filter;
  component_property_filter = some (joined s.component_property_filter fn);
}

-- `filterValue`; an entity on which the filter fails is skipped.
abbrev pub answer_or_skip : Result SearchError Bool → Bool
answer_or_skip (ok b) = b
answer_or_skip (err error) = false

abbrev pub filter_value : Option FilterFn → ℕ → Bool
filter_value none id = true
filter_value (some fn) id = answer_or_skip (fn id)

-- The loop over the entities of one archetype in Each: whether to go on, and the callback's state.
unfoldable pub each_entity :
    {S : Type 0} → Option FilterFn → (ℕ → S → Bool × S) → List ℕ → S → Bool × S
each_entity fn callback [] s = (true, s)
each_entity fn callback (id ∷ ids) s =
    if filter_value fn id
    then (let (go_on, s') = callback id s in
        elim go_on [ true ↦ each_entity fn callback ids s' | false ↦ (false, s') ])
    else each_entity fn callback ids s

abbrev pub store : ℕ → Cache → Caches → Caches
store pointer cache caches = λ p. if pointer == p then cache else caches p

module _ (r : Reader) where
  unfoldable pub evaluate : Search → Caches → List ℕ × Caches
  evaluate s caches =
      let cache = caches s.arch_matches in
      let archetypes = cache.archetypes ++ r.search_from s.component_filter cache.seen in
      (
        archetypes,
        store s.arch_matches (record { archetypes = archetypes; seen = r.archetype_count }) caches,
      )

  abbrev pub evaluate_search : Search → M (List ℕ)
  evaluate_search s caches =
      let (archetypes, caches') = evaluate s caches in (ok archetypes, caches')

  -- The loop of Each over the archetypes.
  unfoldable pub each_archetype :
      {S : Type 0}
      → Option FilterFn
      → (ℕ → S → Bool × S)
      → List ℕ
      → S
      → Result SearchError (Unit {0}) × S
  unfolding each_entity
  each_archetype fn callback [] s = (ok tt, s)
  each_archetype fn callback (a ∷ as_) s = elim (r.get_entities_for_arch_id a) [
    | err error ↦ (err error, s)
    | ok ids ↦
        let (go_on, s') = each_entity fn callback ids s in
        elim go_on [ true ↦ each_archetype fn callback as_ s' | false ↦ (ok tt, s') ]
  ]

  unfoldable pub each :
      {S : Type 0}
      → Search
      → (ℕ → S → Bool × S)
      → S
      → Caches
      → (Result SearchError (Unit {0}) × S) × Caches
  unfolding each_archetype evaluate
  each s callback acc caches =
      let (archetypes, caches') = evaluate s caches in
      (each_archetype s.component_property_filter callback archetypes acc, caches')

  -- `acc = append(acc, id); return true`
  abbrev pub append_id : ℕ → List ℕ → Bool × List ℕ
  append_id id acc = (true, acc ++ (id ∷ []))

  abbrev pub sorted_unless : Result SearchError (Unit {0}) × List ℕ → Result SearchError (List ℕ)
  sorted_unless (ok _, acc) = ok (sort_ids acc)
  sorted_unless (err error, acc) = err error

  unfoldable pub collect : Search → M (List ℕ)
  unfolding each
  collect s caches =
      let (answer, caches') = each s append_id [] caches in (sorted_unless answer, caches')

  unfoldable pub count_entities : Option FilterFn → List ℕ → ℕ → ℕ
  count_entities fn [] ret = ret
  count_entities fn (id ∷ ids) ret =
      count_entities fn ids (if filter_value fn id then ret + 1 else ret)

  unfoldable pub count_archetypes : Option FilterFn → List ℕ → ℕ → Result SearchError ℕ
  unfolding count_entities
  count_archetypes fn [] ret = ok ret
  count_archetypes fn (a ∷ as_) ret = elim (r.get_entities_for_arch_id a) [
    | err error ↦ err error
    | ok ids ↦ count_archetypes fn as_ (count_entities fn ids ret)
  ]

  unfoldable pub count_search : Search → M ℕ
  unfolding count_archetypes evaluate
  count_search s caches =
      let (archetypes, caches') = evaluate s caches in
      (count_archetypes s.component_property_filter archetypes 0, caches')

  unfoldable pub first_entity : Option FilterFn → List ℕ → Option ℕ
  first_entity fn [] = none
  first_entity fn (id ∷ ids) =
      let rest = first_entity fn ids in if filter_value fn id then some id else rest

  -- With no match the error is `eris.Wrap(err, "")` of a nil `err`, which is nil.
  unfoldable pub first_archetype : Option FilterFn → List ℕ → Result SearchError ℕ
  unfolding first_entity
  first_archetype fn [] = ok bad_entity_id
  first_archetype fn (a ∷ as_) = elim (r.get_entities_for_arch_id a) [
    | err error ↦ err error
    | ok ids ↦ elim (first_entity fn ids) [ some id ↦ ok id | none ↦ first_archetype fn as_ ]
  ]

  unfoldable pub first : Search → M ℕ
  unfolding first_archetype evaluate
  first s caches =
      let (archetypes, caches') = evaluate s caches in
      (first_archetype s.component_property_filter archetypes, caches')

  -- `none` is the panic.
  abbrev pub or_panic : Result SearchError ℕ → Option ℕ
  or_panic (ok id) = some id
  or_panic (err error) = none

  unfoldable pub must_first : Search → Caches → Option ℕ × Caches
  unfolding first
  must_first s caches = let (answer, caches') = first s caches in (or_panic answer, caches')
