-- ===== src/Search/Composed.antt =====
-- cardinal/composedsearch.go: OrSearch, AndSearch and NotSearch.
use world_engine.Base.{
  ℕ, suc, ◌+◌, Bool, true, false, Option, none, some, List, [], ◌∷◌, ◌++◌, length, filter,
  if◌then◌else◌, nat_eq, ◌==◌, is_some, not,
}
use world_engine.Base.GoMap.{GoMap, lookup, insert, keys}
use world_engine.Base.Exec.{Result, ok, err, pure, ◌>>=◌}
use world_engine.Filter.{all}
use world_engine.Search.Sorting.{sort_ids}
use world_engine.Search.{
  SearchError, no_search_results, Reader, Caches, M, Search, entity, empty_cache, evaluate, each,
  collect, count_search, first,
}

-- A Searchable, and the slice of them in a composed search.
mutual
  pub data Searchable : Type 0 where
    single : Search → Searchable
    or_search and_search : Searchables → Searchable
    not_search : Searchable → Searchable

  pub data Searchables : Type 0 where
    nil : Searchables
    cons : Searchable → Searchables → Searchables

abbrev pub size : Searchables → ℕ
size nil = 0
size (cons s ss) = suc (size ss)

abbrev pub or_zero : Option ℕ → ℕ
or_zero none = 0
or_zero (some n) = n

-- `for _, id := range ids { idCount[id]++ }`
unfoldable pub count_ids : List ℕ → GoMap ℕ ℕ → GoMap ℕ ℕ
count_ids [] m = m
count_ids (id ∷ ids) m = count_ids ids (insert id (or_zero (lookup id m) + 1) m)

-- `for _, id := range ids { idExists[id] = true }`
unfoldable pub mark_ids : List ℕ → GoMap ℕ Bool → GoMap ℕ Bool
mark_ids [] m = m
mark_ids (id ∷ ids) m = mark_ids ids (insert id true m)

-- `for id, count := range idCount { if count == n { … } }`
unfoldable pub ids_with_count : ℕ → GoMap ℕ ℕ → List ℕ
ids_with_count n [] = []
ids_with_count n ((id, count) ∷ m) =
    let rest = ids_with_count n m in if count == n then id ∷ rest else rest

abbrev pub excluding : GoMap ℕ Bool → List ℕ → List ℕ
excluding m ids = filter (λ id. not (is_some (lookup id m))) ids

-- `for _, id := range ids { if !callback(id) { return nil } }`
unfoldable pub call_each : {S : Type 0} → (ℕ → S → Bool × S) → List ℕ → S → S
call_each callback [] s = s
call_each callback (id ∷ ids) s =
    let (go_on, s') = callback id s in elim go_on [ true ↦ call_each callback ids s' | false ↦ s' ]

-- `results = append(results, id); return true`
abbrev pub append_result : ℕ → List ℕ → Bool × List ℕ
append_result id results = (true, results ++ (id ∷ []))

module _ (r : Reader) where
  -- NewSearch().Entity(filter.All()) has a cache that nobody else sees.
  abbrev pub collect_everything : M (List ℕ)
  collect_everything caches =
      let (answer, _) = collect r (entity 0 all) (λ p. empty_cache) in (answer, caches)

  unfoldable mutual
    unfolding ◌>>=◌ count_ids mark_ids ids_with_count call_each collect entity pure

    pub collect_ids : Searchable → M (List ℕ)
    collect_ids (single s) = collect r s
    collect_ids (or_search ss) = do exists ← mark_all ss []; pure (sort_ids (keys exists))
    collect_ids (and_search ss) = do
      id_count ← count_all ss []
      pure (sort_ids (call_each append_result (sort_ids (ids_with_count (size ss) id_count)) []))
    collect_ids (not_search s) = do
      all_ids ← collect_everything
      excluded ← collect_ids s
      pure (sort_ids (excluding (mark_ids excluded []) all_ids))

    pub mark_all : Searchables → GoMap ℕ Bool → M (GoMap ℕ Bool)
    mark_all nil m = pure m
    mark_all (cons s ss) m = do ids ← collect_ids s; mark_all ss (mark_ids ids m)

    pub count_all : Searchables → GoMap ℕ ℕ → M (GoMap ℕ ℕ)
    count_all nil m = pure m
    count_all (cons s ss) m = do ids ← collect_ids s; count_all ss (count_ids ids m)

  unfoldable pub each_id :
      {S : Type 0}
      → Searchable
      → (ℕ → S → Bool × S)
      → S
      → Caches
      → (Result SearchError (Unit {0}) × S) × Caches
  unfolding collect_ids each call_each count_all
  each_id (single s) callback acc caches = each r s callback acc caches
  each_id (or_search ss) callback acc caches =
      let (answer, caches') = count_all ss [] caches in
      elim answer [
        | err error ↦ ((err error, acc), caches')
        | ok m ↦ ((ok tt, call_each callback (sort_ids (keys m)) acc), caches')
      ]
  each_id (and_search ss) callback acc caches =
      let (answer, caches') = count_all ss [] caches in
      elim answer [
        | err error ↦ ((err error, acc), caches')
        | ok m ↦ ((ok tt, call_each callback (sort_ids (ids_with_count (size ss) m)) acc), caches')
      ]
  each_id (not_search s) callback acc caches =
      let (answer, caches') = collect_ids (not_search s) caches in
      elim answer [
        | err error ↦ ((err error, acc), caches')
        | ok ids ↦ ((ok tt, call_each callback ids acc), caches')
      ]

  -- `if len(ids) == 0 { return 0, eris.New(…) }; return ids[0], nil`
  abbrev pub first_of : List ℕ → M ℕ
  first_of [] caches = (err no_search_results, caches)
  first_of (id ∷ ids) caches = (ok id, caches)

  unfoldable pub first_id : Searchable → M ℕ
  unfolding collect_ids ◌>>=◌ first
  first_id (single s) = first r s
  first_id (or_search ss) = collect_ids (or_search ss) >>= first_of
  first_id (and_search ss) = collect_ids (and_search ss) >>= first_of
  first_id (not_search s) = collect_ids (not_search s) >>= first_of

  unfoldable pub count_found : Searchable → M ℕ
  unfolding collect_ids ◌>>=◌ count_search pure
  count_found (single s) = count_search r s
  count_found (or_search ss) = collect_ids (or_search ss) >>= λ ids. pure (length ids)
  count_found (and_search ss) = collect_ids (and_search ss) >>= λ ids. pure (length ids)
  count_found (not_search s) = collect_ids (not_search s) >>= λ ids. pure (length ids)

  -- `none` is the panic.
  unfoldable pub must_first_id : Searchable → Caches → Option ℕ × Caches
  unfolding first_id
  must_first_id s caches =
      let (answer, caches') = first_id s caches in
      elim answer [ ok id ↦ (some id, caches') | err error ↦ (none, caches') ]

  abbrev pub evaluate_everything : List ℕ
  evaluate_everything =
      let (archetypes, _) = evaluate r (entity 0 all) (λ p. empty_cache) in archetypes

  -- NotSearch keeps the results that are among all of them.
  abbrev pub among : GoMap ℕ Bool → List ℕ → List ℕ
  among m ids = filter (λ id. is_some (lookup id m)) ids

  unfoldable mutual
    unfolding evaluate count_ids mark_ids ids_with_count entity

    pub evaluate_all : Searchable → Caches → List ℕ × Caches
    evaluate_all (single s) caches = evaluate r s caches
    evaluate_all (or_search ss) caches = append_all ss [] caches
    evaluate_all (and_search ss) caches =
        let (m, caches') = count_archs ss [] caches in (ids_with_count (size ss) m, caches')
    evaluate_all (not_search s) caches =
        let (sub_results, caches') = evaluate_all s caches in
        (among (mark_ids evaluate_everything []) sub_results, caches')

    pub append_all : Searchables → List ℕ → Caches → List ℕ × Caches
    append_all nil acc caches = (acc, caches)
    append_all (cons s ss) acc caches =
        let (ids, caches') = evaluate_all s caches in append_all ss (acc ++ ids) caches'

    pub count_archs : Searchables → GoMap ℕ ℕ → Caches → GoMap ℕ ℕ × Caches
    count_archs nil m caches = (m, caches)
    count_archs (cons s ss) m caches =
        let (ids, caches') = evaluate_all s caches in count_archs ss (count_ids ids m) caches'
