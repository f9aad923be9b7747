-- ===== src/Search/Answers.antt =====
-- The composed searches of cardinal/composedsearch.go return their sets of entities.
use world_engine.Base.{
  ℕ, ◌+◌, ◌≡◌, refl, sym, ap, ◌∙◌, subst, Bool, ◌||◌, not, List, [], contains, count, if◌then◌else◌,
  nat_eq, arith, is_some, contains_iff_count, none,
}
use world_engine.Base.GoMap.{GoMap, lookup, keys, IsMap, contains-keys}
use world_engine.Base.Exec.{Result, ok, ◌>>=◌, pure, bind-step}
use world_engine.Base.Distinct.{IsDistinct}
use world_engine.Filter.{Component, ComponentFilter, all}
use world_engine.Search.{Reader, Caches, M, SearchError, entity, empty_cache, collect}
use world_engine.Search.Sorting.{sort_ids, count-sort_ids, contains-sort_ids}
use world_engine.Search.Caching.{IsReaderOf, IsCached, empty-IsCached}
use world_engine.Search.Counting.{
  count_ids-or_zero, count_ids-is_some, count_ids-IsMap, mark_ids-is_some, mark_ids-IsMap,
  count-ids_with_count, contains-ids_with_count, contains-filter, count-filter,
  call_each-append_result,
}
use world_engine.Search.Composed.{
  Searchable, Searchables, single, or_search, and_search, not_search, nil, cons, size, or_zero,
  count_ids, mark_ids, ids_with_count, excluding, call_each, append_result, collect_ids, mark_all,
  count_all, collect_everything,
}
use world_engine.Search.Sets.{
  finds, finds_any, hits, hits-finds_all, hits-finds_any, IsOwned, AreOwned, members_of, Answer,
  single-Answer,
}

-- A distinct list has an ID once or not at all.
count-distinct :
    (id : ℕ) (ids : List ℕ) → IsDistinct ids → count id ids ≡ (if contains ids id then 1 else 0)
count-distinct id ids d = ground (arith, d id, contains_iff_count id ids)

empty-IsMap : (V : Type 0) → IsMap {K = ℕ} {V = V} []
unfolding count keys
empty-IsMap V k = omega arith

lookup_nil : {V : Type 0} (id : ℕ) → lookup {K = ℕ} {V = V} id [] ≡ none
unfolding lookup
lookup_nil id = refl

module _ (owner : ℕ → ComponentFilter) (archs : List (List Component)) (r : Reader)
    (entities : ℕ → List ℕ) (reader : IsReaderOf archs r)
    (reads : (a : ℕ) → r.get_entities_for_arch_id a ≡ ok (entities a))
    (once : IsDistinct (members_of archs entities all)) where
  abbrev members : ComponentFilter → List ℕ
  members = members_of archs entities

  -- The map that the loop over the searches returned: its keys are the old ones and what the
  -- searches find.
  record Marked (ss : Searchables) (m : GoMap ℕ Bool)
      (answer : Result SearchError (GoMap ℕ Bool) × Caches) : Type 0 where
    marks : GoMap ℕ Bool
    returned : answer.0 ≡ ok marks
    is_map : IsMap marks
    marked :
        (id : ℕ) → is_some (lookup id marks) ≡ (is_some (lookup id m) || finds_any members ss id)
    valid : IsCached owner archs answer.1

  -- Likewise, with how many searches have found each entity.
  record Counted (ss : Searchables) (m : GoMap ℕ ℕ)
      (answer : Result SearchError (GoMap ℕ ℕ) × Caches) : Type 0 where
    counts : GoMap ℕ ℕ
    returned : answer.0 ≡ ok counts
    is_map : IsMap counts
    counted :
        (id : ℕ) → is_some (lookup id counts) ≡ (is_some (lookup id m) || finds_any members ss id)
    total : (id : ℕ) → or_zero (lookup id counts) ≡ or_zero (lookup id m) + hits members ss id
    valid : IsCached owner archs answer.1

  -- A block whose first statement returned.
  after :
      {A B : Type 0} (P : Result SearchError B × Caches → Type 0) (m : M A) (f : A → M B)
      (caches : Caches) (a : A)
      → (m caches).0 ≡ ok a
      → P (f a (m caches).1)
      → P ((m >>= f) caches)
  after P m f caches a e h =
      let step : m caches ≡ (ok a, (m caches).1) = λ i. (e i, (m caches).1) in
      subst P (sym (bind-step m f caches step)) h

  -- NotSearch collects all entities with a search of its own.
  everything :
      Answer
        (λ p. all)
        archs
        (finds members (single (entity 0 all)))
        (collect r (entity 0 all) (λ p. empty_cache))
  unfolding entity
  everything =
      single-Answer (λ p. all) archs r entities (entity 0 all) (λ p. empty_cache) reader reads once
        refl (empty-IsCached (λ p. all) archs)

  mutual
    unfolding entity collect_ids pure

    answers :
        (s : Searchable) (caches : Caches)
        → IsOwned owner s
        → IsCached owner archs caches
        → Answer owner archs (finds members s) (collect_ids r s caches)
    answers (single s) caches owned valid =
        single-Answer owner archs r entities s caches reader reads once owned valid
    answers (or_search ss) caches owned valid =
        let v = marks ss [] caches owned valid (empty-IsMap Bool) in
        after (Answer owner archs (finds members (or_search ss))) (mark_all r ss [])
          (λ exists. pure (sort_ids (keys exists))) caches v.marks v.returned
          (record {
            ids = sort_ids (keys v.marks);
            returned = refl;
            distinct = λ id. omega (arith, count-sort_ids id (keys v.marks), v.is_map id);
            exact = λ id.
                contains-sort_ids id (keys v.marks)
                ∙ contains-keys id v.marks
                ∙ ground (arith, v.marked id, lookup_nil {V = Bool} id);
            valid = v.valid;
          })
    answers (and_search ss) caches owned valid =
        let v = counts ss [] caches owned valid (empty-IsMap ℕ) in
        let both = ids_with_count (size ss) v.counts in
        after (Answer owner archs (finds members (and_search ss))) (count_all r ss [])
          (λ m.
            pure (sort_ids (call_each append_result (sort_ids (ids_with_count (size ss) m)) [])))
          caches v.counts v.returned
          (record {
            ids = sort_ids (sort_ids both);
            returned =
                ap (λ (t : List ℕ). ok (sort_ids t)) (call_each-append_result (sort_ids both) []);
            distinct = λ id. omega (
              arith,
              count-sort_ids id (sort_ids both),
              count-sort_ids id both,
              count-ids_with_count id (size ss) v.counts,
              v.is_map id,
            );
            exact = λ id.
                contains-sort_ids id (sort_ids both)
                ∙ contains-sort_ids id both
                ∙ contains-ids_with_count id (size ss) v.counts v.is_map
                ∙ ground (
                  arith,
                  v.counted id,
                  v.total id,
                  hits-finds_all members ss id,
                  hits-finds_any members ss id,
                  lookup_nil {V = ℕ} id,
                );
            valid = v.valid;
          })
    answers (not_search s) caches owned valid =
        let every = everything in
        let a = answers s caches owned valid in
        after (Answer owner archs (finds members (not_search s))) (collect_everything r)
          (λ all_ids. collect_ids r s >>= λ excluded.
            pure (sort_ids (excluding (mark_ids excluded []) all_ids)))
          caches every.ids every.returned
          (after (Answer owner archs (finds members (not_search s))) (collect_ids r s)
            (λ excluded. pure (sort_ids (excluding (mark_ids excluded []) every.ids))) caches a.ids
            a.returned
            (record {
              ids = sort_ids (excluding (mark_ids a.ids []) every.ids);
              returned = refl;
              distinct = λ id. omega (
                arith,
                count-sort_ids id (excluding (mark_ids a.ids []) every.ids),
                count-filter (λ id. not (is_some (lookup id (mark_ids a.ids [])))) id every.ids,
                every.distinct id,
              );
              exact = λ id.
                  contains-sort_ids id (excluding (mark_ids a.ids []) every.ids)
                  ∙ contains-filter (λ id. not (is_some (lookup id (mark_ids a.ids [])))) id
                      every.ids
                  ∙ ground (
                    arith,
                    every.exact id,
                    mark_ids-is_some id a.ids [],
                    a.exact id,
                    lookup_nil {V = Bool} id,
                  );
              valid = a.valid;
            }))

    marks :
        (ss : Searchables) (m : GoMap ℕ Bool) (caches : Caches)
        → AreOwned owner ss
        → IsCached owner archs caches
        → IsMap m
        → Marked ss m (mark_all r ss m caches)
    marks nil m caches owned valid is_map = record {
      marks = m;
      returned = refl;
      is_map = is_map;
      marked = λ id. ground arith;
      valid = valid;
    }
    marks (cons s ss) m caches owned valid is_map =
        let a = answers s caches owned.0 valid in
        let v =
          marks ss (mark_ids a.ids m) (collect_ids r s caches).1 owned.1 a.valid
            (mark_ids-IsMap a.ids m is_map) in
        after (Marked (cons s ss) m) (collect_ids r s) (λ ids. mark_all r ss (mark_ids ids m))
          caches a.ids a.returned
          (record {
            marks = v.marks;
            returned = v.returned;
            is_map = v.is_map;
            marked = λ id. ground (arith, v.marked id, mark_ids-is_some id a.ids m, a.exact id);
            valid = v.valid;
          })

    counts :
        (ss : Searchables) (m : GoMap ℕ ℕ) (caches : Caches)
        → AreOwned owner ss
        → IsCached owner archs caches
        → IsMap m
        → Counted ss m (count_all r ss m caches)
    counts nil m caches owned valid is_map = record {
      counts = m;
      returned = refl;
      is_map = is_map;
      counted = λ id. ground arith;
      total = λ id. omega arith;
      valid = valid;
    }
    counts (cons s ss) m caches owned valid is_map =
        let a = answers s caches owned.0 valid in
        let v =
          counts ss (count_ids a.ids m) (collect_ids r s caches).1 owned.1 a.valid
            (count_ids-IsMap a.ids m is_map) in
        after (Counted (cons s ss) m) (collect_ids r s) (λ ids. count_all r ss (count_ids ids m))
          caches a.ids a.returned
          (record {
            counts = v.counts;
            returned = v.returned;
            is_map = v.is_map;
            counted = λ id. ground (arith, v.counted id, count_ids-is_some id a.ids m, a.exact id);
            total = λ id. ground (
              arith,
              v.total id,
              count_ids-or_zero id a.ids m,
              a.exact id,
              count-distinct id a.ids a.distinct,
            );
            valid = v.valid;
          })

-- For a reader of a game state that has every entity in at most one archetype and whose reads
-- succeed, with caches that are right for one filter for each pointer: Collect of any composition of
-- searches returns each entity of the set it means (union, intersection, complement in all
-- entities) exactly once and no others, and leaves caches that are right.
pub collect_ids-Answer :
    (owner : ℕ → ComponentFilter) (archs : List (List Component)) (r : Reader)
    (entities : ℕ → List ℕ) (s : Searchable) (caches : Caches)
    → IsReaderOf archs r
    → ((a : ℕ) → r.get_entities_for_arch_id a ≡ ok (entities a))
    → IsDistinct (members_of archs entities all)
    → IsOwned owner s
    → IsCached owner archs caches
    → Answer owner archs (finds (members_of archs entities) s) (collect_ids r s caches)
collect_ids-Answer owner archs r entities s caches reader reads once owned valid =
    answers owner archs r entities reader reads once s caches owned valid
