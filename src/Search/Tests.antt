-- ===== src/Search/Tests.antt =====
-- Tests of the searches on a game state with two archetypes.
use world_engine.Base.{
  ℕ, zero, suc, ◌≡◌, refl, List, [], ◌∷◌, length, drop, contains, count, arith, none, some, nat_eq,
  ◌++◌, ◌&&◌, leb, string_eq,
}
use world_engine.Base.GoMap.{lookup, insert}
use world_engine.Base.Exec.{Result, ok, err}
use world_engine.Base.Distinct.{IsDistinct}
use world_engine.Filter.{
  Component, ComponentFilter, all, having, matches_components, create_component_matcher,
  fill_matcher, matches_each,
}
use world_engine.Search.{
  SearchError, read_failure, Reader, Caches, Search, empty_cache, evaluate, collect, count_search,
  must_first, bad_entity_id,
}
use world_engine.Search.Sorting.{Ascends}
use world_engine.Search.Caching.{matching, IsReaderOf, empty-IsCached, evaluate_incremental}
use world_engine.Search.Single.{gather, found, first_or_bad, AllRead, search_agree}
use world_engine.Search.Composed.{
  Searchable, single, and_search, not_search, nil, cons, collect_ids, evaluate_all,
  evaluate_everything,
}
use world_engine.Search.Sets.{finds, members_of, Answer}
use world_engine.Search.Answers.{collect_ids-Answer}
use world_engine.Search.Evaluation.{not_search-evaluate_all}

abbrev health : Component
health = record { name = "Health" }

abbrev energy : Component
energy = record { name = "Energy" }

abbrev archs : List (List Component)
archs = (health ∷ []) ∷ (energy ∷ health ∷ []) ∷ []

abbrev entities : ℕ → List ℕ
entities zero = 3 ∷ 1 ∷ []
entities (suc zero) = 2 ∷ []
entities (suc (suc n)) = []

abbrev reader_of : List (List Component) → Reader
reader_of comps = record {
  search_from = λ f start. matching f start (drop start comps);
  archetype_count = length comps;
  get_entities_for_arch_id = λ a. ok (entities a);
}

abbrev with_energy : Search
with_energy = record {
  arch_matches = 1;
  component_filter = having (energy ∷ []);
  component_property_filter = none;
}

abbrev with_health : Search
with_health = record {
  arch_matches = 0;
  component_filter = having (health ∷ []);
  component_property_filter = some (λ id. ok (leb 2 id));
}

abbrev owner : ℕ → ComponentFilter
owner zero = having (health ∷ [])
owner (suc n) = having (energy ∷ [])

abbrev empty : Caches
empty = λ p. empty_cache

reader_of-IsReaderOf : (comps : List (List Component)) → IsReaderOf comps (reader_of comps)
reader_of-IsReaderOf comps = record { searched = λ f start h. refl; counted = refl }

entities-IsDistinct : IsDistinct (members_of archs entities all)
unfolding gather matching matches_components count
entities-IsDistinct n = ground arith

abbrev without_energy : Searchable
without_energy = and_search (cons (single with_health) (cons (not_search (single with_energy)) nil))

evaluate_incremental_example :
    ((evaluate
        (reader_of (archs ++ ((health ∷ []) ∷ [])))
        with_health
        (evaluate (reader_of archs) with_energy empty).1).0
      ≡ (evaluate (reader_of (archs ++ ((health ∷ []) ∷ []))) with_health empty).0)
    × ((evaluate (reader_of (archs ++ ((health ∷ []) ∷ []))) with_health empty).0
        ≡ matching (having (health ∷ [])) 0 (archs ++ ((health ∷ []) ∷ [])))
evaluate_incremental_example =
    evaluate_incremental owner archs ((health ∷ []) ∷ []) (reader_of archs)
      (reader_of (archs ++ ((health ∷ []) ∷ []))) with_energy with_health empty
      (reader_of-IsReaderOf archs) (reader_of-IsReaderOf (archs ++ ((health ∷ []) ∷ [])))
      (empty-IsCached owner archs) refl refl

-- A third archetype cannot be read.
abbrev unreadable : ℕ → Result SearchError (List ℕ)
unreadable (suc (suc n)) = err read_failure
unreadable a = ok (entities a)

abbrev partial : Reader
partial = record (reader_of archs) { get_entities_for_arch_id = unreadable }

both-AllRead : AllRead partial entities (evaluate partial with_health empty).0
unfolding evaluate matching matches_components create_component_matcher fill_matcher matches_each
    lookup insert
both-AllRead = (refl, (refl, tt))

search_agree_example :
    let (found_archs, left) = evaluate partial with_health empty in
    ((ids : List ℕ) × (collect partial with_health empty ≡ (ok ids, left))
      × Ascends ids
      × ((id : ℕ) → count id ids ≡ count id (found entities with_health found_archs)))
    × (count_search partial with_health empty
        ≡ (ok (length (found entities with_health found_archs)), left))
    × (must_first partial with_health empty
        ≡ (some (first_or_bad (found entities with_health found_archs)), left))
search_agree_example = search_agree partial entities with_health empty both-AllRead

collect_ids-Answer_example :
    Answer owner archs
      (finds (members_of archs entities) without_energy)
      (collect_ids (reader_of archs) without_energy empty)
collect_ids-Answer_example =
    collect_ids-Answer owner archs (reader_of archs) entities without_energy empty
      (reader_of-IsReaderOf archs) (λ a. refl) entities-IsDistinct (refl, (refl, tt))
      (empty-IsCached owner archs)

not_search-evaluate_all_example :
    contains (evaluate_all (reader_of archs) (not_search (single with_energy)) empty).0 1 ≡ (
      contains (evaluate_all (reader_of archs) (single with_energy) empty).0 1
      && contains (evaluate_everything (reader_of archs)) 1)
not_search-evaluate_all_example =
    not_search-evaluate_all (reader_of archs) (single with_energy) empty 1

-- A search that finds nothing.
abbrev with_nothing : Search
with_nothing = record {
  arch_matches = 2;
  component_filter = having (record { name = "Nothing" } ∷ []);
  component_property_filter = none;
}

first_found : (must_first (reader_of archs) with_health empty).0 ≡ some 3
unfolding must_first evaluate matching matches_components create_component_matcher fill_matcher
    matches_each lookup insert
first_found = refl

none_found : (must_first (reader_of archs) with_nothing empty).0 ≡ some bad_entity_id
unfolding must_first evaluate matching matches_components create_component_matcher fill_matcher
    matches_each lookup insert
none_found = refl
