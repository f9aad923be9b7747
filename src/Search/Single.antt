-- ===== src/Search/Single.antt =====
-- Each, Collect, Count and First of one search of cardinal/search.go.
use world_engine.Base.{
  ℕ, ◌+◌, ◌≡◌, refl, sym, ap, ◌∙◌, Bool, true, Option, none, some, List, [], ◌∷◌, ◌++◌, length,
  count, filter, nat_eq, arith, Bool-cases, inl, inr, length-append,
}
use world_engine.Base.Exec.{ok}
use world_engine.Search.Sorting.{sort_ids, Ascends, sort_ids-Ascends, count-sort_ids}
use world_engine.Search.{
  Reader, Caches, Search, FilterFn, filter_value, each_entity, append_id, each_archetype,
  count_entities, count_archetypes, first_entity, first_archetype, evaluate, each, collect,
  count_search, first, must_first, bad_entity_id,
}
use mathlib.Core.List.{append-nil, append_assoc}

-- The entities of some archetypes, in order.
unfoldable pub gather : (ℕ → List ℕ) → List ℕ → List ℕ
gather entities [] = []
gather entities (a ∷ archs) = entities a ++ gather entities archs

-- Each of the archetypes can be read, and has these entities.
abbrev pub AllRead : Reader → (ℕ → List ℕ) → List ℕ → Type 0
AllRead r entities [] = Unit
AllRead r entities (a ∷ archs) =
    (r.get_entities_for_arch_id a ≡ ok (entities a)) × AllRead r entities archs

pub all-AllRead :
    (r : Reader) (entities : ℕ → List ℕ)
    → ((a : ℕ) → r.get_entities_for_arch_id a ≡ ok (entities a))
    → (archs : List ℕ) → AllRead r entities archs
all-AllRead r entities reads [] = tt
all-AllRead r entities reads (a ∷ archs) = (reads a, all-AllRead r entities reads archs)

-- The entities of the matching archetypes on which the property filter answers true.
abbrev pub found : (ℕ → List ℕ) → Search → List ℕ → List ℕ
found entities s archs = filter (filter_value s.component_property_filter) (gather entities archs)

abbrev pub first_or_bad : List ℕ → ℕ
first_or_bad [] = bad_entity_id
first_or_bad (id ∷ ids) = id

filter-append : (p : ℕ → Bool) (xs ys : List ℕ) → filter p (xs ++ ys) ≡ filter p xs ++ filter p ys
filter-append p [] ys = refl
filter-append p (x ∷ xs) ys = ground (arith, filter-append p xs ys)

each_entity-collects :
    (fn : Option FilterFn) (r : Reader) (ids acc : List ℕ)
    → each_entity fn (append_id r) ids acc ≡ (true, acc ++ filter (filter_value fn) ids)
unfolding each_entity
each_entity-collects fn r [] acc = ap (λ (t : List ℕ). (true, t)) (sym (append-nil acc))
each_entity-collects fn r (x ∷ ids) acc = elim (Bool-cases (filter_value fn x)) [
  | inl kept ↦
      rw (kept, each_entity)
        (each_entity-collects fn r ids (acc ++ (x ∷ []))
          ∙ ap (λ (t : List ℕ). (true, t))
              (append_assoc acc (x ∷ []) (filter (filter_value fn) ids)))
  | inr skipped ↦ rw (skipped, each_entity) (each_entity-collects fn r ids acc)
]

count_entities_lem :
    (fn : Option FilterFn) (r : Reader) (ids : List ℕ) (ret : ℕ)
    → count_entities r fn ids ret ≡ ret + length (filter (filter_value fn) ids)
unfolding count_entities
count_entities_lem fn r [] ret = omega arith
count_entities_lem fn r (x ∷ ids) ret = elim (Bool-cases (filter_value fn x)) [
  | inl kept ↦ rw (kept, count_entities) (omega (arith, count_entities_lem fn r ids (ret + 1)))
  | inr skipped ↦ rw (skipped, count_entities) (count_entities_lem fn r ids ret)
]

abbrev head : List ℕ → Option ℕ
head [] = none
head (x ∷ xs) = some x

first_entity_lem :
    (fn : Option FilterFn) (r : Reader) (ids : List ℕ)
    → first_entity r fn ids ≡ head (filter (filter_value fn) ids)
unfolding first_entity
first_entity_lem fn r [] = refl
first_entity_lem fn r (x ∷ ids) = ground (arith, first_entity_lem fn r ids)

module _ (r : Reader) (entities : ℕ → List ℕ) (fn : Option FilterFn) where
  each_archetype-collects :
      (archs acc : List ℕ)
      → AllRead r entities archs
      → each_archetype r fn (append_id r) archs acc
        ≡ (ok tt, acc ++ filter (filter_value fn) (gather entities archs))
  unfolding each_archetype gather
  each_archetype-collects [] acc reads = ap (λ (t : List ℕ). (ok tt, t)) (sym (append-nil acc))
  each_archetype-collects (a ∷ archs) acc reads =
      rw (reads.0, each_archetype)
        (rw (ap (λ (p : Bool × List ℕ). p.0) (each_entity-collects fn r (entities a) acc)) (
          ap (λ (p : Bool × List ℕ). each_archetype r fn (append_id r) archs p.1)
            (each_entity-collects fn r (entities a) acc)
          ∙ each_archetype-collects archs (acc ++ filter (filter_value fn) (entities a)) reads.1
          ∙ ap (λ (t : List ℕ). (ok tt, t))
              (append_assoc acc (filter (filter_value fn) (entities a))
                  (filter (filter_value fn) (gather entities archs))
                ∙ ap (λ (t : List ℕ). acc ++ t)
                    (sym (filter-append (filter_value fn) (entities a) (gather entities archs))))))

  count_archetypes_lem :
      (archs : List ℕ) (ret : ℕ)
      → AllRead r entities archs
      → count_archetypes r fn archs ret
        ≡ ok (ret + length (filter (filter_value fn) (gather entities archs)))
  unfolding count_archetypes gather
  count_archetypes_lem [] ret reads = ap (λ (n : ℕ). ok n) (omega arith)
  count_archetypes_lem (a ∷ archs) ret reads =
      rw (reads.0, count_archetypes)
        (count_archetypes_lem archs (count_entities r fn (entities a) ret) reads.1
          ∙ ap (λ (n : ℕ). ok n)
              (omega (
                arith,
                count_entities_lem fn r (entities a) ret,
                ap length (filter-append (filter_value fn) (entities a) (gather entities archs)),
                length-append (filter (filter_value fn) (entities a))
                    (filter (filter_value fn) (gather entities archs)),
              )))

  first_archetype_lem :
      (archs : List ℕ)
      → AllRead r entities archs
      → first_archetype r fn archs
        ≡ ok (first_or_bad (filter (filter_value fn) (gather entities archs)))
  unfolding first_archetype gather
  first_archetype_lem [] reads = refl
  first_archetype_lem (a ∷ archs) reads =
      go (filter (filter_value fn) (entities a)) (first_entity_lem fn r (entities a))
        (first_archetype_lem archs reads.1)
      ∙ ap (λ (t : List ℕ). ok (first_or_bad t))
          (sym (filter-append (filter_value fn) (entities a) (gather entities archs)))
    where
      go :
          (xs : List ℕ)
          → first_entity r fn (entities a) ≡ head xs
          → first_archetype r fn archs
            ≡ ok (first_or_bad (filter (filter_value fn) (gather entities archs)))
          → first_archetype r fn (a ∷ archs)
            ≡ ok (first_or_bad (xs ++ filter (filter_value fn) (gather entities archs)))
      go [] h rest = rw (reads.0, first_archetype) (rw h rest)
      go (x ∷ xs) h rest = rw (reads.0, first_archetype) (rw h refl)

-- What Collect, Count and MustFirst answer, with the caches that they leave.
pub search_answers :
    (r : Reader) (entities : ℕ → List ℕ) (s : Search) (caches : Caches)
    → AllRead r entities (evaluate r s caches).0
    → (collect r s caches
        ≡ (ok (sort_ids (found entities s (evaluate r s caches).0)), (evaluate r s caches).1))
      × (count_search r s caches
          ≡ (ok (length (found entities s (evaluate r s caches).0)), (evaluate r s caches).1))
      × (must_first r s caches ≡ (
        some (first_or_bad (found entities s (evaluate r s caches).0)),
        (evaluate r s caches).1,
      ))
unfolding collect each count_search must_first first
search_answers r entities s caches reads =
    let fn = s.component_property_filter in
    let archs = (evaluate r s caches).0 in
    (
      rw (each_archetype-collects r entities fn archs [] reads) refl,
      rw (count_archetypes_lem r entities fn archs 0 reads)
          (ap (λ (n : ℕ). (ok n, (evaluate r s caches).1)) (omega arith)),
      rw (first_archetype_lem r entities fn archs reads) refl,
    )

-- Where each of the archetypes that the evaluation returns can be read, Collect returns IDs in
-- ascending order, in which each entity found stands as often as it was found and no other does, Count
-- returns their number, and MustFirst the first that was found. MustFirst does not panic where none is
-- found: it returns the ID that is no entity's. All three leave the caches as the evaluation does.
pub search_agree :
    (r : Reader) (entities : ℕ → List ℕ) (s : Search) (caches : Caches)
    → AllRead r entities (evaluate r s caches).0
    → let (archs, left) = evaluate r s caches in
      ((ids : List ℕ) × (collect r s caches ≡ (ok ids, left))
        × Ascends ids
        × ((id : ℕ) → count id ids ≡ count id (found entities s archs)))
      × (count_search r s caches ≡ (ok (length (found entities s archs)), left))
      × (must_first r s caches ≡ (some (first_or_bad (found entities s archs)), left))
search_agree r entities s caches reads =
    let (collected, counted, firsts) = search_answers r entities s caches reads in
    let ids = found entities s (evaluate r s caches).0 in
    ((sort_ids ids, collected, sort_ids-Ascends ids, λ id. count-sort_ids id ids), counted, firsts)
