-- ===== src/Gamestate/Ecb/Archetypes.antt =====
-- ecb.go: archetypes, their components and their entities.
use world_engine.Base.{
  ℕ, zero, suc, ◌+◌, ◌-◌, List, [], ◌∷◌, ◌++◌, nat_eq, if◌then◌else◌, map, ◌==◌,
}
use world_engine.Base.GoMap.{GoMap, insert, keys}
use world_engine.Base.Exec.{Result, ok, err, pure, fail, ◌>>=◌, ◌>>◌, attempt}
use world_engine.Filter.{Component, ComponentFilter, matches_components}
use world_engine.Gamestate.Types.{
  Error, Env, ComponentMetadata, must_provide_component, archetype_not_found,
  is_archetype_not_found,
}
use world_engine.Gamestate.MapStorage.{get, len}
use world_engine.Gamestate.CompSets.{
  Slice, Arrays, elements, sort_component_set, is_component_set_match,
}
use world_engine.Gamestate.Ecb.{
  EntityCommandBuffer, M, get_archetype_for_entity, get_active_entities,
}

module _ {e : Env} where
  unfoldable pub get_component_types_for_arch_id : ℕ → M e Slice
  get_component_types_for_arch_id arch m = (get arch m.arch_id_to_comps, m)

  unfoldable pub get_component_types_for_entity : ℕ → M e Slice
  unfolding ◌>>=◌ get_archetype_for_entity get_component_types_for_arch_id
  get_component_types_for_entity id = do
    arch ← get_archetype_for_entity id
    get_component_types_for_arch_id arch

  -- `m.archIDToComps.Get(archID)` for each key; the first archetype with these components.
  unfoldable pub find_arch :
      Arrays e → GoMap ℕ Slice → List (ComponentMetadata e) → List ℕ → Result Error ℕ
  find_arch arrays archs components [] = err archetype_not_found
  find_arch arrays archs components (arch ∷ rest) =
      let later = find_arch arrays archs components rest in
      elim (get arch archs) [
        | err error ↦ err error
        | ok comps ↦
            if is_component_set_match (elements arrays comps) components then ok arch else later
      ]

  abbrev pub sort_components : Slice → M e (Unit {0})
  sort_components components m =
      let (r, arrays') = sort_component_set m.arrays components in
      (r, record m { arrays = arrays' })

  unfoldable pub get_arch_id_for_components : Slice → M e ℕ
  unfolding ◌>>=◌ sort_component_set find_arch elements
  get_arch_id_for_components components m =
      if components.len == 0
      then (err must_provide_component, m)
      else (do
        sort_components components
        λ m. (
          find_arch m.arrays m.arch_id_to_comps (elements m.arrays components)
              (keys m.arch_id_to_comps),
          m,
        ))
          m

  -- The slice itself is stored, so the map shares its array with the caller.
  unfoldable pub make_arch_id : Slice → M e ℕ
  make_arch_id comps m =
      let id = len m.arch_id_to_comps in
      (
        ok id,
        record m {
          arch_id_to_comps = insert id comps m.arch_id_to_comps;
          pending_arch_ids = m.pending_arch_ids ++ id ∷ [];
        },
      )

  unfoldable pub get_or_make_arch_id_for_components : Slice → M e ℕ
  unfolding attempt get_arch_id_for_components is_archetype_not_found make_arch_id
  get_or_make_arch_id_for_components comps =
      attempt (get_arch_id_for_components comps) pure
        λ error. if is_archetype_not_found error then make_arch_id comps else fail error

  unfoldable pub get_entities_for_arch_id : ℕ → M e (List ℕ)
  unfolding ◌>>=◌ get_active_entities
  get_entities_for_arch_id arch = do active ← get_active_entities arch; pure active.ids

  abbrev pub component_of : ComponentMetadata e → Component
  component_of c = record { name = c.name }

  -- A failed `Get` leaves the nil slice.
  abbrev pub elements_or_nil : Arrays e → Result Error Slice → List (ComponentMetadata e)
  elements_or_nil arrays (ok s) = elements arrays s
  elements_or_nil arrays (err error) = []

  -- `for i := start; i < m.archIDToComps.Len(); i++`, with the rounds that are left
  unfoldable pub search_loop : EntityCommandBuffer e → ComponentFilter → ℕ → ℕ → List ℕ
  unfolding elements
  search_loop m filter zero i = []
  search_loop m filter (suc rounds) i =
      let rest = search_loop m filter rounds (i + 1) in
      if matches_components filter
        (map component_of (elements_or_nil m.arrays (get i m.arch_id_to_comps)))
      then i ∷ rest
      else rest

  -- The archetypes that the iterator of SearchFrom goes through.
  unfoldable pub search_from : EntityCommandBuffer e → ComponentFilter → ℕ → List ℕ
  unfolding search_loop
  search_from m filter start = search_loop m filter (len m.arch_id_to_comps - start) start

  unfoldable pub archetype_count : EntityCommandBuffer e → ℕ
  archetype_count m = len m.arch_id_to_comps
