-- ===== src/Gamestate/Ecb/Components.antt =====
-- ecb.go: the components of an entity and their values.
use world_engine.Base.{
  ℕ, ◌-◌, List, [], ◌∷◌, Bool, false, not, nat_eq, if◌then◌else◌, ◌==◌, ◌||◌, map, length, filter,
}
use world_engine.Base.GoMap.{insert}
use world_engine.Base.Exec.{ok, pure, fail, lift, gets, ◌>>=◌, ◌>>◌, attempt}
use world_engine.Filter.{match_component_metadata}
use world_engine.Gamestate.Types.{
  Env, ComponentMetadata, CompKey, comp_key_eq, component_key, is_redis_nil,
  component_not_on_entity, component_already_on_entity, entity_must_have_at_least_one_component,
}
use world_engine.Gamestate.MapStorage.{get}
use world_engine.Gamestate.CompSets.{Slice, elements, append, allocate}
use world_engine.Gamestate.Ecb.{M, move_entity_by_archetype}
use world_engine.Gamestate.Ecb.Archetypes.{
  get_component_types_for_entity, get_or_make_arch_id_for_components, component_of, sort_components,
}
use world_engine.Gamestate.Ecb.Entities.{delete_value}

module _ {e : Env} where
  abbrev pub set_value : CompKey → e.Any → M e (Unit {0})
  set_value key value m = (ok tt, record m { comp_values = insert key value m.comp_values })

  -- `filter.MatchComponentMetadata(comps, cType)`
  abbrev pub has_component : Slice → ComponentMetadata e → M e Bool
  has_component comps c m = (
    ok (match_component_metadata (map component_of (elements m.arrays comps)) (component_of c)),
    m,
  )

  unfoldable pub set_component_for_entity : ComponentMetadata e → ℕ → e.Any → M e (Unit {0})
  unfolding ◌>>=◌ get_component_types_for_entity match_component_metadata elements
  set_component_for_entity c id value = do
    comps ← get_component_types_for_entity id
    there ← has_component comps c
    if not there
        then fail component_not_on_entity
        else set_value (record { type_id = c.id; entity_id = id }) value

  -- The stored bytes, or those of the default value.
  unfoldable pub fetch_bytes : ComponentMetadata e → ℕ → M e e.Bytes
  unfolding attempt is_redis_nil
  fetch_bytes c id =
      attempt (λ m. (e.get_bytes m.db_storage (component_key c.id id), m)) pure
        λ error. if not (is_redis_nil error) then fail error else lift c.new

  unfoldable pub get_component_for_entity : ComponentMetadata e → ℕ → M e e.Any
  unfolding ◌>>=◌ attempt get_component_types_for_entity match_component_metadata elements
      fetch_bytes
  get_component_for_entity c id =
      let key : CompKey = record { type_id = c.id; entity_id = id } in
      attempt (λ m. (get key m.comp_values, m)) pure
        λ _. do
          comps ← get_component_types_for_entity id
          there ← has_component comps c
          if not there then fail component_not_on_entity else (do
            bz ← fetch_bytes c id
            value ← lift (c.decode bz)
            set_value key value
            pure value)

  unfoldable pub get_component_for_entity_in_raw_json : ComponentMetadata e → ℕ → M e e.Bytes
  unfolding ◌>>=◌ get_component_for_entity
  get_component_for_entity_in_raw_json c id = do
    value ← get_component_for_entity c id
    lift (c.encode value)

  -- `append(comps, cType)`, which may write to the array that `comps` has in the map.
  abbrev pub append_component : Slice → ComponentMetadata e → M e Slice
  append_component comps c m =
      let (s, arrays') = append m.arrays comps c in (ok s, record m { arrays = arrays' })

  unfoldable pub add_component_to_entity : ComponentMetadata e → ℕ → M e (Unit {0})
  unfolding ◌>>=◌ get_component_types_for_entity match_component_metadata elements append
      get_or_make_arch_id_for_components move_entity_by_archetype
  add_component_to_entity c id = do
    from_comps ← get_component_types_for_entity id
    there ← has_component from_comps c
    if there then fail component_already_on_entity else (do
      to_comps ← append_component from_comps c
      sort_components to_comps
      to_arch ← get_or_make_arch_id_for_components to_comps
      from_arch ← get_or_make_arch_id_for_components from_comps
      move_entity_by_archetype from_arch to_arch id)

  -- `make([]types.ComponentMetadata, 0, len(comps)-1)` filled with the other components
  abbrev pub allocate_components : List (ComponentMetadata e) → ℕ → M e Slice
  allocate_components cells cap m =
      let (s, arrays') = allocate m.arrays cells cap in (ok s, record m { arrays = arrays' })

  abbrev pub others : ComponentMetadata e → List (ComponentMetadata e) → List (ComponentMetadata e)
  others c = filter (λ d. not (d.id == c.id))

  abbrev pub has_id : ComponentMetadata e → List (ComponentMetadata e) → Bool
  has_id c [] = false
  has_id c (d ∷ ds) = (d.id == c.id) || has_id c ds

  unfoldable pub remove_component_from_entity : ComponentMetadata e → ℕ → M e (Unit {0})
  unfolding ◌>>=◌ get_component_types_for_entity elements allocate delete_value
      get_or_make_arch_id_for_components move_entity_by_archetype
  remove_component_from_entity c id = do
    comps ← get_component_types_for_entity id
    cells ← gets (λ m. elements m.arrays comps)
    new_comp_set ← allocate_components (others c cells) (length cells - 1)
    if not (has_id c cells)
        then fail component_not_on_entity
        else if length (others c cells) == 0
        then fail entity_must_have_at_least_one_component
        else (do
          delete_value (record { type_id = c.id; entity_id = id })
          from_arch ← get_or_make_arch_id_for_components comps
          to_arch ← get_or_make_arch_id_for_components new_comp_set
          move_entity_by_archetype from_arch to_arch id)
