-- ===== src/Gamestate/ReadOnly.antt =====
-- cardinal/gamestate/read_only.go: the reads of the game state as redis has it. The component types
-- are those of the buffer that it was made from, at that time: the maps that Go shares with the buffer
-- are copies here. The archetypes are loaded anew when one is missing.
use world_engine.Base.{
  ℕ, suc, zero, ◌+◌, ◌-◌, List, [], ◌∷◌, Option, none, some, if◌then◌else◌, nat_eq, map,
}
use world_engine.Base.GoMap.{GoMap, keys}
use world_engine.Base.Exec.{Result, ok, err, Exec, pure, fail, lift, ◌>>=◌, ◌>>◌, attempt}
use world_engine.Filter.{ComponentFilter, matches_components}
use world_engine.Gamestate.Types.{
  Error, Env, ComponentMetadata, component_key, archetype_id_for_entity_id, active_entity_id_key,
  no_arch_id_mapping_found, is_archetype_not_found,
}
use world_engine.Gamestate.MapStorage.{get, len}
use world_engine.Gamestate.CompSets.{Slice, Arrays, elements, sort_component_set}
use world_engine.Gamestate.Ecb.{EntityCommandBuffer}
use world_engine.Gamestate.Ecb.Archetypes.{find_arch, component_of, elements_or_nil}
use world_engine.Gamestate.Pipe.Reload.{get_arch_id_to_comp_types_from_redis}

pub record ReadOnlyManager (e : Env) : Type 0 where
  pub storage : e.Db
  pub type_to_component : GoMap ℕ (ComponentMetadata e)
  pub arch_id_to_comps : GoMap ℕ Slice
  pub arrays : Arrays e

abbrev pub R : Env → Type 0 → Type 0
R e A = Exec Error (ReadOnlyManager e) A

module _ {e : Env} where
  abbrev or_nil : Option (GoMap ℕ (ComponentMetadata e)) → GoMap ℕ (ComponentMetadata e)
  or_nil none = []
  or_nil (some types) = types

  unfoldable pub to_read_only : EntityCommandBuffer e → ReadOnlyManager e
  to_read_only m = record {
    storage = m.db_storage;
    type_to_component = or_nil m.type_to_component;
    arch_id_to_comps = m.arch_id_to_comps;
    arrays = m.arrays;
  }

  abbrev keep : Option (GoMap ℕ Slice × Arrays e) → R e (Unit {0})
  keep none r = (err no_arch_id_mapping_found, r)
  keep (some (archs, arrays')) r = (ok tt, record r { arch_id_to_comps = archs; arrays = arrays' })

  unfoldable pub refresh_arch_id_to_comp_types : R e (Unit {0})
  unfolding ◌>>=◌ get_arch_id_to_comp_types_from_redis
  refresh_arch_id_to_comp_types = do
    loaded ← λ r. (get_arch_id_to_comp_types_from_redis r.storage r.type_to_component r.arrays, r)
    keep loaded

  unfoldable pub get_component_for_entity_in_raw_json : ComponentMetadata e → ℕ → R e e.Bytes
  get_component_for_entity_in_raw_json c_type id r =
      (e.get_bytes r.storage (component_key c_type.id id), r)

  unfoldable pub get_component_for_entity : ComponentMetadata e → ℕ → R e e.Any
  unfolding ◌>>=◌ get_component_for_entity_in_raw_json
  get_component_for_entity c_type id = do
    bz ← get_component_for_entity_in_raw_json c_type id
    lift (c_type.decode bz)

  unfoldable pub get_components_for_arch_id : ℕ → R e Slice
  unfolding ◌>>=◌ attempt refresh_arch_id_to_comp_types
  get_components_for_arch_id arch =
      attempt (λ r. (get arch r.arch_id_to_comps, r)) pure
        λ _. do refresh_arch_id_to_comp_types; λ r. (get arch r.arch_id_to_comps, r)

  unfoldable pub get_component_types_for_entity : ℕ → R e Slice
  unfolding ◌>>=◌ get_components_for_arch_id
  get_component_types_for_entity id = do
    num ← λ r. (e.get_num r.storage (archetype_id_for_entity_id id), r)
    get_components_for_arch_id num

  unfoldable pub get_entities_for_arch_id : ℕ → ReadOnlyManager e → Result Error (List ℕ)
  get_entities_for_arch_id arch r = elim (e.get_bytes r.storage (active_entity_id_key arch)) [
    | err error ↦ err error
    | ok bz ↦ e.decode_ids bz
  ]

  -- One pass over the map. `archetype_not_found` stands for the error of GetArchIDForComponents here.
  abbrev found_in : Slice → R e ℕ
  found_in components r = (
    find_arch r.arrays r.arch_id_to_comps (elements r.arrays components) (keys r.arch_id_to_comps),
    r,
  )

  abbrev sorted : Slice → R e (Unit {0})
  sorted components r =
      let (answer, arrays') = sort_component_set r.arrays components in
      (answer, record r { arrays = arrays' })

  abbrev or_refresh : Slice → Error → R e ℕ
  unfolding ◌>>=◌
  or_refresh components error =
      if is_archetype_not_found error
      then refresh_arch_id_to_comp_types >> found_in components
      else fail error

  unfoldable pub get_arch_id_for_components : Slice → R e ℕ
  unfolding ◌>>=◌ attempt find_arch elements sort_component_set is_archetype_not_found
      refresh_arch_id_to_comp_types
  get_arch_id_for_components components =
      sorted components >> attempt (found_in components) pure (or_refresh components)

  unfoldable pub search_loop : ReadOnlyManager e → ComponentFilter → ℕ → ℕ → List ℕ
  unfolding elements
  search_loop r filter zero i = []
  search_loop r filter (suc rounds) i =
      let rest = search_loop r filter rounds (i + 1) in
      if matches_components filter
        (map component_of (elements_or_nil r.arrays (get i r.arch_id_to_comps)))
      then i ∷ rest
      else rest

  abbrev searched :
      ComponentFilter → ℕ → Result Error (Unit {0}) × ReadOnlyManager e → List ℕ × ReadOnlyManager e
  unfolding search_loop
  searched filter start (err error, r) = ([], r)
  searched filter start (ok _, r) = (search_loop r filter (len r.arch_id_to_comps - start) start, r)

  -- Without a load, no archetype is found.
  unfoldable pub search_from : ComponentFilter → ℕ → ReadOnlyManager e → List ℕ × ReadOnlyManager e
  unfolding refresh_arch_id_to_comp_types search_loop
  search_from filter start r = searched filter start (refresh_arch_id_to_comp_types r)

  abbrev counted : Result Error (Unit {0}) × ReadOnlyManager e → ℕ × ReadOnlyManager e
  counted (err error, r) = (0, r)
  counted (ok _, r) = (len r.arch_id_to_comps, r)

  unfoldable pub archetype_count : ReadOnlyManager e → ℕ × ReadOnlyManager e
  unfolding refresh_arch_id_to_comp_types
  archetype_count r = counted (refresh_arch_id_to_comp_types r)
