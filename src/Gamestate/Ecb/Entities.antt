-- ===== src/Gamestate/Ecb/Entities.antt =====
-- ecb.go: creating and removing entities.
use world_engine.Base.{ℕ, zero, suc, List, [], ◌∷◌, ◌++◌, true, none, nat_eq}
use world_engine.Base.GoMap.{insert, erase}
use world_engine.Base.Exec.{ok, pure, lift, gets, ◌>>=◌, ◌>>◌, for_each}
use world_engine.Gamestate.Types.{Env, CompKey, comp_key_eq}
use world_engine.Gamestate.Active.{ActiveEntities, swap_remove}
use world_engine.Gamestate.CompSets.{Slice, elements}
use world_engine.Gamestate.Ecb.{
  M, set_arch_id, set_origin, get_archetype_for_entity, get_active_entities, set_active_entities,
  remember_origin, next_entity_id,
}
use world_engine.Gamestate.Ecb.Archetypes.{
  get_component_types_for_arch_id, get_or_make_arch_id_for_components,
}

-- `ids[0]`; the list has one element.
abbrev pub first_id : List ℕ → ℕ
first_id [] = 0
first_id (id ∷ ids) = id

module _ {e : Env} where
  -- `m.compValues.Delete(key)` and `m.compValuesToDelete.Set(key, true)`
  unfoldable pub delete_value : CompKey → M e (Unit {0})
  delete_value key m = (
    ok tt,
    record m {
      comp_values = erase key m.comp_values;
      comp_values_to_delete = insert key true m.comp_values_to_delete;
    },
  )

  abbrev pub forget_arch_id : ℕ → M e (Unit {0})
  forget_arch_id id m = (ok tt, record m { entity_id_to_arch_id = erase id m.entity_id_to_arch_id })

  unfoldable pub remove_entity : ℕ → M e (Unit {0})
  unfolding ◌>>=◌ get_archetype_for_entity get_active_entities swap_remove set_active_entities
      remember_origin get_component_types_for_arch_id delete_value for_each elements
  remove_entity id = do
    arch ← get_archetype_for_entity id
    active ← get_active_entities arch
    left ← lift (swap_remove active id)
    set_active_entities arch left
    remember_origin id arch
    forget_arch_id id
    comps ← get_component_types_for_arch_id arch
    cells ← gets (λ m. elements m.arrays comps)
    for_each cells λ c. delete_value (record { type_id = c.id; entity_id = id })

  -- One round of the loop of CreateManyEntities, on the IDs and the archetype's entities so far.
  unfoldable pub create_one : ℕ → List ℕ × ActiveEntities → M e (List ℕ × ActiveEntities)
  unfolding ◌>>=◌ next_entity_id
  create_one arch (ids, active) = do
    id ← next_entity_id
    set_arch_id id arch
    set_origin id none
    pure (ids ++ id ∷ [], record { ids = active.ids ++ id ∷ []; modified = true })

  unfoldable pub create_loop : ℕ → ℕ → List ℕ × ActiveEntities → M e (List ℕ × ActiveEntities)
  unfolding ◌>>=◌ create_one
  create_loop zero arch acc = pure acc
  create_loop (suc num) arch acc = create_one arch acc >>= create_loop num arch

  unfoldable pub create_many_entities : ℕ → Slice → M e (List ℕ)
  unfolding ◌>>=◌ get_or_make_arch_id_for_components get_active_entities set_active_entities
      create_loop
  create_many_entities num comps = do
    arch ← get_or_make_arch_id_for_components comps
    active ← get_active_entities arch
    made ← create_loop num arch ([], active)
    set_active_entities arch made.1
    pure made.0

  unfoldable pub create_entity : Slice → M e ℕ
  unfolding ◌>>=◌ create_many_entities
  create_entity comps = do ids ← create_many_entities 1 comps; pure (first_id ids)
