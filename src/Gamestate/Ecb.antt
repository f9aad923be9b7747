-- ===== src/Gamestate/Ecb.antt =====
-- cardinal/gamestate/ecb.go: the EntityCommandBuffer, its state and the helpers that load from
-- redis; its exported methods are in the modules below this one. The `VolatileStorage`s are the
-- MapStorages of map.go, whose writes cannot fail. Logging and tracing are left out.
pub mod Archetypes
pub mod Frame
pub mod Create
pub mod Unlisting
pub mod Removal
pub mod Overwriting
pub mod Entities
pub mod Components
pub mod Reset
use world_engine.Base.{
  ℕ, ◌+◌, ◌%◌, ◌^◌, List, [], ◌∷◌, ◌++◌, Bool, true, false, Option, none, some, nat_eq,
  if◌then◌else◌,
}
use world_engine.Base.GoMap.{GoMap, lookup, insert, erase, keys}
use world_engine.Base.Exec.{
  Result, ok, err, Exec, pure, fail, lift, gets, modify, ◌>>=◌, ◌>>◌, attempt,
}
use world_engine.Gamestate.Types.{
  Error, Env, ComponentMetadata, CompKey, comp_key_eq, StorageKey, archetype_id_for_entity_id,
  next_entity_id_key, active_entity_id_key, entity_does_not_exist, is_redis_nil,
}
use world_engine.Gamestate.MapStorage.{get, new_map_storage}
use world_engine.Gamestate.Active.{ActiveEntities, swap_remove}
use world_engine.Gamestate.CompSets.{Slice, Arrays}

-- `entity_id_to_origin_arch_id` holds `none` for `doesNotExistArchetypeID`, which is -1 and equal
-- to no archetype ID. `type_to_component` is `none` for `nil`.
pub record EntityCommandBuffer (e : Env) : Type 0 where
  pub db_storage : e.Db
  pub comp_values : GoMap CompKey e.Any
  pub comp_values_to_delete : GoMap CompKey Bool
  pub type_to_component : Option (GoMap ℕ (ComponentMetadata e))
  pub active_entities : GoMap ℕ ActiveEntities
  pub next_entity_id_saved : ℕ
  pub pending_entity_ids : ℕ
  pub is_entity_id_loaded : Bool
  pub entity_id_to_arch_id : GoMap ℕ ℕ
  pub entity_id_to_origin_arch_id : GoMap ℕ (Option ℕ)
  pub arch_id_to_comps : GoMap ℕ Slice
  pub pending_arch_ids : List ℕ
  -- the memory in which the slices of component metadata live
  pub arrays : Arrays e

abbrev pub M : Env → Type 0 → Type 0
M e A = Exec Error (EntityCommandBuffer e) A

-- The error of a failed read of an entity's archetype ID.
abbrev pub missing_entity : Error → Error
missing_entity error = if is_redis_nil error then entity_does_not_exist else error

module _ {e : Env} where
  unfoldable pub new_entity_command_buffer : e.Db → EntityCommandBuffer e
  new_entity_command_buffer db = record {
    db_storage = db;
    comp_values = [];
    comp_values_to_delete = [];
    type_to_component = none;
    active_entities = [];
    next_entity_id_saved = 0;
    pending_entity_ids = 0;
    is_entity_id_loaded = false;
    entity_id_to_arch_id = [];
    entity_id_to_origin_arch_id = [];
    arch_id_to_comps = [];
    pending_arch_ids = [];
    arrays = [];
  }

  -- `m.entityIDToArchID.Set(id, archID)`, and so for the other maps
  abbrev pub set_arch_id : ℕ → ℕ → M e (Unit {0})
  set_arch_id id arch m =
      (ok tt, record m { entity_id_to_arch_id = insert id arch m.entity_id_to_arch_id })

  abbrev pub set_origin : ℕ → Option ℕ → M e (Unit {0})
  set_origin id origin m = (
    ok tt,
    record m { entity_id_to_origin_arch_id = insert id origin m.entity_id_to_origin_arch_id },
  )

  abbrev pub set_active : ℕ → ActiveEntities → M e (Unit {0})
  set_active arch active m =
      (ok tt, record m { active_entities = insert arch active m.active_entities })

  -- Memory first, then redis, whose answer is kept in memory.
  unfoldable pub get_archetype_for_entity : ℕ → M e ℕ
  unfolding attempt ◌>>=◌ is_redis_nil
  get_archetype_for_entity id =
      attempt (λ m. (get id m.entity_id_to_arch_id, m)) pure
        λ _.
          attempt (λ m. (e.get_num m.db_storage (archetype_id_for_entity_id id), m))
            (λ num. do set_arch_id id num; pure num) (λ error. fail (missing_entity error))

  abbrev pub counter_loaded : ℕ → M e (Unit {0})
  counter_loaded next_id m = (
    ok tt,
    record m { next_entity_id_saved = next_id; pending_entity_ids = 0; is_entity_id_loaded = true },
  )

  -- The counter is loaded on the first call; a missing key means that no entity was ever made.
  unfoldable pub load_next_entity_id : M e (Unit {0})
  unfolding attempt ◌>>=◌ is_redis_nil
  load_next_entity_id =
      attempt (λ m. (e.get_num m.db_storage next_entity_id_key, m)) counter_loaded
        (λ error. if is_redis_nil error then counter_loaded 0 else fail error)

  -- uint64 arithmetic
  unfoldable pub take_entity_id : M e ℕ
  take_entity_id m = (
    ok ((m.next_entity_id_saved + m.pending_entity_ids) % 2 ^ 64),
    record m { pending_entity_ids = (m.pending_entity_ids + 1) % 2 ^ 64 },
  )

  unfoldable pub next_entity_id : M e ℕ
  unfolding load_next_entity_id take_entity_id ◌>>=◌
  next_entity_id m =
      if m.is_entity_id_loaded then take_entity_id m else (load_next_entity_id >> take_entity_id) m

  unfoldable pub load_active_ids : ℕ → M e (List ℕ)
  unfolding attempt ◌>>=◌ is_redis_nil
  load_active_ids arch =
      attempt (λ m. (e.get_bytes m.db_storage (active_entity_id_key arch), m))
        (λ bz. lift (e.decode_ids bz)) (λ error. if is_redis_nil error then pure [] else fail error)

  unfoldable pub get_active_entities : ℕ → M e ActiveEntities
  unfolding attempt ◌>>=◌ load_active_ids
  get_active_entities arch =
      attempt (λ m. (get arch m.active_entities, m)) pure
        λ _. do
          ids ← load_active_ids arch
          let result : ActiveEntities = record { ids = ids; modified = false }
          set_active arch result
          pure result

  unfoldable pub set_active_entities : ℕ → ActiveEntities → M e (Unit {0})
  set_active_entities arch active = set_active arch (record active { modified = true })

  -- `if _, err := m.entityIDToOriginArchID.Get(id); err != nil { … Set(id, archID) }`
  unfoldable pub remember_origin : ℕ → ℕ → M e (Unit {0})
  unfolding attempt pure
  remember_origin id arch =
      attempt (λ m. (get id m.entity_id_to_origin_arch_id, m)) (λ _. pure tt)
        (λ _. set_origin id (some arch))

  unfoldable pub move_entity_by_archetype : ℕ → ℕ → ℕ → M e (Unit {0})
  unfolding ◌>>=◌ remember_origin get_active_entities set_active_entities swap_remove
  move_entity_by_archetype from_arch to_arch id = do
    remember_origin id from_arch
    set_arch_id id to_arch
    from ← get_active_entities from_arch
    left ← lift (swap_remove from id)
    set_active_entities from_arch left
    to ← get_active_entities to_arch
    set_active_entities to_arch (record to { ids = to.ids ++ id ∷ [] })
