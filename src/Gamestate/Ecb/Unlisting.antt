-- ===== src/Gamestate/Ecb/Unlisting.antt =====
-- What RemoveEntity does before and after it takes the entity from its archetype's list.
use world_engine.Base.{ℕ, List, [], ◌∷◌, true, none, some, nat_eq, ◌≡◌, refl, arith, subst, All}
use world_engine.Base.GoMap.{lookup, lookup-insert, lookup-erase, lookup-insert_self}
use world_engine.Base.Exec.{ok, for_each}
use world_engine.Gamestate.Types.{Env, CompKey, comp_key_eq, ComponentMetadata}
use world_engine.Gamestate.Active.{ActiveEntities, swap_remove}
use world_engine.Gamestate.Active.Laws.{SwapRemoved, swap_remove-SwapRemoved}
use world_engine.Gamestate.Ecb.{
  EntityCommandBuffer, M, get_active_entities, get_archetype_for_entity,
}
use world_engine.Gamestate.Ecb.Entities.{delete_value}

abbrev pub key_of : {e : Env} → ComponentMetadata e → ℕ → CompKey
key_of c id = record { type_id = c.id; entity_id = id }

pub SwapRemoved-ok :
    (a b : ActiveEntities) (id : ℕ) → swap_remove a id ≡ ok b → SwapRemoved a id (ok b)
SwapRemoved-ok a b id h = subst (SwapRemoved a id) h (swap_remove-SwapRemoved a id)

module _ {e : Env} where
  -- A value is gone from memory and marked for deletion in redis.
  pub record IsMarked (key : CompKey) (n : EntityCommandBuffer e) : Type 0 where
    pub gone : lookup key n.comp_values ≡ none
    pub marked : lookup key n.comp_values_to_delete ≡ some true

  -- What the loop over the components keeps.
  pub record SameButValues (m n : EntityCommandBuffer e) : Type 0 where
    pub db : n.db_storage ≡ m.db_storage
    pub archs : n.entity_id_to_arch_id ≡ m.entity_id_to_arch_id
    pub active : n.active_entities ≡ m.active_entities
    pub origins : n.entity_id_to_origin_arch_id ≡ m.entity_id_to_origin_arch_id
    pub comps : n.arch_id_to_comps ≡ m.arch_id_to_comps
    pub arrays : n.arrays ≡ m.arrays

  unfoldable pub delete_loop : ℕ → List (ComponentMetadata e) → M e (Unit {0})
  delete_loop id cells = for_each cells λ c. delete_value (key_of c id)

  pub delete_loop_ok :
      (id : ℕ) (cells : List (ComponentMetadata e)) (m : EntityCommandBuffer e)
      → (delete_loop id cells m).0 ≡ ok tt
  unfolding delete_loop for_each delete_value
  delete_loop_ok id [] m = refl
  delete_loop_ok id (c ∷ cells) m = delete_loop_ok id cells (delete_value (key_of c id) m).1

  pub delete_loop_same :
      (id : ℕ) (cells : List (ComponentMetadata e)) (m : EntityCommandBuffer e)
      → SameButValues m (delete_loop id cells m).1
  unfolding delete_loop for_each delete_value
  delete_loop_same id [] m = record {
    db = refl;
    archs = refl;
    active = refl;
    origins = refl;
    comps = refl;
    arrays = refl;
  }
  delete_loop_same id (c ∷ cells) m =
      let rest = delete_loop_same id cells (delete_value (key_of c id) m).1 in
      record {
        db = rest.db;
        archs = rest.archs;
        active = rest.active;
        origins = rest.origins;
        comps = rest.comps;
        arrays = rest.arrays;
      }

  pub delete_loop_keeps :
      (id : ℕ) (cells : List (ComponentMetadata e)) (m : EntityCommandBuffer e) (key : CompKey)
      → IsMarked key m
      → IsMarked key (delete_loop id cells m).1
  unfolding delete_loop for_each delete_value
  delete_loop_keeps id [] m key h = h
  delete_loop_keeps id (c ∷ cells) m key h =
      delete_loop_keeps id cells (delete_value (key_of c id) m).1 key (record {
        gone = ground (arith, h.gone, lookup-erase (key_of c id) key m.comp_values);
        marked =
            ground (arith, h.marked, lookup-insert (key_of c id) key true m.comp_values_to_delete);
      })

  pub delete_loop_marks :
      (id : ℕ) (cells : List (ComponentMetadata e)) (m : EntityCommandBuffer e)
      → All (λ c. IsMarked (key_of c id) (delete_loop id cells m).1) cells
  unfolding delete_loop for_each delete_value
  delete_loop_marks id [] m = tt
  delete_loop_marks id (c ∷ cells) m = (
    delete_loop_keeps id cells (delete_value (key_of c id) m).1 (key_of c id) (record {
      gone = ground (arith, lookup-erase (key_of c id) (key_of c id) m.comp_values);
      marked = lookup-insert_self (key_of c id) true m.comp_values_to_delete;
    }),
    delete_loop_marks id cells (delete_value (key_of c id) m).1,
  )

  -- What reading an entity's archetype keeps.
  pub record SameStore (m n : EntityCommandBuffer e) : Type 0 where
    pub db : n.db_storage ≡ m.db_storage
    pub active : n.active_entities ≡ m.active_entities
    pub comps : n.arch_id_to_comps ≡ m.arch_id_to_comps
    pub arrays : n.arrays ≡ m.arrays

  pub get_archetype-SameStore :
      (id : ℕ) (m : EntityCommandBuffer e) → SameStore m (get_archetype_for_entity id m).1
  unfolding get_archetype_for_entity
  get_archetype-SameStore id m = ground arith

  -- What reading the entities of an archetype keeps, and where its answer then is.
  pub record Listed (m : EntityCommandBuffer e) (arch : ℕ) (a : ActiveEntities)
      (n : EntityCommandBuffer e) : Type 0 where
    pub db : n.db_storage ≡ m.db_storage
    pub archs : n.entity_id_to_arch_id ≡ m.entity_id_to_arch_id
    pub comps : n.arch_id_to_comps ≡ m.arch_id_to_comps
    pub arrays : n.arrays ≡ m.arrays
    pub listed : lookup arch n.active_entities ≡ some a

  pub get_active-Listed :
      (arch : ℕ) (m : EntityCommandBuffer e) {a : ActiveEntities} {n : EntityCommandBuffer e}
      → get_active_entities arch m ≡ (ok a, n)
      → Listed m arch a n
  unfolding get_active_entities
  get_active-Listed arch m {a = a} h = ground (arith, lookup-insert_self arch a m.active_entities)

  -- The answer depends on the memory of the archetypes' entities and on redis alone.
  pub get_active_same :
      (arch : ℕ) (m n : EntityCommandBuffer e)
      → SameStore m n
      → (get_active_entities arch n).0 ≡ (get_active_entities arch m).0
  unfolding get_active_entities
  get_active_same arch m n s = ground (arith, s.db, s.active)
