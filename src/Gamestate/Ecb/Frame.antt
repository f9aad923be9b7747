-- ===== src/Gamestate/Ecb/Frame.antt =====
-- What the helpers of ecb.go leave alone.
use world_engine.Base.{ℕ, ◌≡◌, arith, nat_eq}
use world_engine.Gamestate.Types.{Env}
use world_engine.Gamestate.CompSets.{Slice}
use world_engine.Gamestate.Ecb.{EntityCommandBuffer, get_active_entities}
use world_engine.Gamestate.Ecb.Archetypes.{get_or_make_arch_id_for_components}

-- The fields that neither the archetypes nor the active entities touch.
pub record SameEntities {e : Env} (m n : EntityCommandBuffer e) : Type 0 where
  pub db : n.db_storage ≡ m.db_storage
  pub saved : n.next_entity_id_saved ≡ m.next_entity_id_saved
  pub pending : n.pending_entity_ids ≡ m.pending_entity_ids
  pub loaded : n.is_entity_id_loaded ≡ m.is_entity_id_loaded
  pub archs : n.entity_id_to_arch_id ≡ m.entity_id_to_arch_id
  pub origins : n.entity_id_to_origin_arch_id ≡ m.entity_id_to_origin_arch_id

module _ {e : Env} where
  pub get_or_make-SameEntities :
      (comps : Slice) (m : EntityCommandBuffer e)
      → SameEntities m (get_or_make_arch_id_for_components comps m).1
  unfolding get_or_make_arch_id_for_components
  get_or_make-SameEntities comps m = ground arith

  pub get_active-SameEntities :
      (arch : ℕ) (m : EntityCommandBuffer e) → SameEntities m (get_active_entities arch m).1
  unfolding get_active_entities
  get_active-SameEntities arch m = ground arith
