-- ===== src/Gamestate/Ecb/Reset.antt =====
-- ecb.go: discarding the pending changes.
use world_engine.Base.{ℕ, List, [], ◌∷◌, false, nat_eq}
use world_engine.Base.GoMap.{GoMap, erase, keys}
use world_engine.Gamestate.Types.{Env, comp_key_eq}
use world_engine.Gamestate.Ecb.{EntityCommandBuffer}

-- `for _, k := range ks { m.Delete(k) }`
unfoldable pub erase_all : {V : Type 0} → List ℕ → GoMap ℕ V → GoMap ℕ V
erase_all [] m = m
erase_all (k ∷ ks) m = erase_all ks (erase k m)

module _ {e : Env} where
  -- No MapStorage operation that it calls can fail.
  unfoldable pub discard_pending : EntityCommandBuffer e → EntityCommandBuffer e
  unfolding erase_all
  discard_pending m = record m {
    comp_values = [];
    active_entities = [];
    entity_id_to_arch_id = erase_all (keys m.entity_id_to_origin_arch_id) m.entity_id_to_arch_id;
    entity_id_to_origin_arch_id = [];
    is_entity_id_loaded = false;
    pending_entity_ids = 0;
    arch_id_to_comps = erase_all m.pending_arch_ids m.arch_id_to_comps;
    pending_arch_ids = [];
  }
