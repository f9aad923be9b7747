-- ===== src/Gamestate/Pipe/Effects.antt =====
-- What the transaction of redis.go does to the archetype key of an entity, and to the counters.
use world_engine.Base.{
  ℕ, ◌+◌, ◌%◌, ◌^◌, [], ◌∷◌, ◌≡◌, ◌≢◌, ◌∙◌, nat_eq, if◌then◌else◌, arith, none, Bool-cases, inl,
  inr, subst, ◌==◌, contains,
}
use world_engine.Base.GoMap.{lookup, keys, IsMap, contains-keys}
use world_engine.Gamestate.Types.{
  Env, incr, StorageKey, component_key, active_entity_id_key, next_entity_id_key,
  archetype_id_for_entity_id, last_finalized_tick_key,
}
use world_engine.Gamestate.Redis.{kept, bumped, wrote_num, effect, combine, effect-append, key_eq}
use world_engine.Gamestate.Ecb.{EntityCommandBuffer}
use world_engine.Gamestate.Pipe.{Commands, add_next_entity_id_to_pipe, deletions}
use world_engine.Gamestate.Pipe.Kinds.{
  encode_values-OfKind, active_changes-OfKind, component, next_id, archetype_of, active, archetypes,
  kind, OfKind, OkOfKind, effect-OfKind, deletions-OfKind, entity_changes-OfKind, Pipe,
}
use world_engine.Gamestate.Pipe.Changes.{
  origin_effect, no_change, changes_effect, ticked, combine-kept, next-OfKind, archs-OfKind,
}

module _ {e : Env} (m n : EntityCommandBuffer e) (pipe : Commands e) (p : Pipe m pipe n) where
  effect-whole :
      (k : StorageKey)
      → effect k (ticked pipe)
        ≡ combine
            (combine
              (combine
                (combine
                  (combine
                    (combine
                      (effect k (deletions m.comp_values_to_delete (keys m.comp_values_to_delete)))
                      (effect k p.sets))
                    (effect k (add_next_entity_id_to_pipe m [])))
                  (effect k p.archs))
                (effect k p.entities))
              (effect k p.actives))
            (effect k (incr last_finalized_tick_key ∷ []))
  effect-whole k = rw p.whole (simp effect-append)

  sets-OfKind : OfKind component p.sets
  sets-OfKind =
      subst (OkOfKind component) p.values_set
        (encode_values-OfKind p.types m.comp_values (keys m.comp_values))

  entities-OfKind : OfKind archetype_of p.entities
  entities-OfKind = subst (OkOfKind archetype_of) p.entities_set (
      entity_changes-OfKind e.Bytes m.entity_id_to_origin_arch_id m.entity_id_to_arch_id
        (keys m.entity_id_to_origin_arch_id))

  actives-OfKind : OfKind active p.actives
  actives-OfKind =
      subst (OkOfKind active) p.actives_set
        (active_changes-OfKind e.Bytes e.encode_ids m.active_entities (keys m.active_entities))

  module _ (k : StorageKey) where
    kept_dels :
        kind k ≢ component
        → effect k
            (deletions {Bytes = e.Bytes} m.comp_values_to_delete (keys m.comp_values_to_delete))
          ≡ kept
    kept_dels h =
        effect-OfKind k component _ h
          (deletions-OfKind e.Bytes m.comp_values_to_delete (keys m.comp_values_to_delete))

    kept_sets : kind k ≢ component → effect k p.sets ≡ kept
    kept_sets h = effect-OfKind k component p.sets h sets-OfKind

    kept_next : kind k ≢ next_id → effect k (add_next_entity_id_to_pipe m []) ≡ kept
    kept_next h = effect-OfKind k next_id (add_next_entity_id_to_pipe m []) h (next-OfKind m)

    kept_archs : kind k ≢ archetypes → effect k p.archs ≡ kept
    kept_archs h =
        effect-OfKind k archetypes p.archs h
          (subst (OkOfKind archetypes) p.archs_set (archs-OfKind m))

    kept_entities : kind k ≢ archetype_of → effect k p.entities ≡ kept
    kept_entities h = effect-OfKind k archetype_of p.entities h entities-OfKind

    kept_actives : kind k ≢ active → effect k p.actives ≡ kept
    kept_actives h = effect-OfKind k active p.actives h actives-OfKind

  entity_parts :
      (id : ℕ)
      → effect (archetype_id_for_entity_id id) (ticked pipe)
        ≡ effect (archetype_id_for_entity_id id) p.entities
  unfolding effect
  entity_parts id =
      let k = archetype_id_for_entity_id id in
      cc (
        effect-whole k,
        kept_dels k (λ h. cc),
        kept_sets k (λ h. cc),
        kept_next k (λ h. cc),
        kept_archs k (λ h. cc),
        kept_actives k (λ h. cc),
        combine-kept (effect k p.entities),
      )

  pub value_parts :
      (t id : ℕ)
      → effect (component_key t id) (ticked pipe)
        ≡ combine
            (effect
              (component_key t id)
              (deletions m.comp_values_to_delete (keys m.comp_values_to_delete)))
            (effect (component_key t id) p.sets)
  unfolding effect
  value_parts t id =
      let k = component_key t id in
      ground (
        arith,
        effect-whole k,
        kept_next k (λ h. cc),
        kept_archs k (λ h. cc),
        kept_entities k (λ h. cc),
        kept_actives k (λ h. cc),
      )

  pub active_parts :
      (arch : ℕ)
      → effect (active_entity_id_key arch) (ticked pipe)
        ≡ effect (active_entity_id_key arch) p.actives
  unfolding effect
  active_parts arch =
      let k = active_entity_id_key arch in
      cc (
        effect-whole k,
        kept_dels k (λ h. cc),
        kept_sets k (λ h. cc),
        kept_next k (λ h. cc),
        kept_archs k (λ h. cc),
        kept_entities k (λ h. cc),
        combine-kept (effect k p.actives),
      )

  pub entity_key_effect :
      (id : ℕ)
      → IsMap m.entity_id_to_origin_arch_id
      → effect (archetype_id_for_entity_id id) (ticked pipe)
        ≡ origin_effect (lookup id m.entity_id_to_arch_id) (lookup id m.entity_id_to_origin_arch_id)
  entity_key_effect id distinct =
      let origins = m.entity_id_to_origin_arch_id in
      entity_parts id ∙ elim (Bool-cases (contains (keys origins) id)) [
        | inl there ↦
            changes_effect e.Bytes origins m.entity_id_to_arch_id id (keys origins) (distinct id)
              there p.entities_set
        | inr missing ↦
            let absent : lookup id origins ≡ none = ground (arith, contains-keys id origins) in
            rw absent (
              no_change e.Bytes origins m.entity_id_to_arch_id id (keys origins) missing
                p.entities_set)
      ]

  pub next_id_effect : effect next_entity_id_key (ticked pipe) ≡ (
      if m.pending_entity_ids == 0
      then kept
      else wrote_num ((m.next_entity_id_saved + m.pending_entity_ids) % 2 ^ 64))
  unfolding effect add_next_entity_id_to_pipe
  next_id_effect =
      let k = next_entity_id_key in
      ground (
        arith,
        effect-whole k,
        kept_dels k (λ h. cc),
        kept_sets k (λ h. cc),
        kept_archs k (λ h. cc),
        kept_entities k (λ h. cc),
        kept_actives k (λ h. cc),
      )

  pub tick_effect : effect last_finalized_tick_key (ticked pipe) ≡ bumped
  unfolding effect
  tick_effect =
      let k = last_finalized_tick_key in
      ground (
        arith,
        effect-whole k,
        kept_dels k (λ h. cc),
        kept_sets k (λ h. cc),
        kept_next k (λ h. cc),
        kept_archs k (λ h. cc),
        kept_entities k (λ h. cc),
        kept_actives k (λ h. cc),
      )
