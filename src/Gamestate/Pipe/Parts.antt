-- ===== src/Gamestate/Pipe/Parts.antt =====
-- The parts of the transaction that redis.go puts together, and the keys that each part names.
use mathlib.Core.List.{append-nil}
use world_engine.Base.{
  ℕ, List, [], ◌∷◌, ◌++◌, ◌≡◌, refl, sym, ◌∙◌, ap, nat_eq, arith, Option, none, some, inl, inr,
  subst,
}
use world_engine.Base.GoMap.{GoMap, keys}
use world_engine.Base.Exec.{ok, bind-ok, Result-cases}
use world_engine.Gamestate.Types.{
  Env, ComponentMetadata, comp_key_eq, set_bytes, arch_ids_to_comp_types_key,
}
use world_engine.Gamestate.Redis.{key_eq}
use world_engine.Gamestate.Ecb.{EntityCommandBuffer}
use world_engine.Gamestate.Pipe.{
  Commands, deletions, encode_values, add_component_changes_to_pipe, add_next_entity_id_to_pipe,
  pipe_archs, add_pending_arch_ids_to_pipe, entity_changes, add_entity_id_to_arch_id_to_pipe,
  active_changes, add_active_entity_ids_to_pipe, registered, queue_all, queue_rest,
  make_pipe_of_redis_commands, encode_arch_id_to_comp_types,
}
use world_engine.Gamestate.Pipe.Kinds.{and_then-ok, Pipe}

module _ {e : Env} where
  next-append :
      (m : EntityCommandBuffer e) (p : Commands e)
      → add_next_entity_id_to_pipe m p ≡ p ++ add_next_entity_id_to_pipe m []
  unfolding add_next_entity_id_to_pipe
  next-append m p = ground (arith, append-nil p)

  archs-append :
      (m : EntityCommandBuffer e) (p : Commands e) {q : Commands e}
      → add_pending_arch_ids_to_pipe m p ≡ ok q
      → (a : Commands e) × (add_pending_arch_ids_to_pipe m [] ≡ ok a) × (q ≡ p ++ a)
  unfolding add_pending_arch_ids_to_pipe
  archs-append m p h = from m.pending_arch_ids h
    where
      from :
          (ids : List ℕ) {q : Commands e}
          → pipe_archs m p ids ≡ ok q
          → (a : Commands e) × (pipe_archs m [] ids ≡ ok a) × (q ≡ p ++ a)
      from [] h = ([], refl, ground (arith, append-nil p))
      from (id ∷ ids) h =
          let (bz, e1, e2) = and_then-ok (encode_arch_id_to_comp_types m) _ h in
          (set_bytes arch_ids_to_comp_types_key bz ∷ [], ground arith, ground arith)

  changes_made :
      (m : EntityCommandBuffer e) (types : GoMap ℕ (ComponentMetadata e)) {p : Commands e}
      {n : EntityCommandBuffer e}
      → add_component_changes_to_pipe types [] m ≡ (ok p, n)
      → (sets : Commands e) × (p
          ≡ deletions m.comp_values_to_delete (keys m.comp_values_to_delete) ++ sets)
        × (encode_values types m.comp_values (keys m.comp_values) ≡ ok sets)
        × (n ≡ record m { comp_values_to_delete = [] })
  unfolding add_component_changes_to_pipe
  changes_made m types h =
      elim (Result-cases (encode_values types m.comp_values (keys m.comp_values))) [
        | inl (sets, e1) ↦ (sets, ground arith, e1, ground arith)
        | inr (x, e1) ↦ absurd (ground arith)
      ]

  entities-append :
      (m : EntityCommandBuffer e) (p : Commands e) {q : Commands e}
      → add_entity_id_to_arch_id_to_pipe m p ≡ ok q
      → (cs : Commands e) × (entity_changes m.entity_id_to_origin_arch_id m.entity_id_to_arch_id
            (keys m.entity_id_to_origin_arch_id)
          ≡ ok cs)
        × (q ≡ p ++ cs)
  unfolding add_entity_id_to_arch_id_to_pipe
  entities-append m p h =
      let (cs, e1, e2) =
        and_then-ok
          (entity_changes m.entity_id_to_origin_arch_id m.entity_id_to_arch_id
            (keys m.entity_id_to_origin_arch_id))
          (λ cs. ok (p ++ cs)) h in
      (cs, e1, cc)

  actives-append :
      (m : EntityCommandBuffer e) (p : Commands e) {q : Commands e}
      → add_active_entity_ids_to_pipe m p ≡ ok q
      → (cs : Commands e) × (active_changes e.encode_ids m.active_entities (keys m.active_entities)
          ≡ ok cs)
        × (q ≡ p ++ cs)
  unfolding add_active_entity_ids_to_pipe
  actives-append m p h =
      let (cs, e1, e2) =
        and_then-ok (active_changes e.encode_ids m.active_entities (keys m.active_entities))
          (λ cs. ok (p ++ cs)) h in
      (cs, e1, cc)

  -- A transaction in its parts, for the buffer `m` whose marks `dels` are queued.
  queued :
      (m : EntityCommandBuffer e) (types : GoMap ℕ (ComponentMetadata e)) (p sets : Commands e)
      {pipe : Commands e}
      → m.type_to_component ≡ some types
      → p ≡ deletions m.comp_values_to_delete (keys m.comp_values_to_delete) ++ sets
      → encode_values types m.comp_values (keys m.comp_values) ≡ ok sets
      → queue_rest m p ≡ ok pipe
      → Pipe m pipe (record m { comp_values_to_delete = [] })
  unfolding queue_rest
  queued m types p sets known hp hs h =
      let (p1, e1, h1) =
        and_then-ok (add_pending_arch_ids_to_pipe m (add_next_entity_id_to_pipe m p)) _ h in
      let (p2, e2, h2) = and_then-ok (add_entity_id_to_arch_id_to_pipe m p1) _ h1 in
      let (archs, e3, e4) = archs-append m (add_next_entity_id_to_pipe m p) e1 in
      let (entities, e5, e6) = entities-append m p1 e2 in
      let (actives, e7, e8) = actives-append m p2 h2 in
      record {
        types = types;
        known = known;
        sets = sets;
        archs = archs;
        entities = entities;
        actives = actives;
        whole = cc (e8, e6, e4, next-append m p, hp);
        values_set = hs;
        archs_set = e3;
        entities_set = e5;
        actives_set = e7;
        same = refl;
      }

  queue_rest_same :
      (m : EntityCommandBuffer e) (p : Commands e)
      → queue_rest (record m { comp_values_to_delete = [] }) p ≡ queue_rest m p
  unfolding queue_rest encode_arch_id_to_comp_types
  queue_rest_same m p = refl

  pub make-Pipe-Pipe :
      (m : EntityCommandBuffer e) {pipe : Commands e} {n : EntityCommandBuffer e}
      → make_pipe_of_redis_commands m ≡ (ok pipe, n)
      → Pipe m pipe n
  unfolding make_pipe_of_redis_commands
  make-Pipe-Pipe m {pipe = pipe} {n = n} h = go m.type_to_component refl h
    where
      go :
          (types : Option (GoMap ℕ (ComponentMetadata e)))
          → m.type_to_component ≡ types
          → queue_all (registered types) m ≡ (ok pipe, n)
          → Pipe m pipe n
      go none known h = cc
      go (some types) known h =
          let (components, m1, e1, h1) = bind-ok (add_component_changes_to_pipe types []) _ m h in
          let (sets, e2, e3, e4) = changes_made m types e1 in
          let r : queue_rest m1 components ≡ ok pipe = ap (λ t. t.0) h1 in
          let s : n ≡ record m { comp_values_to_delete = [] } = sym (ap (λ t. t.1) h1) ∙ e4 in
          let q : queue_rest m components ≡ ok pipe =
            sym (queue_rest_same m components)
            ∙ subst (λ (t : EntityCommandBuffer e). queue_rest t components ≡ ok pipe) e4 r in
          subst (Pipe m pipe) (sym s) (queued m types components sets known e2 e3 q)
