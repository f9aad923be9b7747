-- ===== src/Gamestate/Pipe/Kinds.antt =====
-- The commands of a pipe by the kind of their keys, and what a pipe is made of.
use world_engine.Base.{
  ℕ, List, [], ◌∷◌, ◌++◌, Bool, ◌≡◌, ◌≢◌, refl, sym, ◌∙◌, ap, nat_eq, arith, All, Option, some,
}
use world_engine.Base.GoMap.{GoMap, keys}
use world_engine.Base.Exec.{Result, ok, err}
use world_engine.Gamestate.Types.{
  Error, Env, ComponentMetadata, CompKey, comp_key_eq, Command, set_num, set_bytes, del, incr,
  StorageKey, component_key, next_entity_id_key, archetype_id_for_entity_id, active_entity_id_key,
  arch_ids_to_comp_types_key, last_finalized_tick_key,
}
use world_engine.Gamestate.Active.{ActiveEntities}
use world_engine.Gamestate.Redis.{kept, effect, effect_of, key_eq, key_beq_iff}
use world_engine.Gamestate.Ecb.{EntityCommandBuffer}
use world_engine.Gamestate.Pipe.{
  Commands, and_then, deletions, encode_values, add_next_entity_id_to_pipe,
  add_pending_arch_ids_to_pipe, entity_change, entity_changes, active_changes,
}

pub data Kind : Type 0 where
  component next_id archetype_of active archetypes tick : Kind

abbrev pub kind : StorageKey → Kind
kind (component_key t i) = component
kind next_entity_id_key = next_id
kind (archetype_id_for_entity_id i) = archetype_of
kind (active_entity_id_key i) = active
kind arch_ids_to_comp_types_key = archetypes
kind last_finalized_tick_key = tick

pub and_then-ok :
    {A B : Type 0} (r : Result Error A) (f : A → Result Error B) {b : B}
    → and_then r f ≡ ok b
    → (a : A) × (r ≡ ok a) × (f a ≡ ok b)
and_then-ok (ok a) f h = (a, refl, h)
and_then-ok (err error) f h = cc

module _ {Bytes : Type 0} where
  abbrev pub key_named : Command Bytes → StorageKey
  key_named (set_num k n) = k
  key_named (set_bytes k b) = k
  key_named (del k) = k
  key_named (incr k) = k

  -- Every command names a key of this kind.
  abbrev pub OfKind : Kind → List (Command Bytes) → Type 0
  OfKind kd = All (λ c. kind (key_named c) ≡ kd)

  pub effect_of_other :
      (k : StorageKey) (c : Command Bytes) → key_named c ≢ k → effect_of k c ≡ kept
  effect_of_other k (set_num j n) h = ground (arith, key_beq_iff j k)
  effect_of_other k (set_bytes j b) h = ground (arith, key_beq_iff j k)
  effect_of_other k (del j) h = ground (arith, key_beq_iff j k)
  effect_of_other k (incr j) h = ground (arith, key_beq_iff j k)

  pub effect-OfKind :
      (k : StorageKey) (kd : Kind) (cs : List (Command Bytes))
      → kind k ≢ kd
      → OfKind kd cs
      → effect k cs ≡ kept
  unfolding effect
  effect-OfKind k kd [] h all = refl
  effect-OfKind k kd (c ∷ cs) h all =
      let other : key_named c ≢ k = λ p. h (sym (ap kind p) ∙ all.0) in
      ground (arith, effect_of_other k c other, effect-OfKind k kd cs h all.1)

-- Whatever a part queues is of this kind; it may fail.
abbrev pub OkOfKind : {Bytes : Type 0} → Kind → Result Error (List (Command Bytes)) → Type 0
OkOfKind kd (ok cs) = OfKind kd cs
OkOfKind kd (err error) = Unit

module _ (Bytes : Type 0) where
  pub deletions-OfKind :
      (marks : GoMap CompKey Bool) (ks : List CompKey)
      → OfKind component (deletions {Bytes = Bytes} marks ks)
  unfolding deletions
  deletions-OfKind marks [] = tt
  deletions-OfKind marks (k ∷ ks) = ground (arith, deletions-OfKind marks ks)

  pub entity_change-OfKind :
      (id : ℕ) (arch origin : Option ℕ)
      → OfKind archetype_of (entity_change {Bytes = Bytes} id arch origin)
  unfolding entity_change
  entity_change-OfKind id arch origin = ground arith

  pub entity_changes-OfKind :
      (origins : GoMap ℕ (Option ℕ)) (archs : GoMap ℕ ℕ) (ids : List ℕ)
      → OkOfKind archetype_of (entity_changes {Bytes = Bytes} origins archs ids)
  unfolding entity_changes entity_change
  entity_changes-OfKind origins archs [] = tt
  entity_changes-OfKind origins archs (id ∷ ids) =
      ground (arith, entity_changes-OfKind origins archs ids)

  pub active_changes-OfKind :
      (encode : List ℕ → Result Error Bytes) (actives : GoMap ℕ ActiveEntities) (ks : List ℕ)
      → OkOfKind active (active_changes encode actives ks)
  unfolding active_changes
  active_changes-OfKind encode actives [] = tt
  active_changes-OfKind encode actives (k ∷ ks) =
      ground (arith, active_changes-OfKind encode actives ks)

module _ {e : Env} where
  pub encode_values-OfKind :
      (types : GoMap ℕ (ComponentMetadata e)) (values : GoMap CompKey e.Any) (ks : List CompKey)
      → OkOfKind component (encode_values types values ks)
  unfolding encode_values
  encode_values-OfKind types values [] = tt
  encode_values-OfKind types values (k ∷ ks) = ground (arith, encode_values-OfKind types values ks)

  -- The transaction in its parts, and what making it changes: the marks are cleared.
  pub record Pipe (m : EntityCommandBuffer e) (pipe : Commands e) (n : EntityCommandBuffer e)
      : Type 0 where
    pub types : GoMap ℕ (ComponentMetadata e)
    pub known : m.type_to_component ≡ some types
    pub sets : Commands e
    pub archs : Commands e
    pub entities : Commands e
    pub actives : Commands e
    pub whole : pipe ≡ (
        ((((deletions m.comp_values_to_delete (keys m.comp_values_to_delete) ++ sets)
              ++ add_next_entity_id_to_pipe m [])
            ++ archs)
          ++ entities)
        ++ actives)
    pub values_set : encode_values types m.comp_values (keys m.comp_values) ≡ ok sets
    pub archs_set : add_pending_arch_ids_to_pipe m [] ≡ ok archs
    pub entities_set :
        entity_changes m.entity_id_to_origin_arch_id m.entity_id_to_arch_id
          (keys m.entity_id_to_origin_arch_id)
        ≡ ok entities
    pub actives_set :
        active_changes e.encode_ids m.active_entities (keys m.active_entities) ≡ ok actives
    pub same : n ≡ record m { comp_values_to_delete = [] }
