-- ===== src/Gamestate/Pipe.antt =====
-- cardinal/gamestate/redis.go and tick.go: the pending changes as one redis transaction, loading
-- the archetypes, and the end of a tick. go-redis queues the commands of a pipeline without an
-- error, and hands them to the server in `Exec`.
pub mod Reload
pub mod Kinds
pub mod Parts
pub mod Changes
pub mod Effects
pub mod Commit
pub mod Values
pub mod Actives
use world_engine.Base.{
  ℕ, zero, ◌+◌, ◌%◌, ◌^◌, List, [], ◌∷◌, ◌++◌, Bool, true, false, not, Option, none, some, nat_eq,
  if◌then◌else◌, ◌==◌, map,
}
use world_engine.Base.GoMap.{GoMap, lookup, insert, keys}
use world_engine.Base.Exec.{Result, ok, err, Exec, pure, fail, lift, gets, ◌>>=◌, ◌>>◌}
use world_engine.Gamestate.Types.{
  Error, Env, ComponentMetadata, CompKey, comp_key_eq, Command, set_num, set_bytes, del, incr,
  component_key, next_entity_id_key, archetype_id_for_entity_id, active_entity_id_key,
  arch_ids_to_comp_types_key, last_finalized_tick_key, must_register_components, is_redis_nil,
}
use world_engine.Gamestate.MapStorage.{get, found_or}
use world_engine.Gamestate.Active.{ActiveEntities}
use world_engine.Gamestate.CompSets.{Slice, Arrays, elements}
use world_engine.Gamestate.Ecb.{EntityCommandBuffer, M}
use world_engine.Gamestate.Ecb.Reset.{discard_pending}

abbrev pub Commands : Env → Type 0
Commands e = List (Command e.Bytes)

-- `if err != nil { return err }` where no state changes
abbrev pub and_then : {A B : Type 0} → Result Error A → (A → Result Error B) → Result Error B
and_then (ok a) f = f a
and_then (err error) f = err error

abbrev pub tick_or_zero : Result Error ℕ → Result Error ℕ
tick_or_zero (ok tick) = ok tick
tick_or_zero (err error) = if is_redis_nil error then ok 0 else err error

module _ {Bytes : Type 0} where
  -- The first loop of addComponentChangesToPipe.
  unfoldable pub deletions : GoMap CompKey Bool → List CompKey → List (Command Bytes)
  deletions marks [] = []
  deletions marks (key ∷ rest) =
      let later = deletions marks rest in
      elim (lookup key marks) [
        | some true ↦ del (component_key key.type_id key.entity_id) ∷ later
        | _ ↦ later
      ]

  -- One round of the loop of addEntityIDToArchIDToPipe, on the entity's archetype now and its
  -- archetype in redis.
  unfoldable pub entity_change : ℕ → Option ℕ → Option ℕ → List (Command Bytes)
  entity_change id none origin = del (archetype_id_for_entity_id id) ∷ []
  entity_change id (some arch) none = set_num (archetype_id_for_entity_id id) arch ∷ []
  entity_change id (some arch) (some origin) =
      if arch == origin then [] else set_num (archetype_id_for_entity_id id) arch ∷ []

  unfoldable pub entity_changes :
      GoMap ℕ (Option ℕ) → GoMap ℕ ℕ → List ℕ → Result Error (List (Command Bytes))
  unfolding entity_change
  entity_changes origins archs [] = ok []
  entity_changes origins archs (id ∷ rest) =
      let later = entity_changes origins archs rest in
      and_then (get id origins) λ origin.
        and_then later λ commands. ok (entity_change id (lookup id archs) origin ++ commands)

  unfoldable pub active_changes :
      (List ℕ → Result Error Bytes)
      → GoMap ℕ ActiveEntities
      → List ℕ
      → Result Error (List (Command Bytes))
  active_changes encode actives [] = ok []
  active_changes encode actives (arch ∷ rest) =
      let later = active_changes encode actives rest in
      and_then (get arch actives) λ active.
        if not active.modified
        then later
        else and_then (encode active.ids) λ bz.
          and_then later λ commands. ok (set_bytes (active_entity_id_key arch) bz ∷ commands)

module _ {e : Env} where
  -- Its second loop: the values in memory, encoded by their component types.
  unfoldable pub encode_values :
      GoMap ℕ (ComponentMetadata e) → GoMap CompKey e.Any → List CompKey → Result Error (Commands e)
  encode_values types values [] = ok []
  encode_values types values (key ∷ rest) =
      let later = encode_values types values rest in
      and_then (get key.type_id types) λ c_type. and_then (get key values) λ value.
        and_then (c_type.encode value) λ bz.
          and_then later
            λ commands. ok (set_bytes (component_key key.type_id key.entity_id) bz ∷ commands)

  -- The marks are cleared as soon as they are queued, before any value is encoded.
  unfoldable pub add_component_changes_to_pipe :
      GoMap ℕ (ComponentMetadata e) → Commands e → M e (Commands e)
  unfolding ◌>>=◌ deletions encode_values
  add_component_changes_to_pipe types pipe = do
    dels ← gets (λ m. deletions m.comp_values_to_delete (keys m.comp_values_to_delete))
    λ m. (ok tt, record m { comp_values_to_delete = [] })
    sets ← λ m. (encode_values types m.comp_values (keys m.comp_values), m)
    pure (pipe ++ (dels ++ sets))

  unfoldable pub add_next_entity_id_to_pipe : EntityCommandBuffer e → Commands e → Commands e
  add_next_entity_id_to_pipe m pipe =
      if m.pending_entity_ids == 0
      then pipe
      else pipe
        ++ set_num next_entity_id_key ((m.next_entity_id_saved + m.pending_entity_ids) % 2 ^ 64)
          ∷ []

  -- `archIDToComps` as a map to component IDs; a missing key cannot occur, as the keys are its own.
  unfoldable pub arch_types : Arrays e → GoMap ℕ Slice → List ℕ → Result Error (List (ℕ × List ℕ))
  arch_types arrays archs [] = ok []
  arch_types arrays archs (arch ∷ rest) =
      let later = arch_types arrays archs rest in
      and_then (get arch archs) λ comps. and_then later λ entries.
        ok ((arch, map (λ (c : ComponentMetadata e). c.id) (elements arrays comps)) ∷ entries)

  unfoldable pub encode_arch_id_to_comp_types : EntityCommandBuffer e → Result Error e.Bytes
  unfolding arch_types elements
  encode_arch_id_to_comp_types m =
      and_then (arch_types m.arrays m.arch_id_to_comps (keys m.arch_id_to_comps)) e.encode_archs

  abbrev pub pipe_archs : EntityCommandBuffer e → Commands e → List ℕ → Result Error (Commands e)
  pipe_archs m pipe [] = ok pipe
  pipe_archs m pipe (arch ∷ archs) =
      and_then (encode_arch_id_to_comp_types m)
        λ bz. ok (pipe ++ set_bytes arch_ids_to_comp_types_key bz ∷ [])

  -- Nothing is queued unless an archetype is pending.
  unfoldable pub add_pending_arch_ids_to_pipe :
      EntityCommandBuffer e → Commands e → Result Error (Commands e)
  unfolding encode_arch_id_to_comp_types
  add_pending_arch_ids_to_pipe m pipe = pipe_archs m pipe m.pending_arch_ids

  unfoldable pub add_entity_id_to_arch_id_to_pipe :
      EntityCommandBuffer e → Commands e → Result Error (Commands e)
  unfolding entity_changes
  add_entity_id_to_arch_id_to_pipe m pipe =
      and_then
        (entity_changes m.entity_id_to_origin_arch_id m.entity_id_to_arch_id
          (keys m.entity_id_to_origin_arch_id))
        λ commands. ok (pipe ++ commands)

  unfoldable pub add_active_entity_ids_to_pipe :
      EntityCommandBuffer e → Commands e → Result Error (Commands e)
  unfolding active_changes
  add_active_entity_ids_to_pipe m pipe =
      and_then (active_changes e.encode_ids m.active_entities (keys m.active_entities))
        λ commands. ok (pipe ++ commands)

  abbrev pub registered :
      Option (GoMap ℕ (ComponentMetadata e)) → Result Error (GoMap ℕ (ComponentMetadata e))
  registered none = err must_register_components
  registered (some types) = ok types

  -- The four operations behind the first change nothing in memory.
  unfoldable pub queue_rest : EntityCommandBuffer e → Commands e → Result Error (Commands e)
  unfolding add_next_entity_id_to_pipe add_pending_arch_ids_to_pipe add_entity_id_to_arch_id_to_pipe
      add_active_entity_ids_to_pipe
  queue_rest m pipe =
      and_then (add_pending_arch_ids_to_pipe m (add_next_entity_id_to_pipe m pipe)) λ archs.
        and_then (add_entity_id_to_arch_id_to_pipe m archs)
          λ entities. add_active_entity_ids_to_pipe m entities

  abbrev pub queue_all : Result Error (GoMap ℕ (ComponentMetadata e)) → M e (Commands e)
  queue_all (err error) m = (err error, m)
  queue_all (ok types) m =
      (do components ← add_component_changes_to_pipe types []; λ m. (queue_rest m components, m)) m

  -- The five operations in order; an error leaves the store as it was.
  unfoldable pub make_pipe_of_redis_commands : M e (Commands e)
  unfolding ◌>>=◌ add_component_changes_to_pipe queue_rest
  make_pipe_of_redis_commands m = queue_all (registered m.type_to_component) m

  abbrev pub end_transaction : Commands e → M e (Unit {0})
  end_transaction pipe m = elim (e.exec m.db_storage pipe) [
    | err error ↦ (err error, m)
    | ok db ↦ (ok tt, record m { db_storage = db })
  ]

  -- `pendingArchIDs` is emptied first, so that DiscardPending keeps the new archetypes.
  unfoldable pub finalize_tick : M e (Unit {0})
  unfolding ◌>>=◌ make_pipe_of_redis_commands discard_pending
  finalize_tick = do
    pipe ← make_pipe_of_redis_commands
    end_transaction (pipe ++ incr last_finalized_tick_key ∷ [])
    λ m. (ok tt, discard_pending (record m { pending_arch_ids = [] }))

  unfoldable pub get_last_finalized_tick : EntityCommandBuffer e → Result Error ℕ
  unfolding is_redis_nil
  get_last_finalized_tick m = tick_or_zero (e.get_num m.db_storage last_finalized_tick_key)
