-- ===== src/Gamestate/Tests.antt =====
-- Tests of cardinal/gamestate on a redis in memory.
use world_engine.Base.{
  ℕ, ◌%◌, ◌^◌, [], ◌∷◌, ◌≡◌, refl, arith, none, some, true, false, count, if◌then◌else◌, nat_eq,
  ◌==◌,
}
use world_engine.Base.GoMap.{lookup, insert, keys}
use world_engine.Base.Exec.{ok, err}
use world_engine.Gamestate.Types.{
  ComponentMetadata, CompKey, comp_key_eq, component_key, redis_nil, archetype_id_for_entity_id,
  active_entity_id_key, next_entity_id_key, last_finalized_tick_key,
}
use world_engine.Gamestate.Store.{
  Stored, number, json, ids_text, Memory, memory, execute_all, memory-Lawful,
}
use world_engine.Gamestate.Active.{swap_remove}
use world_engine.Gamestate.Active.Laws.{SwapRemoved, swap_remove-SwapRemoved}
use world_engine.Gamestate.CompSets.{Slice, elements, is_component_set_match}
use world_engine.Gamestate.Redis.{NumAfter, bumped}
use world_engine.Gamestate.Ecb.{EntityCommandBuffer, get_archetype_for_entity}
use world_engine.Gamestate.Ecb.Entities.{create_many_entities, remove_entity}
use world_engine.Gamestate.Ecb.Create.{Created, create_many-Created}
use world_engine.Gamestate.Ecb.Removal.{Removed, remove_entity-Removed, removed_entity_returns}
use world_engine.Gamestate.Ecb.Reset.{discard_pending}
use world_engine.Gamestate.Pipe.Values.{
  ValueAfter, is_marked, finalize_tick-ValueAfter, discarded_removal_deletes,
}
use world_engine.Gamestate.Pipe.Actives.{entities_after, finalize_tick-get_entities_for_arch_id}
use world_engine.Gamestate.Ecb.Components.{add_component_to_entity}
use world_engine.Gamestate.Ecb.Archetypes.{get_component_types_for_entity}
use world_engine.Gamestate.Ecb.Overwriting.{add_component_overwrites}
use world_engine.Gamestate.ReadOnly.{to_read_only, get_entities_for_arch_id}
use world_engine.Gamestate.Pipe.{finalize_tick}
use world_engine.Gamestate.Pipe.Commit.{
  current, IsConsistent, finalize_tick-current, finalize_tick-counters, finalize_tick-IsConsistent,
}

abbrev health : ComponentMetadata memory
health = record {
  address = 100;
  id = 1;
  name = "Health";
  new = ok (json 0);
  encode = λ n. ok (json n);
  decode = λ b. ok 0;
}

-- Entity 5 was saved in archetype 0, the next free ID is 6, and tick 8 was the last.
abbrev saved : Memory
saved (archetype_id_for_entity_id id) = if id == 5 then some (number 0) else none
saved (active_entity_id_key arch) = if arch == 0 then some (ids_text (5 ∷ [])) else none
saved next_entity_id_key = some (number 6)
saved last_finalized_tick_key = some (number 8)
saved (component_key t id) = if id == 5 then some (json 9) else none
saved _ = none

abbrev comps : Slice
comps = record { address = 0; len = 1 }

abbrev buffer : EntityCommandBuffer memory
buffer = record {
  db_storage = saved;
  comp_values = [];
  comp_values_to_delete = [];
  type_to_component = some ((1, health) ∷ []);
  active_entities = [];
  next_entity_id_saved = 6;
  pending_entity_ids = 0;
  is_entity_id_loaded = true;
  entity_id_to_arch_id = [];
  entity_id_to_origin_arch_id = [];
  arch_id_to_comps = (0, comps) ∷ [];
  pending_arch_ids = [];
  arrays = record { cells = health ∷ []; cap = 1 } ∷ [];
}

-- Entity 6 is created and pending.
abbrev pending : EntityCommandBuffer memory
pending = record buffer {
  pending_entity_ids = 1;
  entity_id_to_arch_id = (6, 0) ∷ [];
  entity_id_to_origin_arch_id = (6, none) ∷ [];
  active_entities = (0, record { ids = 5 ∷ 6 ∷ []; modified = true }) ∷ [];
}

pending-IsConsistent : IsConsistent pending
unfolding lookup keys count
pending-IsConsistent = record {
  cached = λ id arch h k. ground arith;
  origin = λ id arch h. ground arith;
  distinct = λ id. ground arith;
}

swap_remove-SwapRemoved_example :
    SwapRemoved
      (record { ids = 4 ∷ 5 ∷ 6 ∷ []; modified = false })
      4
      (swap_remove (record { ids = 4 ∷ 5 ∷ 6 ∷ []; modified = false }) 4)
swap_remove-SwapRemoved_example =
    swap_remove-SwapRemoved (record { ids = 4 ∷ 5 ∷ 6 ∷ []; modified = false }) 4

abbrev created : EntityCommandBuffer memory
created = (create_many_entities 2 comps buffer).1

created_ids : (create_many_entities 2 comps buffer).0 ≡ ok (6 ∷ 7 ∷ [])
unfolding create_many_entities keys lookup is_component_set_match
created_ids = refl

create_many-Created_example : Created buffer 2 (6 ∷ 7 ∷ []) created
create_many-Created_example =
    create_many-Created 2 comps buffer refl (omega arith) (λ i. (created_ids i, created))

abbrev removed : EntityCommandBuffer memory
removed = (remove_entity 5 buffer).1

removed_ok : (remove_entity 5 buffer).0 ≡ ok tt
unfolding remove_entity lookup
removed_ok = refl

remove_entity-Removed_example : Removed buffer 5 removed
remove_entity-Removed_example = remove_entity-Removed 5 buffer (λ i. (removed_ok i, removed))

removed_entity_returns_example :
    get_archetype_for_entity 5 removed
    ≡ (ok 0, record removed { entity_id_to_arch_id = insert 5 0 removed.entity_id_to_arch_id })
removed_entity_returns_example =
    removed_entity_returns 5 0 buffer refl (λ i. (removed_ok i, removed))

abbrev finalized : EntityCommandBuffer memory
finalized = (finalize_tick pending).1

finalized_ok : (finalize_tick pending).0 ≡ ok tt
unfolding finalize_tick keys execute_all lookup
finalized_ok = refl

finalize_tick-current_example :
    (memory.get_num finalized.db_storage (archetype_id_for_entity_id 6) ≡ current pending 6)
    × (current finalized 6 ≡ current pending 6)
finalize_tick-current_example =
    finalize_tick-current memory-Lawful pending (λ i. (finalized_ok i, finalized))
      pending-IsConsistent 6

finalize_tick-counters_example :
    NumAfter {Bytes = Stored} bumped
      (memory.get_num saved last_finalized_tick_key)
      (memory.get_num finalized.db_storage last_finalized_tick_key)
    × (memory.get_num finalized.db_storage next_entity_id_key ≡ ok (7 % 2 ^ 64))
finalize_tick-counters_example =
    finalize_tick-counters memory-Lawful pending (λ i. (finalized_ok i, finalized))

abbrev health_of : ℕ → CompKey
health_of id = record { type_id = 1; entity_id = id }

-- Entity 6 has a value in memory, and the saved value of entity 5 is marked.
abbrev valued : EntityCommandBuffer memory
valued = record pending {
  comp_values = (health_of 6, 42) ∷ [];
  comp_values_to_delete = (health_of 5, true) ∷ [];
}

abbrev written : EntityCommandBuffer memory
written = (finalize_tick valued).1

written_ok : (finalize_tick valued).0 ≡ ok tt
unfolding finalize_tick keys execute_all lookup
written_ok = refl

finalize_tick-ValueAfter_example :
    ValueAfter valued.type_to_component
      (health_of 6)
      (lookup (health_of 6) valued.comp_values)
      (is_marked (lookup (health_of 6) valued.comp_values_to_delete))
      (memory.get_bytes saved (component_key 1 6))
      (memory.get_bytes written.db_storage (component_key 1 6))
finalize_tick-ValueAfter_example =
    finalize_tick-ValueAfter memory-Lawful valued (λ i. (written_ok i, written)) (health_of 6)

abbrev discarded : EntityCommandBuffer memory
discarded = (finalize_tick (discard_pending valued)).1

discarded_ok : (finalize_tick (discard_pending valued)).0 ≡ ok tt
unfolding finalize_tick keys execute_all lookup discard_pending
discarded_ok = refl

discarded_removal_deletes_example :
    memory.get_bytes discarded.db_storage (component_key 1 5) ≡ err redis_nil
unfolding lookup
discarded_removal_deletes_example =
    discarded_removal_deletes memory-Lawful valued (health_of 5) refl
      (λ i. (discarded_ok i, discarded))

finalize_tick-get_entities_for_arch_id_example :
    get_entities_for_arch_id 0 (to_read_only written)
    ≡ entities_after
        (lookup 0 valued.active_entities)
        (get_entities_for_arch_id 0 (to_read_only valued))
finalize_tick-get_entities_for_arch_id_example =
    finalize_tick-get_entities_for_arch_id memory-Lawful valued (λ i. (written_ok i, written)) 0

finalize_tick-IsConsistent_example : IsConsistent finalized
finalize_tick-IsConsistent_example =
    finalize_tick-IsConsistent memory-Lawful pending (λ i. (finalized_ok i, finalized))
      pending-IsConsistent

-- The components of archetype 0 are in an array with room for more, and a new component sorts
-- between them.
abbrev mana : ComponentMetadata memory
mana = record health { address = 101; id = 5; name = "Mana" }

abbrev shield : ComponentMetadata memory
shield = record health { address = 102; id = 3; name = "Shield" }

abbrev wide : Slice
wide = record { address = 0; len = 2 }

abbrev roomy : EntityCommandBuffer memory
roomy = record buffer {
  arch_id_to_comps = (0, wide) ∷ [];
  arrays = record { cells = health ∷ mana ∷ []; cap = 4 } ∷ [];
}

abbrev shielded : EntityCommandBuffer memory
shielded = (add_component_to_entity shield 5 roomy).1

shielded_ok : (add_component_to_entity shield 5 roomy).0 ≡ ok tt
unfolding add_component_to_entity lookup keys is_component_set_match insert
shielded_ok = refl

wide_found : (get_component_types_for_entity 5 roomy).0 ≡ ok wide
unfolding get_component_types_for_entity lookup
wide_found = refl

add_component_overwrites_example : elements shielded.arrays wide ≡ health ∷ shield ∷ []
unfolding elements
add_component_overwrites_example =
    add_component_overwrites shield mana (health ∷ []) [] 5 roomy wide
      (record { cells = health ∷ mana ∷ []; cap = 4 }) wide_found refl (omega arith) (omega arith)
      refl (omega arith, (omega arith, tt)) (λ i. (shielded_ok i, shielded))
