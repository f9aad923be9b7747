-- ===== src/Gamestate/Types.antt =====
-- The types that cardinal/gamestate shares: its errors (errors.go, ecb.go, read_only.go), the
-- component metadata that it reads, the redis store and the codecs that it calls.
use world_engine.Base.{ℕ, String, List, Bool, true, false, ◌==◌, nat_eq, Eq, ◌≡◌, ◌↔◌, arith, ◌&&◌}
use world_engine.Base.Exec.{Result}

-- One constructor for each error value, by its cause: `eris.Wrap` is not shown.
-- `redis_nil` is go-redis's answer for a missing key, `storage` any other failure of redis,
-- `codec` a failure to encode or decode.
pub data Error : Type 0 where
  not_found redis_nil entity_does_not_exist archetype_not_found : Error
  component_already_on_entity component_not_on_entity : Error
  entity_must_have_at_least_one_component component_mismatch_with_saved_state : Error
  duplicate_components must_provide_component cannot_find_entity : Error
  must_register_components archetypes_overwritten no_arch_id_mapping_found : Error
  storage codec : Error

-- `errors.Is(err, redis.Nil)`: the error for a missing entity wraps `redis.Nil`.
unfoldable pub is_redis_nil : Error → Bool
is_redis_nil redis_nil = true
is_redis_nil entity_does_not_exist = true
is_redis_nil _ = false

-- `eris.Is(eris.Cause(err), ErrArchetypeNotFound)`
unfoldable pub is_archetype_not_found : Error → Bool
is_archetype_not_found archetype_not_found = true
is_archetype_not_found _ = false

-- compKey of component.go
pub record CompKey : Type 0 where
  pub type_id : ℕ
  pub entity_id : ℕ

abbrev pub comp_key_beq : CompKey → CompKey → Bool
comp_key_beq a b = (a.type_id == b.type_id) && (a.entity_id == b.entity_id)

pub comp_key_beq_iff : (a b : CompKey) → (comp_key_beq a b ≡ true) ↔ (a ≡ b)
comp_key_beq_iff a b = ground arith

instance abbrev pub comp_key_eq : Eq CompKey
comp_key_eq = record { beq = comp_key_beq; beq_iff = comp_key_beq_iff }

-- The keys of keys.go, by the function or constant that makes each.
pub data StorageKey : Type 0 where
  component_key : ℕ → ℕ → StorageKey
  next_entity_id_key : StorageKey
  archetype_id_for_entity_id : ℕ → StorageKey
  active_entity_id_key : ℕ → StorageKey
  arch_ids_to_comp_types_key : StorageKey
  last_finalized_tick_key : StorageKey

-- What is not in the repository, as parameters: the values of components, their JSON, the redis
-- database with go-redis's typed reads and its MULTI/EXEC pipeline, and the JSON codec.
pub data Command (Bytes : Type 0) : Type 0 where
  set_num : StorageKey → ℕ → Command Bytes
  set_bytes : StorageKey → Bytes → Command Bytes
  del incr : StorageKey → Command Bytes

pub record Env : Type 1 where
  pub Any : Type 0
  pub Bytes : Type 0
  pub Db : Type 0
  -- GET and its conversions `.Int()`, `.Uint64()` and `.Bytes()`
  pub get_num : Db → StorageKey → Result Error ℕ
  pub get_bytes : Db → StorageKey → Result Error Bytes
  -- EXEC of the queued commands
  pub exec : Db → List (Command Bytes) → Result Error Db
  -- `codec.Encode` and `codec.Decode` at `[]types.EntityID` and at
  -- `map[types.ArchetypeID][]types.ComponentID`
  pub encode_ids : List ℕ → Result Error Bytes
  pub decode_ids : Bytes → Result Error (List ℕ)
  pub encode_archs : List (ℕ × List ℕ) → Result Error Bytes
  pub decode_archs : Bytes → Result Error (List (ℕ × List ℕ))
  -- how far Go's `append` grows a full slice of the given capacity
  pub grow : ℕ → ℕ

-- types.ComponentMetadata, with the address of the object that `==` on interfaces compares.
pub record ComponentMetadata (e : Env) : Type 0 where
  pub address : ℕ
  pub id : ℕ
  pub name : String
  pub new : Result Error e.Bytes
  pub encode : e.Any → Result Error e.Bytes
  pub decode : e.Bytes → Result Error e.Any
