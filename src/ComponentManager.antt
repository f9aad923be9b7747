-- ===== src/ComponentManager.antt =====
-- cardinal/component/manager.go, and SetID of cardinal/component/component.go: the components of a
-- world by name, each with an ID and a schema in storage. The manager and its caller share the
-- metadata object, so that RegisterComponent also returns the object as it is left.
pub mod Schemas
pub mod Tests
use world_engine.Base.{
  ℕ, ◌+◌, String, List, [], Bool, true, false, Option, none, some, is_some, nat_eq, string_eq, ◌==◌,
  if◌then◌else◌,
}
use world_engine.Base.GoMap.{GoMap, lookup, insert, values}
use world_engine.Base.Exec.{Result, ok, err}

pub data ManagerError : Type 0 where
  component_is_already_registered component_not_registered id_is_already_set : ManagerError
  no_schema_found component_schema_mismatch storage_failure validation_failure : ManagerError

-- The schemas in redis and the comparison of two of them: jsondiff's, and two calls of a hash.
pub record SchemaStorage : Type 1 where
  pub Store : Type 0
  pub Schema : Type 0
  pub get_schema : Store → String → Result ManagerError Schema
  pub set_schema : Store → String → Schema → Result ManagerError Store
  -- ValidateAgainstSchema of a component's schema and a stored one
  pub validate : Schema → Schema → Result ManagerError (Unit {0})

pub record Metadata (s : SchemaStorage) : Type 0 where
  pub is_id_set : Bool
  pub id : ℕ
  pub name : String
  pub schema : s.Schema

pub record Manager (s : SchemaStorage) : Type 0 where
  pub registered_components : GoMap String (Metadata s)
  pub next_component_id : ℕ
  pub schema_storage : s.Store

module _ {s : SchemaStorage} where
  unfoldable pub set_id : ℕ → (Metadata s) → Result ManagerError (Metadata s)
  set_id id c =
      if c.is_id_set
      then (if id == c.id then ok c else err id_is_already_set)
      else ok (record c { id = id; is_id_set = true })

  unfoldable pub new_manager : s.Store → Manager s
  new_manager store = record {
    registered_components = [];
    next_component_id = 1;
    schema_storage = store;
  }

  -- The stored schema is compared; where none is found, the component's own is stored.
  unfoldable pub checked_store :
      (Metadata s) → s.Store → Result ManagerError s.Schema → Result ManagerError s.Store
  checked_store c store (ok stored) = elim (s.validate c.schema stored) [
    | ok _ ↦ ok store
    | err error ↦ err error
  ]
  checked_store c store (err no_schema_found) = s.set_schema store c.name c.schema
  checked_store c store (err error) = err error

  abbrev pub added :
      Result ManagerError (Metadata s) → Manager s → Result ManagerError (Metadata s) × Manager s
  added (err error) m = (err error, m)
  added (ok c) m = (
    ok c,
    record m {
      registered_components = insert c.name c m.registered_components;
      next_component_id = m.next_component_id + 1;
    },
  )

  abbrev pub with_store :
      (Metadata s)
      → Result ManagerError s.Store
      → Manager s
      → Result ManagerError (Metadata s) × Manager s
  with_store c (err error) m = (err error, m)
  with_store c (ok store) m =
      added (set_id m.next_component_id c) (record m { schema_storage = store })

  unfoldable pub register_component :
      (Metadata s) → Manager s → Result ManagerError (Metadata s) × Manager s
  unfolding set_id checked_store
  register_component c m =
      if is_some (lookup c.name m.registered_components)
      then (err component_is_already_registered, m)
      else with_store c (checked_store c m.schema_storage (s.get_schema m.schema_storage c.name)) m

  unfoldable pub get_components : Manager s → List (Metadata s)
  get_components m = values m.registered_components

  abbrev pub found_or_error : Option (Metadata s) → Result ManagerError (Metadata s)
  found_or_error none = err component_not_registered
  found_or_error (some c) = ok c

  unfoldable pub get_component_by_name : String → Manager s → Result ManagerError (Metadata s)
  get_component_by_name name m = found_or_error (lookup name m.registered_components)
