-- ===== src/ComponentManager/Tests.antt =====
-- Tests of the component manager on schemas in memory.
use world_engine.Base.{
  ℕ, String, [], ◌∷◌, Option, none, some, nat_eq, string_eq, ◌==◌, if◌then◌else◌, arith, false,
}
use world_engine.Base.GoMap.{GoMap, lookup, insert, lookup-insert}
use world_engine.Base.Exec.{Result, ok, err}
use world_engine.ComponentManager.{
  ManagerError, SchemaStorage, Metadata, new_manager, no_schema_found, component_schema_mismatch,
}
use world_engine.ComponentManager.Schemas.{
  Documented, IsRegistry, register_all, register_all-IsRegistry,
}

abbrev or_no_schema : Option ℕ → Result ManagerError ℕ
or_no_schema none = err no_schema_found
or_no_schema (some schema) = ok schema

-- A schema is a number here.
abbrev schemas : SchemaStorage
schemas = record {
  Store = GoMap String ℕ;
  Schema = ℕ;
  get_schema = λ db name. or_no_schema (lookup name db);
  set_schema = λ db name schema. ok (insert name schema db);
  validate = λ a b. if a == b then ok tt else err component_schema_mismatch;
}

schemas-Documented : Documented schemas
schemas-Documented = record {
  get_set = λ db after name schema h j. ground (arith, lookup-insert name j schema db, h);
  validate_self = λ schema. ground arith;
}

abbrev component : String → ℕ → Metadata schemas
component name schema = record { is_id_set = false; id = 0; name = name; schema = schema }

register_all-IsRegistry_example : IsRegistry schemas-Documented (
    register_all
      (component "Health" 1 ∷ component "Energy" 2 ∷ component "Health" 3 ∷ component "Old" 4 ∷ [])
      (new_manager (("Old", 5) ∷ [])))
register_all-IsRegistry_example =
    register_all-IsRegistry schemas-Documented
      (component "Health" 1 ∷ component "Energy" 2 ∷ component "Health" 3 ∷ component "Old" 4 ∷ [])
      (("Old", 5) ∷ [])
