-- ===== src/ComponentManager/Schemas.antt =====
-- The schemas and the IDs of the components that component/manager.go registers.
use world_engine.Base.{
  ℕ, ◌<◌, String, List, [], ◌∷◌, false, none, some, nat_eq, string_eq, ◌==◌, if◌then◌else◌, ◌≡◌,
  refl, ap, sym, subst, ◌∙◌, arith, Bool-cases, Option-cases, inl, inr,
}
use text.Mathlib.TextEquality.{eq_iff}
use world_engine.Base.GoMap.{lookup, lookup-insert}
use world_engine.Base.Exec.{Result, ok, err, Result-cases}
use world_engine.ComponentManager.{
  ManagerError, SchemaStorage, Metadata, Manager, set_id, new_manager, checked_store, added,
  register_component, no_schema_found, component_is_already_registered, component_not_registered,
  id_is_already_set, component_schema_mismatch, storage_failure, validation_failure,
}

-- What is relied on of the schema storage: a schema that was set is found under its name, and the
-- other names keep theirs; a schema matches itself.
pub record Documented (s : SchemaStorage) : Type 0 where
  pub get_set :
      (db after : s.Store) (name : String) (schema : s.Schema)
      → s.set_schema db name schema ≡ ok after
      → (j : String) → s.get_schema after j ≡ (if name == j then ok schema else s.get_schema db j)
  pub validate_self : (schema : s.Schema) → s.validate schema schema ≡ ok tt

module _ {s : SchemaStorage} (d : Documented s) where
  -- Each component is under its own name and matches the schema in storage; the IDs are below the
  -- next one and differ.
  pub record IsRegistry (m : Manager s) : Type 0 where
    pub named :
        (name : String) (c : Metadata s)
        → lookup name m.registered_components ≡ some c
        → c.name ≡ name
    pub matches :
        (name : String) (c : Metadata s)
        → lookup name m.registered_components ≡ some c
        → (stored : s.Schema) × (s.get_schema m.schema_storage name ≡ ok stored)
          × (s.validate c.schema stored ≡ ok tt)
    pub below :
        (name : String) (c : Metadata s)
        → lookup name m.registered_components ≡ some c
        → c.id < m.next_component_id
    pub apart :
        (a b : String) (x y : Metadata s)
        → lookup a m.registered_components ≡ some x
        → lookup b m.registered_components ≡ some y
        → x.id ≡ y.id
        → a ≡ b

  pub new-IsRegistry : (store : s.Store) → IsRegistry (new_manager store)
  unfolding new_manager lookup
  new-IsRegistry store = record {
    named = λ name c h. cc;
    matches = λ name c h. absurd (ground (arith, h));
    below = λ name c h. cc;
    apart = λ a b x y h k e. cc;
  }

  set_id_lem :
      (id : ℕ) (c u : Metadata s)
      → set_id id c ≡ ok u
      → (u.id ≡ id) × (u.name ≡ c.name) × (u.schema ≡ c.schema)
  unfolding set_id
  set_id_lem id c u h = (ground (arith, h), ground (arith, h), ground (arith, h))

  -- Once the schema is checked, storage has one that the component matches, and the schemas of
  -- other names are as before.
  checked :
      (c : Metadata s) (db after : s.Store)
      → checked_store c db (s.get_schema db c.name) ≡ ok after
      → ((stored : s.Schema) × (s.get_schema after c.name ≡ ok stored)
          × (s.validate c.schema stored ≡ ok tt))
        × ((j : String) → (c.name == j) ≡ false → s.get_schema after j ≡ s.get_schema db j)
  unfolding checked_store
  checked c db after h = go (s.get_schema db c.name) refl h
    where
      go :
          (r : Result ManagerError s.Schema)
          → s.get_schema db c.name ≡ r
          → checked_store c db r ≡ ok after
          → ((stored : s.Schema) × (s.get_schema after c.name ≡ ok stored)
              × (s.validate c.schema stored ≡ ok tt))
            × ((j : String) → (c.name == j) ≡ false → s.get_schema after j ≡ s.get_schema db j)
      go (ok stored) e k = elim (Result-cases (s.validate c.schema stored)) [
        | inr (x, f) ↦ absurd (ground (arith, f, k))
        | inl (_, f) ↦
            let same : db ≡ after = ground (arith, f, k) in
            (
              (stored, ap (λ (t : s.Store). s.get_schema t c.name) (sym same) ∙ e, f),
              λ j off. ap (λ (t : s.Store). s.get_schema t j) (sym same),
            )
      ]
      go (err no_schema_found) e k =
          let law = d.get_set db after c.name c.schema k in
          (
            (c.schema, ground (arith, law c.name, eq_iff c.name c.name), d.validate_self c.schema),
            λ j off. ground (arith, law j, off),
          )
      go (err component_is_already_registered) e k = cc
      go (err component_not_registered) e k = cc
      go (err id_is_already_set) e k = cc
      go (err component_schema_mismatch) e k = cc
      go (err storage_failure) e k = cc
      go (err validation_failure) e k = cc

  -- The schema of a component that is not registered may change.
  stored-IsRegistry :
      (c : Metadata s) (m : Manager s) (store : s.Store)
      → lookup c.name m.registered_components ≡ none
      → ((j : String)
          → (c.name == j) ≡ false
          → s.get_schema store j ≡ s.get_schema m.schema_storage j)
      → IsRegistry m
      → IsRegistry (record m { schema_storage = store })
  stored-IsRegistry c m store missing others v = record {
    named = v.named;
    matches = λ name x h.
        let (stored, e, f) = v.matches name x h in
        let off : (c.name == name) ≡ false = ground (
          arith,
          eq_iff c.name name,
          λ (same : c.name ≡ name).
              subst (λ (t : String). lookup t m.registered_components ≡ none) same missing,
          h,
        ) in
        (stored, others name off ∙ e, f);
    below = v.below;
    apart = v.apart;
  }

  added-IsRegistry :
      (c : Metadata s) (m : Manager s)
      → c.id ≡ m.next_component_id
      → ((stored : s.Schema) × (s.get_schema m.schema_storage c.name ≡ ok stored)
          × (s.validate c.schema stored ≡ ok tt))
      → IsRegistry m
      → IsRegistry (added (ok c) m).1
  added-IsRegistry c m fresh schema v =
      let put = λ (n : String). lookup-insert c.name n c m.registered_components in
      record {
        named = λ name x h. ground (arith, put name, h, v.named name x, eq_iff c.name name);
        matches = λ name x h. elim (Bool-cases (c.name == name)) [
          | inl on ↦
              let same : c ≡ x = ground (arith, put name, h, on) in
              subst
                (λ (t : Metadata s).
                  (stored : s.Schema) × (s.get_schema m.schema_storage name ≡ ok stored)
                  × (s.validate t.schema stored ≡ ok tt))
                same
                (subst
                  (λ (n : String).
                    (stored : s.Schema) × (s.get_schema m.schema_storage n ≡ ok stored)
                    × (s.validate c.schema stored ≡ ok tt))
                  ((eq_iff c.name name).0 on) schema)
          | inr off ↦ v.matches name x (ground (arith, put name, h, off))
        ];
        below = λ name x h. ground (arith, put name, h, v.below name x, fresh);
        apart = λ a b x y h k e. ground (
          arith,
          put a,
          put b,
          h,
          k,
          e,
          fresh,
          v.below a x,
          v.below b y,
          v.apart a b x y,
          eq_iff c.name a,
          eq_iff c.name b,
        );
      }

  register_component-IsRegistry :
      (c : Metadata s) (m : Manager s) → IsRegistry m → IsRegistry (register_component c m).1
  unfolding register_component
  register_component-IsRegistry c m v =
      elim (Option-cases (lookup c.name m.registered_components)) [
        | inr (old, taken) ↦ rw (taken, register_component) v
        | inl free ↦
            elim (Result-cases
              (checked_store c m.schema_storage (s.get_schema m.schema_storage c.name))) [
                | inr (x, e) ↦ rw (free, register_component) (rw e v)
                | inl (store, e) ↦
                    let (schema, others) = checked c m.schema_storage store e in
                    let w = stored-IsRegistry c m store free others v in
                    elim (Result-cases (set_id m.next_component_id c)) [
                      | inr (x, f) ↦ rw (free, register_component) (rw e (rw f w))
                      | inl (u, f) ↦
                          let (fresh, name, sch) = set_id_lem m.next_component_id c u f in
                          rw (free, register_component)
                            (rw e (
                              rw f (
                                added-IsRegistry u (record m { schema_storage = store }) fresh
                                  (
                                    schema.0,
                                    ap (λ (n : String). s.get_schema store n) name ∙ schema.1,
                                    ap (λ (x : s.Schema). s.validate x schema.0) sch ∙ schema.2,
                                  )
                                  w)))
                    ]
              ]
      ]

-- The manager after registrations in order, whatever each of them answers.
abbrev pub register_all : {s : SchemaStorage} → List (Metadata s) → Manager s → Manager s
register_all [] m = m
register_all (c ∷ cs) m = register_all cs (register_component c m).1

keeps-IsRegistry :
    {s : SchemaStorage} (d : Documented s) (cs : List (Metadata s)) (m : Manager s)
    → IsRegistry d m
    → IsRegistry d (register_all cs m)
keeps-IsRegistry d [] m v = v
keeps-IsRegistry d (c ∷ cs) m v =
    keeps-IsRegistry d cs (register_component c m).1 (register_component-IsRegistry d c m v)

-- After any calls of RegisterComponent on a new manager, failed ones included and over any schemas
-- in storage: each registered component is under its own name and matches the schema that storage
-- has for that name, its ID is below the next one, and components of different names have different
-- IDs.
pub register_all-IsRegistry :
    {s : SchemaStorage} (d : Documented s) (cs : List (Metadata s)) (store : s.Store)
    → IsRegistry d (register_all cs (new_manager store))
register_all-IsRegistry d cs store =
    keeps-IsRegistry d cs (new_manager store) (new-IsRegistry d store)
