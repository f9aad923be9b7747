-- ===== src/Gamestate/Pipe/Reload.antt =====
-- redis.go and ecb.go: reading the archetypes back from redis and registering the components.
use world_engine.Base.{ℕ, List, [], ◌∷◌, Option, none, some, nat_eq, if◌then◌else◌, length, ltb}
use world_engine.Base.GoMap.{GoMap, lookup, insert}
use world_engine.Base.Exec.{Result, ok, err, ◌>>=◌, ◌>>◌}
use world_engine.Gamestate.Types.{
  Error, Env, ComponentMetadata, arch_ids_to_comp_types_key, is_redis_nil, archetypes_overwritten,
  component_mismatch_with_saved_state,
}
use world_engine.Gamestate.MapStorage.{len}
use world_engine.Gamestate.CompSets.{Slice, Arrays, append}
use world_engine.Gamestate.Ecb.{M}

module _ {e : Env} where
  -- `for … { currComps = append(currComps, currComp) }`; the slice is nil before the first round.
  unfoldable pub load_comps :
      GoMap ℕ (ComponentMetadata e) → List ℕ → Slice → Arrays e → Result Error (Slice × Arrays e)
  load_comps types [] comps arrays = ok (comps, arrays)
  load_comps types (type_id ∷ rest) comps arrays = elim (lookup type_id types) [
    | none ↦ err component_mismatch_with_saved_state
    | some c ↦ let (comps', arrays') = append arrays comps c in load_comps types rest comps' arrays'
  ]

  -- A nil slice: an address with no array behind it.
  abbrev pub nil_slice : Arrays e → Slice
  nil_slice arrays = record { address = length arrays; len = 0 }

  unfoldable pub load_entries :
      GoMap ℕ (ComponentMetadata e)
      → List (ℕ × List ℕ)
      → GoMap ℕ Slice
      → Arrays e
      → Result Error (GoMap ℕ Slice × Arrays e)
  unfolding load_comps append
  load_entries types [] archs arrays = ok (archs, arrays)
  load_entries types ((arch, type_ids) ∷ rest) archs arrays =
      elim (load_comps types type_ids (nil_slice arrays) arrays) [
        | err error ↦ err error
        | ok (comps, arrays') ↦ load_entries types rest (insert arch comps archs) arrays'
      ]

  abbrev pub decoded :
      GoMap ℕ (ComponentMetadata e)
      → Arrays e
      → Result Error (List (ℕ × List ℕ))
      → Result Error (Option (GoMap ℕ Slice × Arrays e))
  decoded types arrays (err error) = err error
  decoded types arrays (ok entries) = elim (load_entries types entries [] arrays) [
    | err error ↦ err error
    | ok loaded ↦ ok (some loaded)
  ]

  -- `none` for the answer `nil, false, nil`: nothing is saved.
  unfoldable pub get_arch_id_to_comp_types_from_redis :
      e.Db
      → GoMap ℕ (ComponentMetadata e)
      → Arrays e
      → Result Error (Option (GoMap ℕ Slice × Arrays e))
  unfolding load_entries is_redis_nil
  get_arch_id_to_comp_types_from_redis db types arrays =
      elim (e.get_bytes db arch_ids_to_comp_types_key) [
        | err error ↦ if is_redis_nil error then ok none else err error
        | ok bz ↦ decoded types arrays (e.decode_archs bz)
      ]

  abbrev pub keep_loaded : Option (GoMap ℕ Slice × Arrays e) → M e (Unit {0})
  keep_loaded none m = (ok tt, m)
  keep_loaded (some (archs, arrays')) m =
      if ltb 0 (len m.arch_id_to_comps)
      then (err archetypes_overwritten, record m { arrays = arrays' })
      else (ok tt, record m { arch_id_to_comps = archs; arrays = arrays' })

  unfoldable pub load_arch_ids : GoMap ℕ (ComponentMetadata e) → M e (Unit {0})
  unfolding ◌>>=◌ get_arch_id_to_comp_types_from_redis
  load_arch_ids types = do
    loaded ← λ m. (get_arch_id_to_comp_types_from_redis m.db_storage types m.arrays, m)
    keep_loaded loaded

  unfoldable pub by_id :
      List (ComponentMetadata e) → GoMap ℕ (ComponentMetadata e) → GoMap ℕ (ComponentMetadata e)
  by_id [] types = types
  by_id (c ∷ cs) types = by_id cs (insert c.id c types)

  unfoldable pub register_components : List (ComponentMetadata e) → M e (Unit {0})
  unfolding ◌>>=◌ by_id load_arch_ids
  register_components comps = do
    let types = by_id comps []
    λ m. (ok tt, record m { type_to_component = some types })
    load_arch_ids types
