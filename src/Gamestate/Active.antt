-- ===== src/Gamestate/Active.antt =====
-- cardinal/gamestate/active.go: the entities of an archetype, and their removal by a swap with the
-- last one.
pub mod Laws
use world_engine.Base.{
  ℕ, zero, suc, ◌+◌, ◌-◌, ◌<◌, ◌≤◌, List, [], ◌∷◌, ◌++◌, Bool, true, false, Option, none, some, ◌≡◌,
  ◌==◌, nat_eq, length, get_elem?, set, take, arith, if◌then◌else◌, ltb, refl, ap, count, contains,
}
use world_engine.Base.Exec.{Result, ok, err}
use world_engine.Gamestate.Types.{Error, cannot_find_entity}

pub record ActiveEntities : Type 0 where
  pub ids : List ℕ
  pub modified : Bool

-- `for i, id := range a.ids { if idToRemove == id { indexOfID = i; break } }`, from index `i`
unfoldable pub index_of : ℕ → List ℕ → ℕ → Option ℕ
index_of id [] i = none
index_of id (x ∷ xs) i = let rest = index_of id xs (i + 1) in if id == x then some i else rest

-- `a.ids[indexOfID] = a.ids[lastIndex]`, in bounds
abbrev pub set_to : List ℕ → ℕ → Option ℕ → List ℕ
set_to ids i none = ids
set_to ids i (some last) = set ids i last

unfoldable pub remove_at : List ℕ → ℕ → List ℕ
remove_at ids i =
    let last_index = length ids - 1 in
    let moved = if ltb i last_index then set_to ids i (get_elem? ids last_index) else ids in
    take (length ids - 1) moved

abbrev pub removed_at : ActiveEntities → Option ℕ → Result Error ActiveEntities
removed_at a none = err cannot_find_entity
removed_at a (some i) = ok (record a { ids = remove_at a.ids i })

unfoldable pub swap_remove : ActiveEntities → ℕ → Result Error ActiveEntities
unfolding index_of remove_at
swap_remove a id_to_remove = removed_at a (index_of id_to_remove a.ids 0)
