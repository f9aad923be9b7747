-- ===== src/Gamestate/MapStorage.antt =====
-- cardinal/gamestate/map.go: MapStorage. Only `Get` can return an error; the others always return
-- `nil`, so they are total functions here.
use world_engine.Base.{ℕ, [], Eq, Option, none, some, length}
use world_engine.Base.GoMap.{GoMap, lookup}
use world_engine.Base.Exec.{Result, ok, err}
use world_engine.Gamestate.Types.{Error, not_found}

abbrev pub found_or : {V : Type 0} → Option V → Result Error V
found_or none = err not_found
found_or (some v) = ok v

module _ {K V : Type 0} where
  abbrev pub new_map_storage : GoMap K V
  new_map_storage = []

  -- Len()
  abbrev pub len : GoMap K V → ℕ
  len m = length m

  unfoldable pub clear : GoMap K V → GoMap K V
  clear m = []

module _ {K V : Type 0} ⦃e : Eq K⦄ where
  -- Get(key)
  abbrev pub get : K → GoMap K V → Result Error V
  get k m = found_or (lookup k m)
