-- ===== src/Filter.antt =====
-- cardinal/filter: the filters on the components of an archetype. A `types.Component` is known by
-- its `Name()` alone. The variadic constructors take their slice as an argument.
pub mod Laws
pub mod Tests
use world_engine.Base.{
  ℕ, zero, suc, String, ◌≡◌, refl, Bool, true, false, not, ◌||◌, ◌&&◌, Option, none, some, List, [],
  ◌∷◌, map, length, arith, is_some, if◌then◌else◌, ◌==◌, string_eq, nat_eq,
}
use world_engine.Base.GoMap.{GoMap, lookup, insert}

pub record Component : Type 0 where
  pub name : String

-- ComponentMetadata as far as the filters read it is a component too.
unfoldable pub match_component_metadata : List Component → Component → Bool
match_component_metadata [] c_type = false
match_component_metadata (c ∷ cs) c_type =
    let rest = match_component_metadata cs c_type in if c_type.name == c.name then true else rest

-- `for _, component := range components { m[component.Name()] = component }`
unfoldable pub fill_matcher : List Component → GoMap String Component → GoMap String Component
fill_matcher [] m = m
fill_matcher (c ∷ cs) m = fill_matcher cs (insert c.name c m)

unfoldable pub create_component_matcher : List Component → Component → Bool
create_component_matcher cs = let m = fill_matcher cs [] in λ c_type. is_some (lookup c_type.name m)

-- `for _, c := range cs { if !matchComponent(c) { return false } }; return true`
unfoldable pub matches_each : (Component → Bool) → List Component → Bool
matches_each match [] = true
matches_each match (c ∷ cs) =
    let rest = matches_each match cs in if not (match c) then false else rest

mutual
  pub data ComponentFilter : Type 0 where
    all : ComponentFilter
    and or : Filters → ComponentFilter
    negation : ComponentFilter → ComponentFilter
    having exact : List Component → ComponentFilter

  pub data Filters : Type 0 where
    nil : Filters
    cons : ComponentFilter → Filters → Filters

unfoldable mutual
  pub matches_components : ComponentFilter → List Component → Bool
  matches_components all comps = true
  matches_components (and fs) comps = matches_and fs comps
  matches_components (or fs) comps = matches_or fs comps
  matches_components (negation f) comps = not (matches_components f comps)
  matches_components (having cs) comps = matches_each (create_component_matcher comps) cs
  matches_components (exact cs) comps =
      if not (length comps == length cs)
      then false
      else matches_each (create_component_matcher cs) comps

  pub matches_and : Filters → List Component → Bool
  matches_and nil comps = true
  matches_and (cons f fs) comps =
      if not (matches_components f comps) then false else matches_and fs comps

  pub matches_or : Filters → List Component → Bool
  matches_or nil comps = false
  matches_or (cons f fs) comps = if matches_components f comps then true else matches_or fs comps
