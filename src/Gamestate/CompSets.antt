-- ===== src/Gamestate/CompSets.antt =====
-- cardinal/gamestate/component.go: sets of components as sorted slices, and Go's slices of
-- component metadata as windows on arrays that several slices may share.
pub mod Aliasing
pub mod Sorted
use world_engine.Base.{
  ℕ, ◌+◌, List, [], ◌∷◌, ◌++◌, Bool, true, false, ◌==◌, nat_eq, length, get_elem?, set, take, drop,
  Option, none, some, if◌then◌else◌, ltb, ◌||◌, ◌&&◌,
}
use world_engine.Base.Exec.{Result, ok, err}
use world_engine.Gamestate.Types.{Error, duplicate_components, Env, ComponentMetadata}

-- An array behind slices: the cells written so far, which are its first ones, and its length.
pub record Array (e : Env) : Type 0 where
  pub cells : List (ComponentMetadata e)
  pub cap : ℕ

-- A slice starts at its array's first cell; `address` is the array's place among all arrays.
pub record Slice : Type 0 where
  pub address : ℕ
  pub len : ℕ

abbrev pub Arrays : Env → Type 0
Arrays e = List (Array e)

abbrev pub unless_duplicate : Bool → Result Error (Unit {0})
unless_duplicate true = err duplicate_components
unless_duplicate false = ok tt

module _ {e : Env} where
  abbrev pub cells_of : Option (Array e) → List (ComponentMetadata e)
  cells_of none = []
  cells_of (some a) = a.cells

  abbrev pub cap_of : Option (Array e) → ℕ
  cap_of none = 0
  cap_of (some a) = a.cap

  -- The elements `s[0], …, s[len(s) - 1]`.
  unfoldable pub elements : Arrays e → Slice → List (ComponentMetadata e)
  elements arrays s = take s.len (cells_of (get_elem? arrays s.address))

  -- A new array of the given capacity, and the slice over it.
  unfoldable pub allocate : Arrays e → List (ComponentMetadata e) → ℕ → Slice × Arrays e
  allocate arrays xs cap = (
    record { address = length arrays; len = length xs },
    arrays ++ record { cells = xs; cap = cap } ∷ [],
  )

  -- `append(s, x)`: within the capacity it writes to the shared array, else it copies.
  unfoldable pub append : Arrays e → Slice → ComponentMetadata e → Slice × Arrays e
  unfolding allocate elements
  append arrays s x =
      let a = get_elem? arrays s.address in
      if ltb s.len (cap_of a)
      then (
        record s { len = s.len + 1 },
        set arrays s.address (record {
          cells = take s.len (cells_of a) ++ x ∷ drop (s.len + 1) (cells_of a);
          cap = cap_of a;
        }),
      )
      else allocate arrays (elements arrays s ++ x ∷ []) (e.grow (cap_of a))

  -- `sort.Slice` by ID; the IDs of a set are distinct, so the sorted order is the only one.
  unfoldable pub insert_sorted :
      ComponentMetadata e → List (ComponentMetadata e) → List (ComponentMetadata e)
  insert_sorted c [] = c ∷ []
  insert_sorted c (d ∷ ds) = if ltb d.id c.id then d ∷ insert_sorted c ds else c ∷ d ∷ ds

  unfoldable pub sort_by_id : List (ComponentMetadata e) → List (ComponentMetadata e)
  unfolding insert_sorted
  sort_by_id [] = []
  sort_by_id (c ∷ cs) = insert_sorted c (sort_by_id cs)

  -- `components[i] == components[i-1]` for some `i`: the same object twice
  unfoldable pub has_adjacent_duplicate : List (ComponentMetadata e) → Bool
  has_adjacent_duplicate [] = false
  has_adjacent_duplicate (c ∷ []) = false
  has_adjacent_duplicate (c ∷ d ∷ cs) = (c.address == d.address) || has_adjacent_duplicate (d ∷ cs)

  -- The slice is sorted in place, also when a duplicate is then reported.
  unfoldable pub sort_component_set : Arrays e → Slice → Result Error (Unit {0}) × Arrays e
  unfolding sort_by_id elements has_adjacent_duplicate
  sort_component_set arrays s =
      let a = get_elem? arrays s.address in
      let sorted = sort_by_id (elements arrays s) in
      (
        unless_duplicate (has_adjacent_duplicate sorted),
        set arrays s.address (record { cells = sorted ++ drop s.len (cells_of a); cap = cap_of a }),
      )

  -- The lengths are equal and the IDs agree place by place.
  unfoldable pub is_component_set_match :
      List (ComponentMetadata e) → List (ComponentMetadata e) → Bool
  is_component_set_match [] [] = true
  is_component_set_match [] (y ∷ ys) = false
  is_component_set_match (x ∷ xs) [] = false
  is_component_set_match (x ∷ xs) (y ∷ ys) = (x.id == y.id) && is_component_set_match xs ys
