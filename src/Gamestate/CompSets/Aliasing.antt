-- ===== src/Gamestate/CompSets/Aliasing.antt =====
-- What AddComponentToEntity does to the slice that it appends to: append and sort.Slice of
-- component.go on a slice with spare capacity.
use world_engine.Base.{
  ℕ, zero, suc, ◌+◌, ◌≤◌, ◌<◌, List, [], ◌∷◌, ◌++◌, true, ◌≡◌, refl, ap, ◌∙◌, length, get_elem?,
  set, take, drop, some, arith, ltb, get_elem?-set_self, length-set, length-append, nat_eq,
}
use world_engine.Gamestate.Types.{Env, ComponentMetadata}
use world_engine.Gamestate.CompSets.{
  Array, Slice, Arrays, elements, append, insert_sorted, sort_by_id, sort_component_set,
}

module _ {ℓ} {A : Type ℓ} where
  pub take-append : (n : ℕ) (xs ys : List A) → n ≤ length xs → take n (xs ++ ys) ≡ take n xs
  take-append zero xs ys h = refl
  take-append (suc n) [] ys h = absurd (omega arith)
  take-append (suc n) (x ∷ xs) ys h = ap (λ (t : List A). x ∷ t) (take-append n xs ys (omega arith))

  take_next :
      (xs : List A) (x : A) (ys : List A) → take (suc (length xs)) (xs ++ x ∷ ys) ≡ xs ++ x ∷ []
  take_next [] x ys = refl
  take_next (y ∷ xs) x ys = ap (λ (t : List A). y ∷ t) (take_next xs x ys)

  pub take_whole : (xs : List A) (n : ℕ) → length xs ≡ n → take n xs ≡ xs
  take_whole [] zero h = refl
  take_whole [] (suc n) h = absurd (omega arith)
  take_whole (x ∷ xs) zero h = absurd (omega arith)
  take_whole (x ∷ xs) (suc n) h = ap (λ (t : List A). x ∷ t) (take_whole xs n (omega arith))

  length-take : (n : ℕ) (xs : List A) → n ≤ length xs → length (take n xs) ≡ n
  length-take zero xs h = refl
  length-take (suc n) [] h = absurd (omega arith)
  length-take (suc n) (x ∷ xs) h = ap suc (length-take n xs (omega arith))

module _ {e : Env} where
  length-insert_sorted :
      (c : ComponentMetadata e) (ds : List (ComponentMetadata e))
      → length (insert_sorted c ds) ≡ suc (length ds)
  unfolding insert_sorted
  length-insert_sorted c [] = refl
  length-insert_sorted c (d ∷ ds) = ground (arith, length-insert_sorted c ds)

  length-sort_by_id : (cs : List (ComponentMetadata e)) → length (sort_by_id cs) ≡ length cs
  unfolding sort_by_id
  length-sort_by_id [] = refl
  length-sort_by_id (c ∷ cs) =
      length-insert_sorted c (sort_by_id cs) ∙ ap suc (length-sort_by_id cs)

  -- What the append writes, in the array that the slice is a window on.
  abbrev grown : Array e → ℕ → ComponentMetadata e → Array e
  grown a len c = record { cells = take len a.cells ++ c ∷ drop (len + 1) a.cells; cap = a.cap }

  append_in_place :
      (arrays : Arrays e) (s : Slice) (a : Array e) (c : ComponentMetadata e)
      → get_elem? arrays s.address ≡ some a
      → s.len < a.cap
      → append arrays s c ≡ (record s { len = s.len + 1 }, set arrays s.address (grown a s.len c))
  unfolding append
  append_in_place arrays s a c at spare =
      let spare_now : ltb s.len a.cap ≡ true = ground arith in rw (at, append) (rw spare_now refl)

  elements-grown :
      (arrays : Arrays e) (s : Slice) (a : Array e) (c : ComponentMetadata e)
      → get_elem? arrays s.address ≡ some a
      → s.address < length arrays
      → s.len ≤ length a.cells
      → elements (set arrays s.address (grown a s.len c)) (record s { len = s.len + 1 })
        ≡ elements arrays s ++ c ∷ []
  unfolding elements
  elements-grown arrays s a c at inside whole =
      let written = get_elem?-set_self arrays s.address (grown a s.len c) inside in
      let next : s.len + 1 ≡ suc (length (take s.len a.cells)) =
        omega (arith, length-take s.len a.cells whole) in
      rw (written, at, elements)
        (ap (λ (n : ℕ). take n (take s.len a.cells ++ c ∷ drop (s.len + 1) a.cells)) next
          ∙ take_next (take s.len a.cells) c (drop (s.len + 1) a.cells))

  length-elements :
      (arrays : Arrays e) (s : Slice) (a : Array e)
      → get_elem? arrays s.address ≡ some a
      → s.len ≤ length a.cells
      → length (elements arrays s) ≡ s.len
  unfolding elements
  length-elements arrays s a at whole = rw (at, elements) (length-take s.len a.cells whole)

  pub sorted_in_place :
      (arrays : Arrays e) (t : Slice) (len : ℕ)
      → t.address < length arrays
      → len ≤ length (elements arrays t)
      → elements (sort_component_set arrays t).1 (record t { len = len })
        ≡ take len (sort_by_id (elements arrays t))
  unfolding elements sort_component_set
  sorted_in_place arrays t len inside short =
      rw (get_elem?-set_self arrays t.address _ inside, elements)
        (take-append len (sort_by_id (elements arrays t)) _
          (omega (arith, short, length-sort_by_id (elements arrays t))))

  pub length-sort_component_set :
      (arrays : Arrays e) (t : Slice) → length (sort_component_set arrays t).1 ≡ length arrays
  unfolding sort_component_set
  length-sort_component_set arrays t = length-set arrays t.address _

  inside-get_elem? :
      (arrays : Arrays e) (i : ℕ) (a : Array e) → get_elem? arrays i ≡ some a → i < length arrays
  inside-get_elem? [] i a h = cc
  inside-get_elem? (x ∷ arrays) zero a h = omega arith
  inside-get_elem? (x ∷ arrays) (suc i) a h = omega (arith, inside-get_elem? arrays i a h)

  -- Appending a component to a slice with spare capacity, on an array that holds its elements, and
  -- sorting the result: a longer window on the same array, which holds the sorted components.
  pub append-sort_component_set :
      (arrays : Arrays e) (s : Slice) (a : Array e) (c : ComponentMetadata e)
      (sorted : List (ComponentMetadata e))
      → get_elem? arrays s.address ≡ some a
      → s.len ≤ length a.cells
      → s.len < a.cap
      → sort_by_id (elements arrays s ++ c ∷ []) ≡ sorted
      → let (t, grown_arrays) = append arrays s c in
        let arrays2 = (sort_component_set grown_arrays t).1 in
        (t ≡ record s { len = s.len + 1 })
        × (elements arrays2 (record s { len = s.len + 1 }) ≡ sorted)
        × (length sorted ≡ s.len + 1)
        × (s.address < length arrays2)
  append-sort_component_set arrays s a c sorted at whole spare by_id =
      let inside = inside-get_elem? arrays s.address a at in
      let appended = append_in_place arrays s a c at spare in
      let arrays1 = set arrays s.address (grown a s.len c) in
      let t : Slice = record s { len = s.len + 1 } in
      let now = elements-grown arrays s a c at inside whole in
      let here : sort_by_id (elements arrays1 t) ≡ sorted = ap sort_by_id now ∙ by_id in
      let size : length sorted ≡ s.len + 1 = omega (
        arith,
        ap length by_id,
        length-sort_by_id (elements arrays s ++ c ∷ []),
        length-append (elements arrays s) (c ∷ []),
        length-elements arrays s a at whole,
      ) in
      let same_size = length-set arrays s.address (grown a s.len c) in
      rw appended (
        refl,
        sorted_in_place arrays1 t (s.len + 1) (omega (arith, inside, same_size))
              (omega (arith, ap length here, length-sort_by_id (elements arrays1 t), size))
            ∙ ap (take (s.len + 1)) here
            ∙ take_whole sorted (s.len + 1) size,
        size,
        omega (arith, inside, same_size, length-sort_component_set arrays1 t),
      )
