-- ===== src/Gamestate/Ecb/Overwriting.antt =====
-- What AddComponentToEntity of ecb.go does to the components of the entity's old archetype, where
-- their slice has spare capacity.
use world_engine.Base.{
  ℕ, suc, ◌+◌, ◌≤◌, ◌<◌, List, [], ◌∷◌, ◌++◌, ◌≡◌, sym, ap, ◌∙◌, length, get_elem?, take, some,
  arith, length-append, map, nat_eq, subst, Bool-cases, inl, inr,
}
use mathlib.Core.List.{append_assoc}
use world_engine.Base.Exec.{ok, ◌>>=◌, ◌>>◌, fail, attempt, bind-ok, bind-step}
use world_engine.Filter.{match_component_metadata}
use world_engine.Gamestate.Types.{Env, ComponentMetadata}
use world_engine.Gamestate.CompSets.{
  Array, Slice, Arrays, elements, append, sort_by_id, sort_component_set,
}
use world_engine.Gamestate.CompSets.Aliasing.{
  take-append, take_whole, sorted_in_place, length-sort_component_set, append-sort_component_set,
}
use world_engine.Gamestate.CompSets.Sorted.{
  Ascends, sort_by_id_placed, sort_by_id_sorted, init-Ascends,
}
use world_engine.Gamestate.Ecb.{
  EntityCommandBuffer, move_entity_by_archetype, get_active_entities, get_archetype_for_entity,
  remember_origin, set_active_entities,
}
use world_engine.Gamestate.Ecb.Archetypes.{
  get_component_types_for_entity, get_or_make_arch_id_for_components, get_arch_id_for_components,
  sort_components, component_of, get_component_types_for_arch_id, make_arch_id,
}
use world_engine.Gamestate.Ecb.Components.{add_component_to_entity}

module _ {e : Env} where
  get_component_types-arrays :
      (id : ℕ) (m : EntityCommandBuffer e)
      → (get_component_types_for_entity id m).1.arrays ≡ m.arrays
  unfolding get_component_types_for_entity get_archetype_for_entity get_component_types_for_arch_id
      ◌>>=◌
  get_component_types-arrays id m = ground arith

  get_or_make-arrays :
      (comps : Slice) (m : EntityCommandBuffer e)
      → 0 < comps.len
      → (get_or_make_arch_id_for_components comps m).1.arrays
        ≡ (sort_component_set m.arrays comps).1
  unfolding get_or_make_arch_id_for_components get_arch_id_for_components make_arch_id ◌>>=◌ attempt
  get_or_make-arrays comps m some_ = ground arith

  move-arrays :
      (from_arch to_arch id : ℕ) (m : EntityCommandBuffer e)
      → (move_entity_by_archetype from_arch to_arch id m).1.arrays ≡ m.arrays
  unfolding move_entity_by_archetype remember_origin get_active_entities set_active_entities ◌>>=◌
  move-arrays from_arch to_arch id m = ground arith

  -- The rest of AddComponentToEntity, once the new components are appended and sorted: the slices
  -- `t` and `s` share their array, and both are sorted again in place.
  rest-elements :
      (arrays : Arrays e) (s : Slice) (kept : List (ComponentMetadata e))
      (last : ComponentMetadata e)
      → let t : Slice = record s { len = s.len + 1 } in
        let sorted = kept ++ last ∷ [] in
        s.address < length arrays
        → elements arrays t ≡ sorted
        → length sorted ≡ s.len + 1
        → Ascends sorted
        → elements (sort_component_set (sort_component_set arrays t).1 s).1 s ≡ kept
  rest-elements arrays s kept last inside here size ascends =
      let t : Slice = record s { len = s.len + 1 } in
      let sorted = kept ++ last ∷ [] in
      let by_id = ap sort_by_id here ∙ sort_by_id_sorted sorted ascends in
      let kept_size : length kept ≡ s.len = omega (arith, size, length-append kept (last ∷ [])) in
      let now : elements (sort_component_set arrays t).1 s ≡ kept =
        sorted_in_place arrays t s.len inside (omega (arith, ap length here, size))
        ∙ ap (take s.len) by_id
        ∙ take-append s.len kept (last ∷ []) (omega (arith, kept_size))
        ∙ take_whole kept s.len kept_size in
      sorted_in_place (sort_component_set arrays t).1 s s.len
        (omega (arith, inside, length-sort_component_set arrays t))
        (omega (arith, ap length now, kept_size))
      ∙ ap (take s.len)
          (ap sort_by_id now ∙ sort_by_id_sorted kept (init-Ascends kept last ascends))
      ∙ take_whole kept s.len kept_size

  overwritten :
      (arrays : Arrays e) (s : Slice) (a : Array e) (c last : ComponentMetadata e)
      (before between : List (ComponentMetadata e))
      → get_elem? arrays s.address ≡ some a
      → s.len ≤ length a.cells
      → s.len < a.cap
      → elements arrays s ≡ before ++ (between ++ (last ∷ []))
      → Ascends (before ++ (c ∷ (between ++ (last ∷ []))))
      → let (t, arrays1) = append arrays s c in
        (0 < s.len)
        × (0 < t.len)
        × (elements
              (sort_component_set (sort_component_set (sort_component_set arrays1 t).1 t).1 s).1
              s
            ≡ before ++ (c ∷ between))
  overwritten arrays s a c last before between at whole spare held ascends =
      let sorted = before ++ (c ∷ (between ++ (last ∷ []))) in
      let by_id : sort_by_id (elements arrays s ++ c ∷ []) ≡ sorted =
        ap (λ xs. sort_by_id (xs ++ c ∷ [])) held
        ∙ sort_by_id_placed before (between ++ last ∷ []) c ascends in
      let (window, here, size, inside) =
        append-sort_component_set arrays s a c sorted at whole spare by_id in
      let kept = before ++ (c ∷ between) in
      let split : sorted ≡ kept ++ last ∷ [] =
        sym (append_assoc before (c ∷ between) (last ∷ [])) in
      let two : length sorted ≡ suc (length kept) =
        omega (arith, ap length split, length-append kept (last ∷ [])) in
      let one : length kept ≡ length before + suc (length between) =
        length-append before (c ∷ between) in
      let window_len : (append arrays s c).0.len ≡ s.len + 1 = ap (λ u. u.len) window in
      let arrays1 = (append arrays s c).1 in
      (
        omega (arith, two, size, one),
        omega (arith, window_len),
        ap
              (λ u.
                elements
                  (sort_component_set
                    (sort_component_set (sort_component_set arrays1 (append arrays s c).0).1 u).1
                    s).1
                  s)
              window
            ∙ rest-elements (sort_component_set arrays1 (append arrays s c).0).1 s kept last inside
                (here ∙ split) (sym (ap length split) ∙ size) (subst Ascends split ascends),
      )

  -- What the moving of the entity leaves in the arrays, `t` being the new components.
  moved-arrays :
      (s t : Slice) (id : ℕ) (m : EntityCommandBuffer e) {n : EntityCommandBuffer e}
      → 0 < s.len
      → 0 < t.len
      → (sort_components t
            >> (get_or_make_arch_id_for_components t >>= λ to_arch.
                get_or_make_arch_id_for_components s >>= λ from_arch.
                move_entity_by_archetype from_arch to_arch id))
          m
        ≡ (ok tt, n)
      → n.arrays
        ≡ (sort_component_set (sort_component_set (sort_component_set m.arrays t).1 t).1 s).1
  moved-arrays s t id m some_s some_t done =
      let (u, m2, e2, h2) = bind-ok (sort_components t) _ m done in
      let (to_arch, m3, e3, h3) = bind-ok (get_or_make_arch_id_for_components t) _ m2 h2 in
      let (from_arch, m4, e4, h4) = bind-ok (get_or_make_arch_id_for_components s) _ m3 h3 in
      let a2 = sym (ap (λ r. r.1.arrays) e2) in
      let a3 = sym (ap (λ r. r.1.arrays) e3) ∙ get_or_make-arrays t m2 some_t in
      let a4 = sym (ap (λ r. r.1.arrays) e4) ∙ get_or_make-arrays s m3 some_s in
      sym (ap (λ r. r.1.arrays) h4)
      ∙ move-arrays from_arch to_arch id m4
      ∙ a4
      ∙ ap (λ arrays. (sort_component_set arrays s).1)
          (a3 ∙ ap (λ arrays. (sort_component_set arrays t).1) a2)

  -- Let the slice of the components of an entity's archetype have spare capacity, on an array that
  -- holds them: `before` are those with IDs below that of a new component, `between` and `last` those
  -- above it, in ascending order. Where AddComponentToEntity succeeds in adding the new component to
  -- the entity, it has overwritten the slice of the archetype that the entity leaves: its last
  -- component is gone, and the new one is in it.
  pub add_component_overwrites :
      (c last : ComponentMetadata e) (before between : List (ComponentMetadata e)) (id : ℕ)
      (m : EntityCommandBuffer e) (s : Slice) (a : Array e) {n : EntityCommandBuffer e}
      → (get_component_types_for_entity id m).0 ≡ ok s
      → get_elem? m.arrays s.address ≡ some a
      → s.len ≤ length a.cells
      → s.len < a.cap
      → elements m.arrays s ≡ before ++ (between ++ (last ∷ []))
      → Ascends (before ++ (c ∷ (between ++ (last ∷ []))))
      → add_component_to_entity c id m ≡ (ok tt, n)
      → elements n.arrays s ≡ before ++ (c ∷ between)
  unfolding add_component_to_entity ◌>>=◌ fail
  add_component_overwrites c last before between id m s a {n = n} got at whole spare held ascends
        done =
      let m1 = (get_component_types_for_entity id m).1 in
      let found : get_component_types_for_entity id m ≡ (ok s, m1) = λ i. (got i, m1) in
      let same : m1.arrays ≡ m.arrays = get_component_types-arrays id m in
      let going_on = sym (bind-step (get_component_types_for_entity id) _ m found) ∙ done in
      let there =
        match_component_metadata (map component_of (elements m1.arrays s)) (component_of c) in
      elim (Bool-cases there) [
        | inl yes_ ↦ let never = rw yes_ at going_on in cc
        | inr no_ ↦
            let moved = rw no_ at going_on in
            let (t, arrays1) = append m1.arrays s c in
            let (some_s, some_t, over) =
              overwritten m1.arrays s a c last before between
                (subst (λ arrays. get_elem? arrays s.address ≡ some a) (sym same) at) whole spare
                (subst (λ arrays. elements arrays s ≡ before ++ (between ++ (last ∷ []))) (sym same)
                  held)
                ascends in
            ap (λ arrays. elements arrays s)
              (moved-arrays s t id (record m1 { arrays = arrays1 }) some_s some_t moved)
            ∙ over
      ]
