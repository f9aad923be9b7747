-- ===== src/Gamestate/Ecb/Removal.antt =====
-- What RemoveEntity of ecb.go leaves behind.
use world_engine.Base.{
  ℕ, ◌+◌, true, none, some, nat_eq, ◌≡◌, ap, sym, ◌∙◌, ◌==◌, if◌then◌else◌, arith, subst, count,
  All,
}
use world_engine.Base.GoMap.{lookup, insert, erase, lookup-erase, lookup-insert_self}
use world_engine.Base.Exec.{ok, ◌>>=◌, ◌>>◌, bind-ok, lift, gets, for_each}
use world_engine.Gamestate.Types.{Env, comp_key_eq, archetype_id_for_entity_id}
use world_engine.Gamestate.Active.{ActiveEntities, swap_remove}
use world_engine.Gamestate.CompSets.{Slice, Arrays, elements}
use world_engine.Gamestate.Ecb.{
  EntityCommandBuffer, M, get_active_entities, set_active_entities, get_archetype_for_entity,
  remember_origin,
}
use world_engine.Gamestate.Ecb.Archetypes.{get_component_types_for_arch_id}
use world_engine.Gamestate.Ecb.Entities.{delete_value, remove_entity, forget_arch_id}
use world_engine.Gamestate.Ecb.Unlisting.{
  key_of, SwapRemoved-ok, IsMarked, SameButValues, delete_loop, delete_loop_same, delete_loop_marks,
  SameStore, get_archetype-SameStore, get_active-Listed, get_active_same,
}

module _ {e : Env} where
  -- What a successful RemoveEntity did: the entity's archetype `arch` has one occurrence of it
  -- less, memory knows no archetype for it, and the values of the archetype's components
  -- are gone from memory and marked for deletion. Redis is untouched.
  pub record Removed (m : EntityCommandBuffer e) (id : ℕ) (n : EntityCommandBuffer e) : Type 0 where
    pub arch : ℕ
    pub was : ActiveEntities
    pub left : ActiveEntities
    pub comps : Slice
    pub db : n.db_storage ≡ m.db_storage
    pub was_in : (get_archetype_for_entity id m).0 ≡ ok arch
    pub was_listed : (get_active_entities arch m).0 ≡ ok was
    pub unmapped : lookup id n.entity_id_to_arch_id ≡ none
    pub listed : lookup arch n.active_entities ≡ some (record left { modified = true })
    pub one_less : (j : ℕ) → count j left.ids + (if id == j then 1 else 0) ≡ count j was.ids
    pub types : lookup arch n.arch_id_to_comps ≡ some comps
    pub marks : All (λ c. IsMarked (key_of c id) n) (elements n.arrays comps)

  -- The steps behind the two reads, on the state `m` after them.
  finish : ℕ → ℕ → ActiveEntities → M e (Unit {0})
  finish id arch active = do
    left ← lift (swap_remove active id)
    set_active_entities arch left
    remember_origin id arch
    forget_arch_id id
    comps ← get_component_types_for_arch_id arch
    cells ← gets (λ m. elements m.arrays comps)
    for_each cells λ c. delete_value (key_of c id)

  pub record Finished (m : EntityCommandBuffer e) (id arch : ℕ) (active : ActiveEntities)
      (n : EntityCommandBuffer e) : Type 0 where
    pub left : ActiveEntities
    pub comps : Slice
    pub swapped : swap_remove active id ≡ ok left
    pub db : n.db_storage ≡ m.db_storage
    pub unmapped : lookup id n.entity_id_to_arch_id ≡ none
    pub listed : lookup arch n.active_entities ≡ some (record left { modified = true })
    pub types : lookup arch n.arch_id_to_comps ≡ some comps
    pub marks : All (λ c. IsMarked (key_of c id) n) (elements n.arrays comps)

  -- The state in which the loop over the components runs, and the two answers on the way.
  record Ready (m : EntityCommandBuffer e) (id arch : ℕ) (active left : ActiveEntities)
      (comps : Slice) (n : EntityCommandBuffer e) : Type 0 where
    swapped : swap_remove active id ≡ ok left
    db : n.db_storage ≡ m.db_storage
    archs : n.entity_id_to_arch_id ≡ erase id m.entity_id_to_arch_id
    active_lists :
        n.active_entities ≡ insert arch (record left { modified = true }) m.active_entities
    types : lookup arch n.arch_id_to_comps ≡ some comps

  finish-Ready :
      (id arch : ℕ) (active : ActiveEntities) (m : EntityCommandBuffer e)
      {n : EntityCommandBuffer e}
      → finish id arch active m ≡ (ok tt, n)
      → (left : ActiveEntities) × (comps : Slice) × (p : EntityCommandBuffer e) × Ready m id arch
          active left comps p
        × (delete_loop id (elements p.arrays comps) p ≡ (ok tt, n))
  unfolding finish lift gets set_active_entities remember_origin get_component_types_for_arch_id
      delete_loop
  finish-Ready id arch active m {n = n} h =
      let (left, m1, e1, h1) = bind-ok (lift (swap_remove active id)) _ m h in
      let (_, m2, e2, h2) = bind-ok (set_active_entities arch left) _ m1 h1 in
      let (_, m3, e3, h3) = bind-ok (remember_origin id arch) _ m2 h2 in
      let (_, m4, e4, h4) = bind-ok (forget_arch_id id) _ m3 h3 in
      let (comps, m5, e5, h5) = bind-ok (get_component_types_for_arch_id arch) _ m4 h4 in
      let (cells, m6, e6, h6) = bind-ok (gets (λ m. elements m.arrays comps)) _ m5 h5 in
      (
        left,
        comps,
        m6,
        record {
          swapped = ground arith;
          db = ground arith;
          archs = ground arith;
          active_lists = ground arith;
          types = ground arith;
        },
        ground arith,
      )

  finish-Finished :
      (id arch : ℕ) (active : ActiveEntities) (m : EntityCommandBuffer e)
      {n : EntityCommandBuffer e}
      → finish id arch active m ≡ (ok tt, n)
      → Finished m id arch active n
  finish-Finished id arch active m {n = n} h =
      let (left, comps, p, ready, loop) = finish-Ready id arch active m h in
      let same : SameButValues p n =
        subst (λ t. SameButValues p t.1) loop (delete_loop_same id (elements p.arrays comps) p) in
      record {
        left = left;
        comps = comps;
        swapped = ready.swapped;
        db = same.db ∙ ready.db;
        unmapped =
            ground (arith, same.archs, ready.archs, lookup-erase id id m.entity_id_to_arch_id);
        listed = ground (
          arith,
          same.active,
          ready.active_lists,
          lookup-insert_self arch (record left { modified = true }) m.active_entities,
        );
        types = ground (arith, same.comps, ready.types);
        marks =
            subst (λ (t : Arrays e). All (λ c. IsMarked (key_of c id) n) (elements t comps))
              (sym same.arrays)
              (subst (λ t. All (λ c. IsMarked (key_of c id) t.1) (elements p.arrays comps)) loop
                (delete_loop_marks id (elements p.arrays comps) p));
      }

  -- Whenever RemoveEntity succeeds, the entity had an archetype, that archetype lists one occurrence
  -- of the entity less and every other entity as often as before, memory knows no archetype for the
  -- entity any more, the value of each component of the archetype is gone from memory and marked for
  -- deletion in redis, and redis itself is untouched.
  pub remove_entity-Removed :
      (id : ℕ) (m : EntityCommandBuffer e) {n : EntityCommandBuffer e}
      → remove_entity id m ≡ (ok tt, n)
      → Removed m id n
  unfolding remove_entity finish
  remove_entity-Removed id m {n = n} h =
      let (arch, m1, e1, h1) = bind-ok (get_archetype_for_entity id) _ m h in
      let (was, m2, e2, h2) = bind-ok (get_active_entities arch) _ m1 h1 in
      let s1 : SameStore m m1 = subst (λ t. SameStore m t.1) e1 (get_archetype-SameStore id m) in
      let s2 = get_active-Listed arch m1 e2 in
      let f = finish-Finished id arch was m2 h2 in
      let swapped = SwapRemoved-ok was f.left id f.swapped in
      record {
        arch = arch;
        was = was;
        left = record f.left { modified = true };
        comps = f.comps;
        db = f.db ∙ s2.db ∙ s1.db;
        was_in = ap (λ t. t.0) e1;
        was_listed = sym (get_active_same arch m m1 s1) ∙ ap (λ t. t.0) e2;
        unmapped = f.unmapped;
        listed = f.listed;
        one_less = swapped.1;
        types = f.types;
        marks = f.marks;
      }

  -- Once RemoveEntity has succeeded on an entity that redis has in archetype `arch`, the next read
  -- of the entity's archetype finds it there again and writes it back to memory: within the tick the
  -- removal is not seen, whatever the entity's state was before.
  pub removed_entity_returns :
      (id arch : ℕ) (m : EntityCommandBuffer e) {n : EntityCommandBuffer e}
      → e.get_num m.db_storage (archetype_id_for_entity_id id) ≡ ok arch
      → remove_entity id m ≡ (ok tt, n)
      → get_archetype_for_entity id n
        ≡ (ok arch, record n { entity_id_to_arch_id = insert id arch n.entity_id_to_arch_id })
  unfolding get_archetype_for_entity
  removed_entity_returns id arch m {n = n} saved h =
      let r = remove_entity-Removed id m h in
      let there : e.get_num n.db_storage (archetype_id_for_entity_id id) ≡ ok arch =
        ap (λ (db : e.Db). e.get_num db (archetype_id_for_entity_id id)) r.db ∙ saved in
      ground (arith, r.unmapped)
