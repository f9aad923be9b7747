-- ===== src/Gamestate/Ecb/Create.antt =====
-- The entity IDs that CreateManyEntities of ecb.go hands out.
use mathlib.Core.List.{append_assoc, append-nil}
use world_engine.Base.{
  ℕ, zero, suc, ◌+◌, ◌%◌, ◌^◌, ◌<◌, List, [], ◌∷◌, ◌++◌, true, none, some, nat_eq, ◌≡◌, refl, ap,
  ◌∙◌, if◌then◌else◌, arith, leb, ltb, ◌&&◌, subst,
}
use world_engine.Base.GoMap.{lookup, insert, lookup-insert}
use world_engine.Base.Exec.{ok, ◌>>=◌, bind-ok, bind-step, pure}
use world_engine.Gamestate.Types.{Env}
use world_engine.Gamestate.Active.{ActiveEntities}
use world_engine.Gamestate.CompSets.{Slice}
use world_engine.Gamestate.Ecb.{EntityCommandBuffer, get_active_entities, set_active_entities}
use world_engine.Gamestate.Ecb.Archetypes.{get_or_make_arch_id_for_components}
use world_engine.Gamestate.Ecb.Entities.{create_one, create_loop, create_many_entities}
use world_engine.Gamestate.Ecb.Frame.{
  SameEntities, get_or_make-SameEntities, get_active-SameEntities,
}

-- `first, first + 1, …`, `num` of them
unfoldable pub range_from : ℕ → ℕ → List ℕ
range_from first zero = []
range_from first (suc num) = first ∷ range_from (first + 1) num

-- The archetype's entities with `new` behind them; nothing is marked if `new` is empty.
abbrev pub grown : ActiveEntities → List ℕ → ActiveEntities
grown active [] = active
grown active (id ∷ ids) = record { ids = active.ids ++ id ∷ ids; modified = true }

grown-grown :
    (active : ActiveEntities) (id : ℕ) (ids : List ℕ)
    → grown (grown active (id ∷ [])) ids ≡ grown active (id ∷ ids)
grown-grown active id [] = refl
grown-grown active id (x ∷ ids) =
    ap {B = ActiveEntities} (λ t. record { ids = t; modified = true })
      (append_assoc active.ids (id ∷ []) (x ∷ ids))

module _ {e : Env} where
  abbrev pub marked_one : ℕ → ℕ → EntityCommandBuffer e → EntityCommandBuffer e
  marked_one arch first m = record m {
    pending_entity_ids = m.pending_entity_ids + 1;
    entity_id_to_arch_id = insert first arch m.entity_id_to_arch_id;
    entity_id_to_origin_arch_id = insert first none m.entity_id_to_origin_arch_id;
  }

  -- The buffer after it has handed out the IDs `first, first + 1, …` to one archetype.
  pub mark_created : ℕ → ℕ → ℕ → EntityCommandBuffer e → EntityCommandBuffer e
  mark_created arch first zero m = m
  mark_created arch first (suc num) m = mark_created arch (first + 1) num (marked_one arch first m)

  create_one_lem :
      (arch first : ℕ) (ids : List ℕ) (active : ActiveEntities) (m : EntityCommandBuffer e)
      → m.is_entity_id_loaded ≡ true
      → m.next_entity_id_saved + m.pending_entity_ids ≡ first
      → first + 1 < 2 ^ 64
      → create_one arch (ids, active) m
        ≡ (ok (ids ++ first ∷ [], grown active (first ∷ [])), mark_created arch first 1 m)
  unfolding create_one mark_created
  create_one_lem arch first ids active m l s bound =
      let here : (m.next_entity_id_saved + m.pending_entity_ids) % 2 ^ 64 ≡ first = omega arith in
      let next : (m.pending_entity_ids + 1) % 2 ^ 64 ≡ m.pending_entity_ids + 1 = omega arith in
      ground arith

  -- The loop hands out consecutive IDs from the counter on, in order.
  pub create_loop_lem :
      (num arch first : ℕ) (ids : List ℕ) (active : ActiveEntities) (m : EntityCommandBuffer e)
      → m.is_entity_id_loaded ≡ true
      → m.next_entity_id_saved + m.pending_entity_ids ≡ first
      → first + num < 2 ^ 64
      → create_loop num arch (ids, active) m ≡ (
        ok (ids ++ range_from first num, grown active (range_from first num)),
        mark_created arch first num m,
      )
  unfolding create_loop mark_created range_from
  create_loop_lem zero arch first ids active m l s bound = simp append-nil
  create_loop_lem (suc num) arch first ids active m l s bound =
      bind-step (create_one arch (ids, active)) (create_loop num arch) m
        (create_one_lem arch first ids active m l s (omega arith))
      ∙ create_loop_lem num arch (first + 1) (ids ++ first ∷ []) (grown active (first ∷ []))
          (mark_created arch first 1 m) l (omega arith) (omega arith)
      ∙ simp (append_assoc, grown-grown)

  mark_created_arch :
      (arch first num : ℕ) (m : EntityCommandBuffer e) (id : ℕ)
      → lookup id (mark_created arch first num m).entity_id_to_arch_id ≡ (
          if leb first id && ltb id (first + num)
          then some arch
          else lookup id m.entity_id_to_arch_id)
  unfolding mark_created
  mark_created_arch arch first zero m id = ground arith
  mark_created_arch arch first (suc num) m id = ground (
    arith,
    mark_created_arch arch (first + 1) num (marked_one arch first m) id,
    lookup-insert first id arch m.entity_id_to_arch_id,
  )

  mark_created_counter :
      (arch first num : ℕ) (m : EntityCommandBuffer e)
      → ((mark_created arch first num m).pending_entity_ids ≡ m.pending_entity_ids + num)
        × ((mark_created arch first num m).next_entity_id_saved ≡ m.next_entity_id_saved)
        × ((mark_created arch first num m).active_entities ≡ m.active_entities)
  unfolding mark_created
  mark_created_counter arch first zero m = (omega arith, refl, refl)
  mark_created_counter arch first (suc num) m =
      let rest = mark_created_counter arch (first + 1) num (marked_one arch first m) in
      (omega arith, rest.1, rest.2)

  -- What CreateManyEntities did: the IDs are consecutive from the counter, the counter moved past
  -- them, and exactly they were assigned to the archetype `arch`.
  pub record Created (m : EntityCommandBuffer e) (num : ℕ) (ids : List ℕ)
      (n : EntityCommandBuffer e) : Type 0 where
    pub arch : ℕ
    pub consecutive : ids ≡ range_from (m.next_entity_id_saved + m.pending_entity_ids) num
    pub saved : n.next_entity_id_saved ≡ m.next_entity_id_saved
    pub pending : n.pending_entity_ids ≡ m.pending_entity_ids + num
    pub assigned :
        (id : ℕ)
        → lookup id n.entity_id_to_arch_id ≡ (
            if leb (m.next_entity_id_saved + m.pending_entity_ids) id
              && ltb id (m.next_entity_id_saved + m.pending_entity_ids + num)
            then some arch
            else lookup id m.entity_id_to_arch_id)

  created :
      (num arch : ℕ) (m p q n : EntityCommandBuffer e) (active : ActiveEntities)
      (made : List ℕ × ActiveEntities) (ids : List ℕ)
      → m.is_entity_id_loaded ≡ true
      → m.next_entity_id_saved + m.pending_entity_ids + num < 2 ^ 64
      → SameEntities m p
      → create_loop num arch ([], active) p ≡ (ok made, q)
      → (set_active_entities arch made.1 >>= λ _. pure made.0) q ≡ (ok ids, n)
      → Created m num ids n
  unfolding ◌>>=◌ set_active_entities
  created num arch m p q n active made ids l bound same loop last =
      let first = m.next_entity_id_saved + m.pending_entity_ids in
      let start : p.next_entity_id_saved + p.pending_entity_ids ≡ first =
        omega (arith, same.saved, same.pending) in
      let run = create_loop_lem num arch first [] active p (same.loaded ∙ l) start bound in
      let counter = mark_created_counter arch first num p in
      record {
        arch = arch;
        consecutive = cc (run, loop, last);
        saved = cc (run, loop, last, counter.1, same.saved);
        pending = ground (arith, run, loop, last, counter.0, same.pending);
        assigned = λ id.
            ground (arith, run, loop, last, mark_created_arch arch first num p id, same.archs);
      }

  SameEntities-trans :
      {m n p : EntityCommandBuffer e} → SameEntities m n → SameEntities n p → SameEntities m p
  SameEntities-trans s t = record {
    db = t.db ∙ s.db;
    saved = t.saved ∙ s.saved;
    pending = t.pending ∙ s.pending;
    loaded = t.loaded ∙ s.loaded;
    archs = t.archs ∙ s.archs;
    origins = t.origins ∙ s.origins;
  }

  -- Once the counter is loaded and as long as it stays below 2^64, whenever CreateManyEntities
  -- succeeds it returns the next `num` consecutive IDs, the counter moves on by `num`, so that no
  -- ID is handed out twice, and exactly those IDs are mapped to one archetype while every other
  -- entity keeps the archetype that memory has for it.
  pub create_many-Created :
      (num : ℕ) (comps : Slice) (m : EntityCommandBuffer e) {ids : List ℕ}
      {n : EntityCommandBuffer e}
      → m.is_entity_id_loaded ≡ true
      → m.next_entity_id_saved + m.pending_entity_ids + num < 2 ^ 64
      → create_many_entities num comps m ≡ (ok ids, n)
      → Created m num ids n
  unfolding create_many_entities
  create_many-Created num comps m {ids = ids} {n = n} l bound h =
      let (arch, m1, e1, h1) = bind-ok (get_or_make_arch_id_for_components comps) _ m h in
      let (active, m2, e2, h2) = bind-ok (get_active_entities arch) _ m1 h1 in
      let (made, m3, e3, h3) = bind-ok (create_loop num arch ([], active)) _ m2 h2 in
      let s1 : SameEntities m m1 =
        subst (λ t. SameEntities m t.1) e1 (get_or_make-SameEntities comps m) in
      let s2 : SameEntities m1 m2 =
        subst (λ t. SameEntities m1 t.1) e2 (get_active-SameEntities arch m1) in
      created num arch m m2 m3 n active made ids l bound (SameEntities-trans s1 s2) e3 h3
