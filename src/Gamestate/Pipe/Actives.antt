-- ===== src/Gamestate/Pipe/Actives.antt =====
-- What FinalizeTick of tick.go does to the lists of entities in redis.
use world_engine.Base.{
  ℕ, List, [], ◌∷◌, ◌≡◌, refl, sym, ◌∙◌, ap, nat_eq, ◌==◌, if◌then◌else◌, arith, Bool, true, false,
  ◌&&◌, Option, none, some, inl, inr, ◌⊎◌, subst, contains, Bool-cases,
}
use world_engine.Base.GoMap.{GoMap, lookup, keys, contains-keys}
use world_engine.Base.Exec.{Result, ok}
use world_engine.Gamestate.Types.{Error, Env, Command, active_entity_id_key, set_bytes}
use world_engine.Gamestate.Redis.{kept, wrote_bytes, effect, BytesAfter, Lawful, key_eq}
use world_engine.Gamestate.MapStorage.{get}
use world_engine.Gamestate.Active.{ActiveEntities}
use world_engine.Gamestate.Ecb.{EntityCommandBuffer}
use world_engine.Gamestate.Ecb.Reset.{discard_pending}
use world_engine.Gamestate.Pipe.{Commands, and_then, active_changes, finalize_tick}
use world_engine.Gamestate.Pipe.Kinds.{Pipe, and_then-ok}
use world_engine.Gamestate.Pipe.Changes.{ticked}
use world_engine.Gamestate.Pipe.Effects.{active_parts}
use world_engine.Gamestate.Pipe.Commit.{finalize_tick-Finalized}
use world_engine.Gamestate.ReadOnly.{to_read_only, get_entities_for_arch_id}

-- Whether the list of an archetype is in memory and was modified.
abbrev pub is_modified : Option ActiveEntities → Bool
is_modified none = false
is_modified (some a) = a.modified

module _ {Bytes : Type 0} (encode : List ℕ → Result Error Bytes) (actives : GoMap ℕ ActiveEntities)
    (arch : ℕ) where
  -- What the first archetype of a loop that succeeded queued.
  first_active :
      (k : ℕ) (ks : List ℕ) {cs : List (Command Bytes)}
      → active_changes encode actives (k ∷ ks) ≡ ok cs
      → (a : ActiveEntities) × (later : List (Command Bytes)) × (lookup k actives ≡ some a)
        × (active_changes encode actives ks ≡ ok later)
        × (((a.modified ≡ false) × (cs ≡ later))
            ⊎ ((a.modified ≡ true)
                × ((bz : Bytes) × (encode a.ids ≡ ok bz)
                    × (cs ≡ set_bytes (active_entity_id_key k) bz ∷ later))))
  unfolding active_changes
  first_active k ks {cs = cs} h =
      let (a, ea, h1) = and_then-ok (get k actives) _ h in
      elim (Bool-cases a.modified) [
        | inr same ↦ (a, cs, ground (arith, ea), ground (arith, h1, same), inl (same, refl))
        | inl changed ↦
            let h2 : and_then (encode a.ids) (λ bz.
              and_then (active_changes encode actives ks)
                (λ commands. ok (set_bytes (active_entity_id_key k) bz ∷ commands)))
                ≡ ok cs =
              ground (arith, h1, changed) in
            let (bz, eb, h3) = and_then-ok (encode a.ids) _ h2 in
            let (later, el, h4) = and_then-ok (active_changes encode actives ks) _ h3 in
            (a, later, ground (arith, ea), el, inr (changed, (bz, eb, ground (arith, h4))))
      ]

  active_kept :
      (ks : List ℕ) {cs : List (Command Bytes)}
      → (contains ks arch && is_modified (lookup arch actives)) ≡ false
      → active_changes encode actives ks ≡ ok cs
      → effect (active_entity_id_key arch) cs ≡ kept
  unfolding active_changes effect contains
  active_kept [] off h = ground (arith, h)
  active_kept (k ∷ ks) {cs = cs} off h =
      let (a, later, ea, el, w) = first_active k ks h in
      let ih = active_kept ks {cs = later} (ground (arith, off)) el in
      elim w [
        | inl (same, ecs) ↦ ap (λ t. effect (active_entity_id_key arch) t) ecs ∙ ih
        | inr (changed, (bz, eb, ecs)) ↦
            let other : (k == arch) ≡ false = ground (
              arith,
              off,
              ea,
              changed,
              nat_eq.beq_iff k arch,
              λ (same : k ≡ arch). ap (λ (t : ℕ). lookup t actives) same,
            ) in
            rw ecs (ground (arith, ih, other))
      ]

  active_written :
      (ks : List ℕ) (active : ActiveEntities) {cs : List (Command Bytes)}
      → lookup arch actives ≡ some active
      → active.modified ≡ true
      → contains ks arch ≡ true
      → active_changes encode actives ks ≡ ok cs
      → (bz : Bytes) × (encode active.ids ≡ ok bz)
        × (effect (active_entity_id_key arch) cs ≡ wrote_bytes bz)
  unfolding effect contains
  active_written [] active there modified h e1 = absurd (ground (arith, h))
  active_written (k ∷ ks) active {cs = cs} there modified h e1 =
      let (a, later, ea, el, w) = first_active k ks e1 in
      elim (Bool-cases (contains ks arch)) [
        | inl again ↦
            let (bz, enc, eff) = active_written ks active {cs = later} there modified again el in
            (
              bz,
              enc,
              elim w [
                | inl (same, ecs) ↦ ap (λ t. effect (active_entity_id_key arch) t) ecs ∙ eff
                | inr (changed, (other, eb, ecs)) ↦ rw ecs (ground (arith, eff))
              ],
            )
        | inr last ↦
            let same : k ≡ arch = (nat_eq.beq_iff k arch).0 (ground (arith, h, last)) in
            let found : lookup k actives ≡ some active =
              subst (λ (t : ℕ). lookup t actives ≡ some active) (sym same) there in
            let a_same : a ≡ active = ground (arith, ea, found) in
            let later_kept = active_kept ks {cs = later} (ground (arith, last)) el in
            elim w [
              | inl (off, _) ↦
                  absurd
                    (ground (arith, off, modified, ap (λ (t : ActiveEntities). t.modified) a_same))
              | inr (changed, (bz, eb, ecs)) ↦ (
                bz,
                ap (λ (t : ActiveEntities). encode t.ids) (sym a_same) ∙ eb,
                rw ecs (ground (arith, later_kept, h, last)),
              )
            ]
      ]

-- What a read of an archetype's entities answers after the tick, by its list in memory.
abbrev pub entities_after : Option ActiveEntities → Result Error (List ℕ) → Result Error (List ℕ)
entities_after none before = before
entities_after (some a) before = if a.modified then ok a.ids else before

module _ {e : Env} (lawful : Lawful e) (m : EntityCommandBuffer e) where
  read_kept :
      (arch : ℕ) (db : e.Db)
      → e.get_bytes db (active_entity_id_key arch)
        ≡ e.get_bytes m.db_storage (active_entity_id_key arch)
      → get_entities_for_arch_id arch (to_read_only (record m { db_storage = db }))
        ≡ get_entities_for_arch_id arch (to_read_only m)
  unfolding get_entities_for_arch_id to_read_only
  read_kept arch db h = rw (h, get_entities_for_arch_id) refl

  read_written :
      (arch : ℕ) (ids : List ℕ) (db : e.Db) (bz : e.Bytes)
      → e.encode_ids ids ≡ ok bz
      → e.get_bytes db (active_entity_id_key arch) ≡ ok bz
      → get_entities_for_arch_id arch (to_read_only (record m { db_storage = db })) ≡ ok ids
  unfolding get_entities_for_arch_id to_read_only
  read_written arch ids db bz enc h = rw (h, get_entities_for_arch_id) (lawful.ids_codec ids bz enc)

  entities_read :
      (arch : ℕ) (pipe : Commands e) (db : e.Db)
      → Pipe m pipe (record m { comp_values_to_delete = [] })
      → e.exec m.db_storage (ticked pipe) ≡ ok db
      → (active : Option ActiveEntities) → lookup arch m.active_entities ≡ active
      → get_entities_for_arch_id arch (to_read_only (record m { db_storage = db }))
        ≡ entities_after active (get_entities_for_arch_id arch (to_read_only m))
  entities_read arch pipe db p executed active h =
      let k = active_entity_id_key arch in
      let ks = keys m.active_entities in
      let law = lawful.exec_bytes m.db_storage db (ticked pipe) k executed in
      let parts = active_parts m _ pipe p arch in
      let as_before =
        λ (off : (contains ks arch && is_modified (lookup arch m.active_entities)) ≡ false).
          read_kept arch db (
            subst (λ w. BytesAfter w (e.get_bytes m.db_storage k) (e.get_bytes db k))
              (parts ∙ active_kept e.encode_ids m.active_entities arch ks off p.actives_set) law) in
      go active h as_before law parts
    where
      go :
          (active : Option ActiveEntities)
          → lookup arch m.active_entities ≡ active
          → ((contains (keys m.active_entities) arch && is_modified (lookup arch m.active_entities))
                ≡ false
              → get_entities_for_arch_id arch (to_read_only (record m { db_storage = db }))
                ≡ get_entities_for_arch_id arch (to_read_only m))
          → BytesAfter
              (effect (active_entity_id_key arch) (ticked pipe))
              (e.get_bytes m.db_storage (active_entity_id_key arch))
              (e.get_bytes db (active_entity_id_key arch))
          → effect (active_entity_id_key arch) (ticked pipe)
            ≡ effect (active_entity_id_key arch) p.actives
          → get_entities_for_arch_id arch (to_read_only (record m { db_storage = db }))
            ≡ entities_after active (get_entities_for_arch_id arch (to_read_only m))
      go none h as_before law parts =
          as_before (ground (arith, contains-keys arch m.active_entities, h))
      go (some a) h as_before law parts = elim (Bool-cases a.modified) [
        | inr same ↦ rw same (as_before (ground (arith, h, same)))
        | inl changed ↦
            let there : contains (keys m.active_entities) arch ≡ true =
              ground (arith, contains-keys arch m.active_entities, h) in
            let (bz, enc, eff) =
              active_written e.encode_ids m.active_entities arch (keys m.active_entities) a h
                changed there p.actives_set in
            rw changed (
              read_written arch a.ids db bz enc (
                subst
                  (λ w.
                    BytesAfter w (e.get_bytes m.db_storage (active_entity_id_key arch))
                      (e.get_bytes db (active_entity_id_key arch)))
                  (parts ∙ eff) law))
      ]

  -- After a FinalizeTick that succeeded, GetEntitiesForArchID of the read-only view answers for every
  -- archetype the list of entities that the buffer had in memory for it, where that list was modified,
  -- and otherwise what it answered before.
  pub finalize_tick-get_entities_for_arch_id :
      {n : EntityCommandBuffer e}
      → finalize_tick m ≡ (ok tt, n)
      → (arch : ℕ)
      → get_entities_for_arch_id arch (to_read_only n)
        ≡ entities_after
            (lookup arch m.active_entities)
            (get_entities_for_arch_id arch (to_read_only m))
  unfolding discard_pending get_entities_for_arch_id to_read_only
  finalize_tick-get_entities_for_arch_id {n = n} done arch =
      let f = finalize_tick-Finalized m done in
      let db : n.db_storage ≡ f.db = ap (λ (t : EntityCommandBuffer e). t.db_storage) f.after in
      rw db (entities_read arch f.pipe f.db f.parts f.executed (lookup arch m.active_entities) refl)
