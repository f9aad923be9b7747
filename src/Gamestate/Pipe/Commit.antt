-- ===== src/Gamestate/Pipe/Commit.antt =====
-- What FinalizeTick of tick.go makes redis answer.
use world_engine.Base.{
  ℕ, ◌+◌, ◌%◌, ◌^◌, ◌≤◌, count, List, [], ◌∷◌, ◌≡◌, refl, sym, ◌∙◌, ap, nat_eq, if◌then◌else◌,
  arith, Option, none, some, inl, inr, subst, ◌==◌, contains, is_some,
}
use world_engine.Base.GoMap.{GoMap, lookup, erase, keys, IsMap, lookup-erase, contains-keys}
use world_engine.Base.Exec.{Result, ok, err, bind-ok, Result-cases}
use world_engine.Gamestate.Types.{
  Error, redis_nil, Env, next_entity_id_key, archetype_id_for_entity_id, last_finalized_tick_key,
}
use world_engine.Gamestate.Redis.{bumped, NumAfter, Lawful, key_eq}
use world_engine.Gamestate.Ecb.{EntityCommandBuffer}
use world_engine.Gamestate.Ecb.Reset.{discard_pending, erase_all}
use world_engine.Gamestate.Pipe.{
  Commands, make_pipe_of_redis_commands, end_transaction, finalize_tick,
}
use world_engine.Gamestate.Pipe.Kinds.{Pipe}
use world_engine.Gamestate.Pipe.Parts.{make-Pipe-Pipe}
use world_engine.Gamestate.Pipe.Changes.{ticked, origin_effect}
use world_engine.Gamestate.Pipe.Effects.{entity_key_effect, next_id_effect, tick_effect}

module _ {e : Env} where
  -- What a FinalizeTick that returned went through.
  pub record Finalized (m n : EntityCommandBuffer e) : Type 0 where
    pub pipe : Commands e
    pub db : e.Db
    pub parts : Pipe m pipe (record m { comp_values_to_delete = [] })
    pub executed : e.exec m.db_storage (ticked pipe) ≡ ok db
    pub after :
        n
        ≡ discard_pending
            (record m { comp_values_to_delete = []; db_storage = db; pending_arch_ids = [] })

  executed_ok :
      (m n : EntityCommandBuffer e) (pipe : Commands e)
      → end_transaction pipe m ≡ (ok tt, n)
      → (db : e.Db) × (e.exec m.db_storage pipe ≡ ok db) × (n ≡ record m { db_storage = db })
  executed_ok m n pipe h = elim (Result-cases (e.exec m.db_storage pipe)) [
    | inl (db, r) ↦ (db, r, ground arith)
    | inr (x, r) ↦ absurd (ground arith)
  ]

  pub finalize_tick-Finalized :
      (m : EntityCommandBuffer e) {n : EntityCommandBuffer e}
      → finalize_tick m ≡ (ok tt, n)
      → Finalized m n
  unfolding finalize_tick
  finalize_tick-Finalized m {n = n} h =
      let (pipe, m1, e1, h1) = bind-ok make_pipe_of_redis_commands _ m h in
      let (_, m2, e2, h2) = bind-ok (end_transaction (ticked pipe)) _ m1 h1 in
      let p = make-Pipe-Pipe m e1 in
      let (db, e3, e4) = executed_ok m1 m2 (ticked pipe) e2 in
      let last : n ≡ discard_pending (record m2 { pending_arch_ids = [] }) =
        sym (ap (λ t. t.1) h2) in
      record {
        pipe = pipe;
        db = db;
        parts = subst (Pipe m pipe) p.same p;
        executed =
            ap (λ (t : EntityCommandBuffer e). e.exec t.db_storage (ticked pipe)) (sym p.same) ∙ e3;
        after =
            last
            ∙ ap
                (λ (t : EntityCommandBuffer e).
                  discard_pending (record t { pending_arch_ids = [] }))
                (e4 ∙ ap (λ (t : EntityCommandBuffer e). record t { db_storage = db }) p.same);
      }

-- A removed entity, one that memory knows nothing of, and one that it knows.
abbrev pub current_of : Option ℕ → Option (Option ℕ) → Result Error ℕ → Result Error ℕ
current_of (some arch) origin saved = ok arch
current_of none (some origin) saved = err redis_nil
current_of none none saved = saved

-- What redis answers after the change of an entity, by what memory has of it.
changed-current :
    (Bytes : Type 0) (arch : Option ℕ) (origin : Option (Option ℕ)) (before after : Result Error ℕ)
    → NumAfter (origin_effect {Bytes = Bytes} arch origin) before after
    → ((a : ℕ) → arch ≡ some a → origin ≡ none → before ≡ ok a)
    → ((a : ℕ) → origin ≡ some (some a) → before ≡ ok a)
    → after ≡ current_of arch origin before
changed-current Bytes none none before after h cached origin = h
changed-current Bytes (some a) none before after h cached origin = h ∙ cached a refl refl
changed-current Bytes none (some o) before after h cached origin = h
changed-current Bytes (some a) (some none) before after h cached origin = h
changed-current Bytes (some a) (some (some o)) before after h cached origin =
    ground (arith, origin o refl)

erase_all-lookup :
    {V : Type 0} (id : ℕ) (ks : List ℕ) (m : GoMap ℕ V)
    → lookup id (erase_all ks m) ≡ (if contains ks id then none else lookup id m)
unfolding erase_all contains
erase_all-lookup id [] m = refl
erase_all-lookup id (k ∷ ks) m =
    ground (arith, erase_all-lookup id ks (erase k m), lookup-erase k id m)

-- Once the origins are forgotten the answer is the same.
kept_current :
    (arch : Option ℕ) (origin : Option (Option ℕ)) (before after : Result Error ℕ)
    → after ≡ current_of arch origin before
    → (if is_some origin then after else current_of arch origin after)
      ≡ current_of arch origin before
kept_current none none before after h = h
kept_current (some a) none before after h = refl
kept_current arch (some o) before after h = h

module _ {e : Env} where
  -- The archetype that the maps of the buffer give an entity, and redis where they have no entry.
  abbrev pub current : EntityCommandBuffer e → ℕ → Result Error ℕ
  current m id =
      current_of (lookup id m.entity_id_to_arch_id) (lookup id m.entity_id_to_origin_arch_id)
        (e.get_num m.db_storage (archetype_id_for_entity_id id))

  -- Memory and redis agree: what is cached without an origin is what redis has, and an origin is
  -- the archetype that redis has. Each entity has at most one origin.
  pub record IsConsistent (m : EntityCommandBuffer e) : Type 0 where
    pub cached :
        (id arch : ℕ)
        → lookup id m.entity_id_to_arch_id ≡ some arch
        → lookup id m.entity_id_to_origin_arch_id ≡ none
        → e.get_num m.db_storage (archetype_id_for_entity_id id) ≡ ok arch
    pub origin :
        (id arch : ℕ)
        → lookup id m.entity_id_to_origin_arch_id ≡ some (some arch)
        → e.get_num m.db_storage (archetype_id_for_entity_id id) ≡ ok arch
    pub distinct : IsMap m.entity_id_to_origin_arch_id

  discard-current :
      (m : EntityCommandBuffer e) (id : ℕ)
      → current (discard_pending m) id ≡ (
          if is_some (lookup id m.entity_id_to_origin_arch_id)
          then e.get_num m.db_storage (archetype_id_for_entity_id id)
          else current m id)
  unfolding discard_pending lookup
  discard-current m id = ground (
    arith,
    erase_all-lookup id (keys m.entity_id_to_origin_arch_id) m.entity_id_to_arch_id,
    contains-keys id m.entity_id_to_origin_arch_id,
  )

  module _ (lawful : Lawful e) (m : EntityCommandBuffer e) {n : EntityCommandBuffer e}
      (done : finalize_tick m ≡ (ok tt, n)) where
    -- If memory and redis agree before, then after a FinalizeTick that succeeded redis answers for
    -- every entity exactly the archetype that the buffer's maps gave it: the pending one, nothing
    -- for an entity pending removal, and what it answered before for an entity that is not pending.
    pub finalize_tick-current :
        IsConsistent m
        → (id : ℕ)
        → (e.get_num n.db_storage (archetype_id_for_entity_id id) ≡ current m id)
          × (current n id ≡ current m id)
    unfolding discard_pending
    finalize_tick-current c id =
        let f = finalize_tick-Finalized m done in
        let k = archetype_id_for_entity_id id in
        let arch = lookup id m.entity_id_to_arch_id in
        let origin = lookup id m.entity_id_to_origin_arch_id in
        let changed : NumAfter (origin_effect {Bytes = e.Bytes} arch origin)
            (e.get_num m.db_storage k) (e.get_num f.db k) =
          subst (λ w. NumAfter w (e.get_num m.db_storage k) (e.get_num f.db k))
            (entity_key_effect m _ f.pipe f.parts id c.distinct)
            (lawful.exec_num m.db_storage f.db (ticked f.pipe) k f.executed) in
        let redis : e.get_num f.db k ≡ current m id =
          changed-current e.Bytes arch origin (e.get_num m.db_storage k) (e.get_num f.db k) changed
            (c.cached id) (c.origin id) in
        let end : EntityCommandBuffer e = record m {
          comp_values_to_delete = [];
          db_storage = f.db;
          pending_arch_ids = [];
        } in
        (
          ap (λ (t : EntityCommandBuffer e). e.get_num t.db_storage k) f.after ∙ redis,
          ap (λ (t : EntityCommandBuffer e). current t id) f.after
              ∙ discard-current end id
              ∙ kept_current arch origin (e.get_num m.db_storage k) (e.get_num f.db k) redis,
        )

    -- A FinalizeTick that succeeded moves the tick counter in redis from `t` to `t + 1`, and from
    -- no value to 1; if IDs were handed out, redis holds the next free ID, modulo 2^64, and if none
    -- were, its answer is the old one.
    pub finalize_tick-counters :
        NumAfter {Bytes = e.Bytes} bumped
          (e.get_num m.db_storage last_finalized_tick_key)
          (e.get_num n.db_storage last_finalized_tick_key)
        × (e.get_num n.db_storage next_entity_id_key ≡ (
            if m.pending_entity_ids == 0
            then e.get_num m.db_storage next_entity_id_key
            else ok ((m.next_entity_id_saved + m.pending_entity_ids) % 2 ^ 64)))
    unfolding discard_pending
    finalize_tick-counters =
        let f = finalize_tick-Finalized m done in
        let db : n.db_storage ≡ f.db = ap (λ (t : EntityCommandBuffer e). t.db_storage) f.after in
        let tick_now =
          subst
            (λ w.
              NumAfter w (e.get_num m.db_storage last_finalized_tick_key)
                (e.get_num f.db last_finalized_tick_key))
            (tick_effect m _ f.pipe f.parts)
            (lawful.exec_num m.db_storage f.db (ticked f.pipe) last_finalized_tick_key
              f.executed) in
        let next_now =
          subst
            (λ w.
              NumAfter w (e.get_num m.db_storage next_entity_id_key)
                (e.get_num f.db next_entity_id_key))
            (next_id_effect m _ f.pipe f.parts)
            (lawful.exec_num m.db_storage f.db (ticked f.pipe) next_entity_id_key f.executed) in
        (
          subst
              (λ (t : e.Db).
                NumAfter {Bytes = e.Bytes} bumped (e.get_num m.db_storage last_finalized_tick_key)
                  (e.get_num t last_finalized_tick_key))
              (sym db) tick_now,
          ap (λ (t : e.Db). e.get_num t next_entity_id_key) db ∙ ground arith,
        )

    -- A FinalizeTick that succeeded leaves memory and redis in agreement, if they agreed before.
    pub finalize_tick-IsConsistent : IsConsistent m → IsConsistent n
    unfolding discard_pending lookup keys count
    finalize_tick-IsConsistent c =
        let f = finalize_tick-Finalized m done in
        let cleared : n.entity_id_to_origin_arch_id ≡ [] =
          ap (λ (t : EntityCommandBuffer e). t.entity_id_to_origin_arch_id) f.after in
        record {
          cached = λ id arch h k.
              let now = finalize_tick-current c id in now.0 ∙ sym now.1 ∙ ground (arith, h, k);
          origin = λ id arch h. absurd (ground (arith, h, ap (λ t. lookup id t) cleared));
          distinct = λ id. subst (λ t. count id (keys t) ≤ 1) (sym cleared) (omega arith);
        }
