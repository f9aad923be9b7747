-- ===== src/Gamestate/Pipe/Values.antt =====
-- What FinalizeTick of tick.go does to the component values in redis.
use world_engine.Base.{
  ℕ, List, [], ◌∷◌, ◌≡◌, refl, sym, ap, nat_eq, if◌then◌else◌, arith, Bool, true, false, ◌&&◌,
  Option, none, some, inl, inr, subst, contains, Bool-cases,
}
use world_engine.Base.GoMap.{GoMap, lookup, keys, contains-keys}
use world_engine.Base.Exec.{Result, ok, err}
use world_engine.Gamestate.Types.{
  Error, redis_nil, Env, ComponentMetadata, CompKey, comp_key_eq, component_key, set_bytes,
}
use world_engine.Gamestate.Redis.{
  Effect, kept, gone, wrote_bytes, combine, effect, BytesAfter, Lawful, key_eq,
}
use world_engine.Gamestate.MapStorage.{get}
use world_engine.Gamestate.Ecb.{EntityCommandBuffer}
use world_engine.Gamestate.Ecb.Reset.{discard_pending}
use world_engine.Gamestate.Pipe.{Commands, and_then, deletions, encode_values, finalize_tick}
use world_engine.Gamestate.Pipe.Kinds.{Pipe, and_then-ok}
use world_engine.Gamestate.Pipe.Changes.{ticked}
use world_engine.Gamestate.Pipe.Effects.{value_parts}
use world_engine.Gamestate.Pipe.Commit.{finalize_tick-Finalized}

abbrev pub is_marked : Option Bool → Bool
is_marked (some true) = true
is_marked _ = false

effect-deletions :
    (Bytes : Type 0) (marks : GoMap CompKey Bool) (key : CompKey) (ks : List CompKey)
    → effect (component_key key.type_id key.entity_id) (deletions {Bytes = Bytes} marks ks)
      ≡ (if contains ks key && is_marked (lookup key marks) then gone else kept)
unfolding effect deletions contains
effect-deletions Bytes marks key [] = refl
effect-deletions Bytes marks key (k ∷ ks) = ground (
  arith,
  effect-deletions Bytes marks key ks,
  comp_key_eq.beq_iff k key,
  λ (same : k ≡ key). ap (λ (t : CompKey). lookup t marks) same,
)

marked_held :
    (key : CompKey) (marks : GoMap CompKey Bool)
    → is_marked (lookup key marks) ≡ true
    → contains (keys marks) key ≡ true
marked_held key marks h = ground (arith, h, contains-keys key marks)

module _ {Bytes : Type 0} where
  -- From the effects of the deletions and of the writes to what a read answers.
  unwritten_after :
      (w dels sets : Effect Bytes) (held marked : Bool) (before after : Result Error Bytes)
      → BytesAfter w before after
      → w ≡ combine dels sets
      → dels ≡ (if held && marked then gone else kept)
      → (marked ≡ true → held ≡ true)
      → sets ≡ kept
      → after ≡ (if marked then err redis_nil else before)
  unwritten_after w dels sets held marked before after law whole d known none_set =
      elim (Bool-cases marked) [
        | inl yes_marked ↦
            let gone_now : w ≡ gone =
              ground (arith, whole, d, known yes_marked, yes_marked, none_set) in
            rw yes_marked (subst (λ t. BytesAfter t before after) gone_now law)
        | inr unmarked ↦
            let kept_now : w ≡ kept = ground (arith, whole, d, unmarked, none_set) in
            rw unmarked (subst (λ t. BytesAfter t before after) kept_now law)
      ]

  written_after :
      (w dels sets : Effect Bytes) (bz : Bytes) (before after : Result Error Bytes)
      → BytesAfter w before after
      → w ≡ combine dels sets
      → sets ≡ wrote_bytes bz
      → after ≡ ok bz
  written_after w dels sets bz before after law whole set_now =
      let wrote_now : w ≡ wrote_bytes bz = ground (arith, whole, set_now) in
      subst (λ t. BytesAfter t before after) wrote_now law

module _ {e : Env} where
  -- The bytes that a value in memory is written as.
  abbrev pub encoded :
      Option (GoMap ℕ (ComponentMetadata e)) → CompKey → e.Any → Result Error e.Bytes
  encoded none key value = err redis_nil
  encoded (some types) key value = and_then (get key.type_id types) λ c. c.encode value

  -- The encoding of the first value succeeded, and what is queued behind it.
  first_value :
      (types : GoMap ℕ (ComponentMetadata e)) (values : GoMap CompKey e.Any) (k : CompKey)
      (ks : List CompKey) {cs : Commands e}
      → encode_values types values (k ∷ ks) ≡ ok cs
      → (v : e.Any) × (bz : e.Bytes) × (later : Commands e) × (lookup k values ≡ some v)
        × (encoded (some types) k v ≡ ok bz)
        × (encode_values types values ks ≡ ok later)
        × (cs ≡ set_bytes (component_key k.type_id k.entity_id) bz ∷ later)
  unfolding encode_values
  first_value types values k ks h =
      let (c, ec, h1) = and_then-ok (get k.type_id types) _ h in
      let (v, ev, h2) = and_then-ok (get k values) _ h1 in
      let (bz, eb, h3) = and_then-ok (c.encode v) _ h2 in
      let (later, el, h4) = and_then-ok (encode_values types values ks) _ h3 in
      (v, bz, later, ground (arith, ev), rw (ec, eb) refl, el, ground (arith, h4))

  not_written :
      (types : GoMap ℕ (ComponentMetadata e)) (values : GoMap CompKey e.Any) (key : CompKey)
      (ks : List CompKey) {cs : Commands e}
      → contains ks key ≡ false
      → encode_values types values ks ≡ ok cs
      → effect (component_key key.type_id key.entity_id) cs ≡ kept
  unfolding encode_values effect contains
  not_written types values key [] h e1 = ground (arith, e1)
  not_written types values key (k ∷ ks) h e1 =
      let (v, bz, later, ev, eb, el, ecs) = first_value types values k ks e1 in
      let rest : contains ks key ≡ false = ground (arith, h) in
      rw ecs (ground (arith, h, not_written types values key ks {cs = later} rest el))

  written :
      (types : GoMap ℕ (ComponentMetadata e)) (values : GoMap CompKey e.Any) (key : CompKey)
      (value : e.Any) (ks : List CompKey) {cs : Commands e}
      → lookup key values ≡ some value
      → contains ks key ≡ true
      → encode_values types values ks ≡ ok cs
      → (bz : e.Bytes) × (encoded (some types) key value ≡ ok bz)
        × (effect (component_key key.type_id key.entity_id) cs ≡ wrote_bytes bz)
  unfolding effect contains
  written types values key value [] there h e1 = absurd (ground (arith, h))
  written types values key value (k ∷ ks) there h e1 =
      let (v, bz, later, ev, eb, el, ecs) = first_value types values k ks e1 in
      elim (Bool-cases (contains ks key)) [
        | inl again ↦
            let (bz', enc, eff) = written types values key value ks {cs = later} there again el in
            (bz', enc, rw ecs (ground (arith, eff)))
        | inr once ↦
            let same : k ≡ key = (comp_key_eq.beq_iff k key).0 (ground (arith, h, once)) in
            let eff = not_written types values key ks {cs = later} once el in
            let found : lookup k values ≡ some value =
              subst (λ (t : CompKey). lookup t values ≡ some value) (sym same) there in
            let v_same : v ≡ value = ground (arith, ev, found) in
            (
              bz,
              subst (λ (t : CompKey). encoded (some types) t value ≡ ok bz) same
                  (subst (λ (t : e.Any). encoded (some types) k t ≡ ok bz) v_same eb),
              rw ecs (ground (arith, eff, h, once)),
            )
      ]

  -- What a read of the bytes of a component answers after the tick, by the value in memory and by
  -- whether it is marked for deletion.
  abbrev pub ValueAfter :
      Option (GoMap ℕ (ComponentMetadata e))
      → CompKey
      → Option e.Any
      → Bool
      → Result Error e.Bytes
      → Result Error e.Bytes
      → Type 0
  ValueAfter types key none marked before after = after ≡ (if marked then err redis_nil else before)
  ValueAfter types key (some value) marked before after =
      (bz : e.Bytes) × (encoded types key value ≡ ok bz) × (after ≡ ok bz)

  value_after :
      (m : EntityCommandBuffer e) (key : CompKey) (pipe : Commands e) (after : Result Error e.Bytes)
      (p : Pipe m pipe (record m { comp_values_to_delete = [] }))
      → BytesAfter
          (effect (component_key key.type_id key.entity_id) (ticked pipe))
          (e.get_bytes m.db_storage (component_key key.type_id key.entity_id))
          after
      → (value : Option e.Any) → lookup key m.comp_values ≡ value
      → ValueAfter m.type_to_component key value
          (is_marked (lookup key m.comp_values_to_delete))
          (e.get_bytes m.db_storage (component_key key.type_id key.entity_id))
          after
  value_after m key pipe after p law none h =
      let k = component_key key.type_id key.entity_id in
      let marks = m.comp_values_to_delete in
      let missing : contains (keys m.comp_values) key ≡ false =
        ground (arith, contains-keys key m.comp_values, h) in
      unwritten_after (effect k (ticked pipe)) (effect k (deletions marks (keys marks)))
        (effect k p.sets) (contains (keys marks) key) (is_marked (lookup key marks))
        (e.get_bytes m.db_storage k) after law (value_parts m _ pipe p key.type_id key.entity_id)
        (effect-deletions e.Bytes marks key (keys marks)) (marked_held key marks)
        (not_written p.types m.comp_values key (keys m.comp_values) missing p.values_set)
  value_after m key pipe after p law (some value) h =
      let k = component_key key.type_id key.entity_id in
      let marks = m.comp_values_to_delete in
      let there : contains (keys m.comp_values) key ≡ true =
        ground (arith, contains-keys key m.comp_values, h) in
      let (bz, enc, eff) =
        written p.types m.comp_values key value (keys m.comp_values) h there p.values_set in
      (
        bz,
        subst (λ (t : Option (GoMap ℕ (ComponentMetadata e))). encoded t key value ≡ ok bz)
            (sym p.known) enc,
        written_after (effect k (ticked pipe)) (effect k (deletions marks (keys marks)))
            (effect k p.sets) bz (e.get_bytes m.db_storage k) after law
            (value_parts m _ pipe p key.type_id key.entity_id) eff,
      )

  module _ (lawful : Lawful e) (m : EntityCommandBuffer e) {n : EntityCommandBuffer e}
      (done : finalize_tick m ≡ (ok tt, n)) where
    -- After a FinalizeTick that succeeded, the value of each component of each entity reads back from
    -- redis as the encoding, by the registered component type, of the value in memory; where memory
    -- has none, it is gone if it was marked for deletion, and as before if it was not.
    pub finalize_tick-ValueAfter :
        (key : CompKey)
        → ValueAfter m.type_to_component key
            (lookup key m.comp_values)
            (is_marked (lookup key m.comp_values_to_delete))
            (e.get_bytes m.db_storage (component_key key.type_id key.entity_id))
            (e.get_bytes n.db_storage (component_key key.type_id key.entity_id))
    unfolding discard_pending
    finalize_tick-ValueAfter key =
        let f = finalize_tick-Finalized m done in
        let k = component_key key.type_id key.entity_id in
        let db : f.db ≡ n.db_storage =
          sym (ap (λ (t : EntityCommandBuffer e). t.db_storage) f.after) in
        subst
          (λ (t : e.Db).
            ValueAfter m.type_to_component key (lookup key m.comp_values)
              (is_marked (lookup key m.comp_values_to_delete)) (e.get_bytes m.db_storage k)
              (e.get_bytes t k))
          db
          (value_after m key f.pipe (e.get_bytes f.db k) f.parts
            (lawful.exec_bytes m.db_storage f.db (ticked f.pipe) k f.executed)
            (lookup key m.comp_values) refl)

  -- DiscardPending drops the values in memory and keeps the marks of removals: a FinalizeTick that
  -- succeeds right after it deletes the saved value of a component whose removal was discarded.
  pub discarded_removal_deletes :
      (lawful : Lawful e) (m : EntityCommandBuffer e) (key : CompKey) {n : EntityCommandBuffer e}
      → lookup key m.comp_values_to_delete ≡ some true
      → finalize_tick (discard_pending m) ≡ (ok tt, n)
      → e.get_bytes n.db_storage (component_key key.type_id key.entity_id) ≡ err redis_nil
  unfolding discard_pending lookup
  discarded_removal_deletes lawful m key {n = n} marked done =
      let after = finalize_tick-ValueAfter lawful (discard_pending m) done key in
      ground (arith, after, marked)
