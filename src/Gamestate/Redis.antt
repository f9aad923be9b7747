-- ===== src/Gamestate/Redis.antt =====
-- What cardinal/gamestate relies on of redis, as hypotheses: the documented effect of SET, DEL and
-- INCR inside a MULTI/EXEC transaction on what GET answers afterwards, and that the JSON codec
-- decodes what it encoded.
use world_engine.Base.{
  ℕ, ◌+◌, List, [], ◌∷◌, ◌++◌, Bool, true, false, ◌&&◌, ◌≡◌, ◌↔◌, Eq, ◌==◌, nat_eq, if◌then◌else◌,
  arith,
}
use world_engine.Base.Exec.{Result, ok, err}
use world_engine.Gamestate.Types.{
  Error, redis_nil, Env, Command, set_num, set_bytes, del, incr, StorageKey, component_key,
  next_entity_id_key, archetype_id_for_entity_id, active_entity_id_key, arch_ids_to_comp_types_key,
  last_finalized_tick_key,
}

abbrev pub key_beq : StorageKey → StorageKey → Bool
key_beq (component_key t i) (component_key u j) = (t == u) && (i == j)
key_beq next_entity_id_key next_entity_id_key = true
key_beq (archetype_id_for_entity_id i) (archetype_id_for_entity_id j) = i == j
key_beq (active_entity_id_key i) (active_entity_id_key j) = i == j
key_beq arch_ids_to_comp_types_key arch_ids_to_comp_types_key = true
key_beq last_finalized_tick_key last_finalized_tick_key = true
key_beq _ _ = false

pub key_beq_iff : (j k : StorageKey) → (key_beq j k ≡ true) ↔ (j ≡ k)
key_beq_iff j k = ground arith

instance abbrev pub key_eq : Eq StorageKey
key_eq = record { beq = key_beq; beq_iff = key_beq_iff }

-- What a list of commands does to one key; `unclear` where an INCR follows another write.
pub data Effect (Bytes : Type 0) : Type 0 where
  kept gone bumped unclear : Effect Bytes
  wrote_num : ℕ → Effect Bytes
  wrote_bytes : Bytes → Effect Bytes

module _ {Bytes : Type 0} where
  -- The later effect counts.
  abbrev pub combine : Effect Bytes → Effect Bytes → Effect Bytes
  combine earlier kept = earlier
  combine kept bumped = bumped
  combine earlier bumped = unclear
  combine earlier later = later

  abbrev pub at_key : Bool → Effect Bytes → Effect Bytes
  at_key here w = if here then w else kept

  abbrev pub effect_of : StorageKey → Command Bytes → Effect Bytes
  effect_of k (set_num j n) = at_key (j == k) (wrote_num n)
  effect_of k (set_bytes j b) = at_key (j == k) (wrote_bytes b)
  effect_of k (del j) = at_key (j == k) gone
  effect_of k (incr j) = at_key (j == k) bumped

  unfoldable pub effect : StorageKey → List (Command Bytes) → Effect Bytes
  effect k [] = kept
  effect k (c ∷ cs) = combine (effect_of k c) (effect k cs)

  combine_assoc : (a b c : Effect Bytes) → combine (combine a b) c ≡ combine a (combine b c)
  combine_assoc a b c = ground arith

  pub effect-append :
      (k : StorageKey) (xs ys : List (Command Bytes))
      → effect k (xs ++ ys) ≡ combine (effect k xs) (effect k ys)
  unfolding effect
  effect-append k [] ys = ground arith
  effect-append k (c ∷ xs) ys =
      ground
        (arith, effect-append k xs ys, combine_assoc (effect_of k c) (effect k xs) (effect k ys))

-- A read of a number after a transaction with this effect.
abbrev pub NumAfter : {Bytes : Type 0} → Effect Bytes → Result Error ℕ → Result Error ℕ → Type 0
NumAfter kept before after = after ≡ before
NumAfter gone before after = after ≡ err redis_nil
NumAfter (wrote_num n) before after = after ≡ ok n
NumAfter bumped (ok n) after = after ≡ ok (n + 1)
NumAfter bumped (err redis_nil) after = after ≡ ok 1
NumAfter _ before after = Unit

abbrev pub BytesAfter :
    {Bytes : Type 0} → Effect Bytes → Result Error Bytes → Result Error Bytes → Type 0
BytesAfter kept before after = after ≡ before
BytesAfter gone before after = after ≡ err redis_nil
BytesAfter (wrote_bytes b) before after = after ≡ ok b
BytesAfter _ before after = Unit

pub record Lawful (e : Env) : Type 0 where
  pub exec_num :
      (db db' : e.Db) (pipe : List (Command e.Bytes)) (k : StorageKey)
      → e.exec db pipe ≡ ok db'
      → NumAfter (effect k pipe) (e.get_num db k) (e.get_num db' k)
  pub exec_bytes :
      (db db' : e.Db) (pipe : List (Command e.Bytes)) (k : StorageKey)
      → e.exec db pipe ≡ ok db'
      → BytesAfter (effect k pipe) (e.get_bytes db k) (e.get_bytes db' k)
  pub ids_codec : (ids : List ℕ) (b : e.Bytes) → e.encode_ids ids ≡ ok b → e.decode_ids b ≡ ok ids
