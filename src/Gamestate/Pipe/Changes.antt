-- ===== src/Gamestate/Pipe/Changes.antt =====
-- What the parts of a pipe do to the keys of archetypes and counters, each by itself.
use world_engine.Base.{
  ℕ, ◌≤◌, List, [], ◌∷◌, ◌++◌, true, false, ◌≡◌, nat_eq, if◌then◌else◌, arith, Option, none, some,
  Bool-cases, inl, inr, ◌==◌, contains, count, contains_iff_count,
}
use world_engine.Base.GoMap.{GoMap, lookup}
use world_engine.Base.Exec.{ok}
use world_engine.Gamestate.Types.{
  Env, Command, incr, archetype_id_for_entity_id, last_finalized_tick_key,
}
use world_engine.Gamestate.MapStorage.{get, found_or}
use world_engine.Gamestate.Redis.{
  Effect, kept, gone, wrote_num, effect, combine, effect-append, key_eq,
}
use world_engine.Gamestate.Ecb.{EntityCommandBuffer}
use world_engine.Gamestate.Pipe.{
  entity_change, entity_changes, add_next_entity_id_to_pipe, add_pending_arch_ids_to_pipe,
  pipe_archs,
}
use world_engine.Gamestate.Pipe.Kinds.{next_id, archetypes, OfKind, OkOfKind, and_then-ok}

-- The effect that the entity's change has on its archetype key.
abbrev pub change_effect : {Bytes : Type 0} → Option ℕ → Option ℕ → Effect Bytes
change_effect none origin = gone
change_effect (some arch) none = wrote_num arch
change_effect (some arch) (some origin) = if arch == origin then kept else wrote_num arch

abbrev pub origin_effect : {Bytes : Type 0} → Option ℕ → Option (Option ℕ) → Effect Bytes
origin_effect arch none = kept
origin_effect arch (some origin) = change_effect arch origin

module _ (Bytes : Type 0) (origins : GoMap ℕ (Option ℕ)) (archs : GoMap ℕ ℕ) (id : ℕ) where
  pub one_change :
      (x : ℕ) (origin : Option ℕ)
      → effect {Bytes = Bytes}
          (archetype_id_for_entity_id id)
          (entity_change x (lookup x archs) origin)
        ≡ (if x == id then change_effect (lookup x archs) origin else kept)
  unfolding effect entity_change
  one_change x origin = ground arith

  pub found : (o : Option (Option ℕ)) {a : Option ℕ} → found_or o ≡ ok a → o ≡ some a
  found o h = ground arith

  pub changes_step :
      (x : ℕ) (ids : List ℕ) {cs : List (Command Bytes)}
      → entity_changes origins archs (x ∷ ids) ≡ ok cs
      → (origin : Option ℕ) × (later : List (Command Bytes)) × (lookup x origins ≡ some origin)
        × (entity_changes origins archs ids ≡ ok later)
        × (effect (archetype_id_for_entity_id id) cs
            ≡ combine
                (if x == id then change_effect (lookup x archs) origin else kept)
                (effect (archetype_id_for_entity_id id) later))
  unfolding entity_changes
  changes_step x ids h =
      let (origin, e1, h1) = and_then-ok (get x origins) _ h in
      let (later, e2, h2) = and_then-ok (entity_changes origins archs ids) _ h1 in
      let whole = entity_change x (lookup x archs) origin ++ later in
      (
        origin,
        later,
        found (lookup x origins) e1,
        e2,
        cc (
          effect-append (archetype_id_for_entity_id id) (entity_change x (lookup x archs) origin)
              later,
          one_change x origin,
          h2,
        ),
      )

  pub no_change :
      (ids : List ℕ) {cs : List (Command Bytes)}
      → contains ids id ≡ false
      → entity_changes origins archs ids ≡ ok cs
      → effect (archetype_id_for_entity_id id) cs ≡ kept
  unfolding entity_changes contains effect
  no_change [] h e = ground arith
  no_change (x ∷ ids) h e =
      let (origin, later, e1, e2, e3) = changes_step x ids e in
      ground (arith, no_change ids {cs = later})

  pub changes_effect :
      (ids : List ℕ) {cs : List (Command Bytes)}
      → count id ids ≤ 1
      → contains ids id ≡ true
      → entity_changes origins archs ids ≡ ok cs
      → effect (archetype_id_for_entity_id id) cs
        ≡ origin_effect (lookup id archs) (lookup id origins)
  unfolding entity_changes contains count
  changes_effect [] one h e = cc
  changes_effect (x ∷ ids) one h e =
      let (origin, later, e1, e2, e3) = changes_step x ids e in
      elim (Bool-cases (x == id)) [
        | inl same ↦
            let here : x ≡ id = ground arith in
            let rest : contains ids id ≡ false = ground (arith, contains_iff_count id ids) in
            cc (e3, no_change ids {cs = later} rest e2, same, here, e1)
        | inr other ↦ ground (arith, changes_effect ids {cs = later})
      ]

-- The commands of a tick: the transaction and, last, the tick counter.
abbrev pub ticked : {Bytes : Type 0} → List (Command Bytes) → List (Command Bytes)
ticked pipe = pipe ++ incr last_finalized_tick_key ∷ []

pub combine-kept : {Bytes : Type 0} (w : Effect Bytes) → combine kept w ≡ w
combine-kept w = ground arith

pub next-OfKind :
    {e : Env} (m : EntityCommandBuffer e) → OfKind next_id (add_next_entity_id_to_pipe m [])
unfolding add_next_entity_id_to_pipe
next-OfKind m = ground arith

pub archs-OfKind :
    {e : Env} (m : EntityCommandBuffer e) → OkOfKind archetypes (add_pending_arch_ids_to_pipe m [])
unfolding add_pending_arch_ids_to_pipe
archs-OfKind m = by_cases m.pending_arch_ids
  where
    by_cases : (ids : List ℕ) → OkOfKind archetypes (pipe_archs m [] ids)
    by_cases [] = tt
    by_cases (id ∷ ids) = ground arith
