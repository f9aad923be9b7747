-- ===== src/World/Buffer.antt =====
-- The entity command buffer of cardinal/gamestate as the store of cardinal/world.go.
use world_engine.Base.{ℕ, ◌≢◌, refl, ◌+◌, ◌≡◌, ap, List}
use world_engine.Base.Exec.{Result, ok, err}
use world_engine.Gamestate.Types.{
  Error, Env, ComponentMetadata, last_finalized_tick_key, redis_nil, entity_does_not_exist,
  is_redis_nil,
}
use world_engine.Gamestate.Redis.{NumAfter, bumped, Lawful}
use world_engine.Gamestate.Ecb.{EntityCommandBuffer}
use world_engine.Gamestate.Pipe.{finalize_tick, get_last_finalized_tick, tick_or_zero}
use world_engine.Gamestate.Pipe.Reload.{register_components}
use world_engine.Gamestate.Pipe.Commit.{finalize_tick-counters}
use world_engine.World.Types.{Services}
use world_engine.World.Tick.InStep.{CountsTicks}

-- What the world calls besides its store, in the errors of the store.
pub record Others : Type 1 where
  pub rest : Services
  pub into : Error → rest.Err

module _ {E F S A : Type 0} where
  abbrev pub with_error : (E → F) → Result E A × S → Result F A × S
  with_error f (ok a, s) = (ok a, s)
  with_error f (err e, s) = (err (f e), s)

  with_error-ok :
      (f : E → F) (r : Result E A × S) (a : A) (t : S) → with_error f r ≡ (ok a, t) → r ≡ (ok a, t)
  with_error-ok f (ok b, s) a t h = cc
  with_error-ok f (err e, s) a t h = cc (ap (λ p. p.0) h)

abbrev pub error_as : {E F A : Type 0} → (E → F) → Result E A → Result F A
error_as f (ok a) = ok a
error_as f (err e) = err (f e)

-- The services with the buffer over `e` as their store, whose components are `comps`.
abbrev pub buffer_services : (e : Env) → List (ComponentMetadata e) → Others → Services
buffer_services e comps o = record o.rest {
  Store = EntityCommandBuffer e;
  register_components = λ m. with_error o.into (register_components comps m);
  finalize_tick = λ m. with_error o.into (finalize_tick m);
  get_last_finalized_tick = λ m. error_as o.into (get_last_finalized_tick m);
}

-- Redis answers a read with its own errors, not with that of the buffer for a missing entity.
abbrev pub AnswersAsRedis : Env → Type 0
AnswersAsRedis e = (db : e.Db) → e.get_num db last_finalized_tick_key ≢ err entity_does_not_exist

counted :
    (e : Env) (before after : Result Error ℕ) (t : ℕ)
    → before ≢ err entity_does_not_exist
    → NumAfter {Bytes = e.Bytes} bumped before after
    → tick_or_zero before ≡ ok t
    → tick_or_zero after ≡ ok (t + 1)
unfolding is_redis_nil
counted e (ok n) after t own h k = rw h (cc k)
counted e (err redis_nil) after t own h k = rw h (cc k)
counted e (err entity_does_not_exist) after t own h k = absurd (own refl)
counted e (err x) after t own h k = cc k

error_as-ok : {E F A : Type 0} (f : E → F) (r : Result E A) (a : A) → error_as f r ≡ ok a → r ≡ ok a
error_as-ok f (ok b) a h = cc
error_as-ok f (err e) a h = cc

-- The entity command buffer, over a redis whose pipelines do what they say, is a store as the world
-- relies on it: a FinalizeTick that succeeds adds one to the last finalized tick, which is 0 where
-- redis has none.
pub buffer_services-CountsTicks :
    (e : Env) (comps : List (ComponentMetadata e)) (o : Others)
    → Lawful e
    → AnswersAsRedis e
    → CountsTicks (buffer_services e comps o)
unfolding get_last_finalized_tick
buffer_services-CountsTicks e comps o lawful own = record {
  counts = λ store store' t last done.
      let moved =
        finalize_tick-counters lawful store
          (with_error-ok o.into (finalize_tick store) tt store' done) in
      ap (error_as o.into) (
        counted e (e.get_num store.db_storage last_finalized_tick_key)
          (e.get_num store'.db_storage last_finalized_tick_key) t (own store.db_storage) moved.0
          (error_as-ok o.into _ t last));
}
