-- ===== src/Worldstage/Channels.antt =====
-- The channels of worldstage.go against the stages that the world went through.
use world_engine.Base.{
  List, [], ◌∷◌, ◌++◌, Bool, true, false, not, ◌&&◌, ◌||◌, ◌≡◌, refl, ◌==◌, if◌then◌else◌, arith,
  contains, Bool-cases, inl, inr,
}
use world_engine.Worldstage.{
  Stage, stage_eq, Manager, Outcome, done, panic, close, with_answer, compare_and_swap, store,
  notify_on_stage,
}

-- A call that can change the stage.
pub data Move : Type 0 where
  swaps : Stage → Stage → Move
  stores : Stage → Move

abbrev pub drop_answer : Outcome (Bool × Manager) → Outcome Manager
drop_answer (done (b, m)) = done m
drop_answer panic = panic

unfoldable pub move : Move → Manager → Outcome Manager
unfolding compare_and_swap store
move (swaps old new) m = drop_answer (compare_and_swap old new m)
move (stores new) m = store new m

abbrev pub and_run : Outcome Manager → (Manager → Outcome Manager) → Outcome Manager
and_run (done m) k = k m
and_run panic k = panic

unfoldable pub run : List Move → Manager → Outcome Manager
run [] m = done m
run (v ∷ vs) m = and_run (move v m) (run vs)

-- The stages that the moves enter, from a given one.
abbrev pub enters : Move → Stage → List Stage
enters (swaps old new) s = if s == old then new ∷ [] else []
enters (stores new) s = new ∷ []

abbrev pub after_entry : List Stage → Stage → Stage
after_entry [] s = s
after_entry (new ∷ rest) s = new

abbrev pub entered : List Move → Stage → List Stage
entered [] s = []
entered (v ∷ vs) s = enters v s ++ entered vs (after_entry (enters v s) s)

-- No stage is entered that was entered before.
abbrev pub once : List Stage → (Stage → Bool) → Bool
once [] seen = true
once (s ∷ ss) seen = not (seen s) && once ss (λ t. if s == t then true else seen t)

-- How a run that enters the stages `ss` is to end.
abbrev pub Ends : List Stage → Manager → Outcome Manager → Type 0
Ends ss m (done n) =
    (once ss m.at_stage ≡ true)
    × ((s : Stage) → notify_on_stage s n ≡ (contains ss s || notify_on_stage s m))
Ends ss m panic = once ss m.at_stage ≡ false

abbrev at_new : Stage → Manager → Manager
at_new new m = record m { current = new; at_stage = λ t. if new == t then true else m.at_stage t }

entered_new :
    (new : Stage) (ss : List Stage) (m : Manager) (o : Outcome Manager)
    → m.at_stage new ≡ false
    → Ends ss (at_new new m) o
    → Ends (new ∷ ss) m o
unfolding contains notify_on_stage
entered_new new ss m (done n) fresh e = (ground arith, λ s. ground (arith, e.1 s))
entered_new new ss m panic fresh e = ground arith

after_close :
    (new : Stage) (ss : List Stage) (m : Manager) (k : Manager → Outcome Manager)
    → Ends ss (at_new new m) (k (at_new new m))
    → Ends (new ∷ ss) m (and_run (close new (record m { current = new })) k)
unfolding close
after_close new ss m k h = elim (Bool-cases (m.at_stage new)) [
  | inl twice ↦ rw (twice, close) (rw twice)
  | inr fresh ↦ rw (fresh, close) (entered_new new ss m (k (at_new new m)) fresh h)
]

drop-with : (b : Bool) (o : Outcome Manager) → drop_answer (with_answer b o) ≡ o
drop-with b (done m) = refl
drop-with b panic = refl

-- From any state, a sequence of CompareAndSwap and Store calls panics exactly if it enters some stage
-- a second time, or one whose channel is closed at the start. If it does not panic, the channels that
-- are closed at its end are those of the stages entered on the way and those closed before.
pub run_channels : (vs : List Move) (m : Manager) → Ends (entered vs m.current) m (run vs m)
unfolding run move compare_and_swap store
run_channels [] m = unfold contains in (refl, λ s. refl)
run_channels (stores new ∷ vs) m =
    after_close new (entered vs new) m (run vs) (run_channels vs (at_new new m))
run_channels (swaps old new ∷ vs) m = elim (Bool-cases (m.current == old)) [
  | inl same ↦
      rw (same, drop-with)
        (after_close new (entered vs new) m (run vs) (run_channels vs (at_new new m)))
  | inr other ↦ rw other (run_channels vs m)
]
