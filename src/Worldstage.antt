-- ===== src/Worldstage.antt =====
-- cardinal/worldstage/worldstage.go: the stage of the world and a channel for each stage. Closing a
-- channel that is closed is a run-time panic; logging is left out. A call is one atomic step.
pub mod Channels
pub mod Tests
use world_engine.Base.{
  ℕ, List, [], ◌∷◌, Bool, true, false, ◌≡◌, ◌↔◌, Eq, ◌==◌, nat_eq, if◌then◌else◌, arith,
}

pub data Stage : Type 0 where
  init starting recovering ready running shutting_down shut_down : Stage

abbrev pub rank : Stage → ℕ
rank init = 0
rank starting = 1
rank recovering = 2
rank ready = 3
rank running = 4
rank shutting_down = 5
rank shut_down = 6

pub stage_beq_iff : (s t : Stage) → ((rank s == rank t) ≡ true) ↔ (s ≡ t)
stage_beq_iff s t = ground arith

instance abbrev pub stage_eq : Eq Stage
stage_eq = record { beq = λ s t. rank s == rank t; beq_iff = stage_beq_iff }

-- `at_stage s` tells whether the channel of `s` is closed; every stage has one.
pub record Manager : Type 0 where
  pub current : Stage
  pub at_stage : Stage → Bool

pub data Outcome {ℓ} (A : Type ℓ) : Type ℓ where
  done : A → Outcome A
  panic : Outcome A

unfoldable pub new_manager : Manager
new_manager = record { current = init; at_stage = λ s. false }

-- `close(m.atStage[stage])`
unfoldable pub close : Stage → Manager → Outcome Manager
close stage m =
    if m.at_stage stage
    then panic
    else done (record m { at_stage = λ s. if stage == s then true else m.at_stage s })

abbrev pub with_answer : Bool → Outcome Manager → Outcome (Bool × Manager)
with_answer b (done m) = done (b, m)
with_answer b panic = panic

unfoldable pub compare_and_swap : Stage → Stage → Manager → Outcome (Bool × Manager)
unfolding close
compare_and_swap old_stage new_stage m =
    if m.current == old_stage
    then with_answer true (close new_stage (record m { current = new_stage }))
    else done (false, m)

unfoldable pub current : Manager → Stage
current m = m.current

unfoldable pub store : Stage → Manager → Outcome Manager
unfolding close
store new_stage m = close new_stage (record m { current = new_stage })

-- Whether the returned channel is closed.
unfoldable pub notify_on_stage : Stage → Manager → Bool
notify_on_stage stage m = m.at_stage stage
