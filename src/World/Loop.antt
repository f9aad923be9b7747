-- ===== src/World/Loop.antt =====
-- startGameLoop, tickTheEngine and WaitForNextTick of cardinal/world.go. What the loop's `select`
-- takes is a list of inputs, in the order in which it takes them; a channel is a number.
pub mod Release
use world_engine.Base.{ℕ, ◌+◌, List, [], ◌∷◌, ◌++◌, Bool, true, false, ltb}
use world_engine.Base.Exec.{Result, ok, err}
use world_engine.World.Systems.{Fault}
use world_engine.World.Types.{Services, World, Game, TickError}
use world_engine.World.Tick.{do_tick}

-- `tick_start` carries the time at which the tick runs.
pub data Input : Type 0 where
  context_done tick_start_closed : Input
  tick_start add_channel : ℕ → Input

-- Why the loop ends, if it does: a failed tick panics.
pub data Ending : Type 0 where
  looping shut_down tick_start_has_been_closed engine_panicked : Ending

-- `closed` and `tick_done` are the channels that were closed and the ticks that were sent on the
-- channel `tickDone`, in order.
pub record Loop (s : Services) : Type 0 where
  pub game : Game s
  pub waiting_chs : List ℕ
  pub closed : List ℕ
  pub tick_done : List ℕ

-- The channels among the inputs.
abbrev pub channels : List Input → List ℕ
channels [] = []
channels (add_channel ch ∷ rest) = ch ∷ channels rest
channels (_ ∷ rest) = channels rest

module _ {s : Services} where
  unfoldable pub close_all_channels : Loop s → Loop s
  close_all_channels l = record l { closed = l.closed ++ l.waiting_chs; waiting_chs = [] }

  -- The channels that come later are closed as they come.
  unfoldable pub drain_channels : List Input → Loop s → Loop s
  drain_channels later l = record l { closed = l.closed ++ channels later }

  abbrev pub ticked :
      ℕ → Result (Fault (TickError s.Err)) (Unit {0}) × Game s → Loop s → Bool × Loop s
  ticked curr_tick (ok _, g) l =
      (true, record l { game = g; tick_done = l.tick_done ++ curr_tick ∷ [] })
  ticked curr_tick (err e, g) l = (false, record l { game = g })

  -- Whether it returned.
  unfoldable pub tick_the_engine : ℕ → Loop s → Bool × Loop s
  tick_the_engine now l = ticked l.game.world.tick (do_tick now l.game) l

  abbrev pub after_tick : Bool × Loop s → (Loop s → Ending × Loop s) → Ending × Loop s
  after_tick (true, l) next = next l
  after_tick (false, l) next = (engine_panicked, l)

  unfoldable pub start_game_loop : List Input → Loop s → Ending × Loop s
  unfolding tick_the_engine close_all_channels drain_channels
  start_game_loop [] l = (looping, l)
  start_game_loop (context_done ∷ rest) l = (shut_down, drain_channels rest (close_all_channels l))
  start_game_loop (tick_start_closed ∷ rest) l = (tick_start_has_been_closed, l)
  start_game_loop (tick_start now ∷ rest) l =
      after_tick (tick_the_engine now l) (λ m. start_game_loop rest (close_all_channels m))
  start_game_loop (add_channel ch ∷ rest) l =
      start_game_loop rest (record l { waiting_chs = l.waiting_chs ++ ch ∷ [] })

-- What WaitForNextTick returns, once its channel is closed.
unfoldable pub wait_for_next_tick : {s : Services} → ℕ → World s → Bool
wait_for_next_tick start_tick w = ltb start_tick w.tick
