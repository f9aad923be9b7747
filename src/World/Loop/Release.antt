-- ===== src/World/Loop/Release.antt =====
-- The game loop of cardinal/world.go lets every caller of WaitForNextTick go.
use world_engine.Base.{
  ℕ, zero, suc, ◌+◌, ◌^◌, ◌<◌, List, [], ◌∷◌, ◌++◌, ◌≡◌, refl, sym, ap, ◌∙◌, arith, nat_eq,
}
use mathlib.Core.List.{append_assoc, append-nil}
use world_engine.Base.Exec.{Result, ok, err}
use world_engine.World.Systems.{Fault}
use world_engine.World.Types.{Services, Game, TickError}
use world_engine.World.Tick.{do_tick}
use world_engine.World.Tick.Access.{SystemsUseContext}
use world_engine.World.Tick.InStep.{
  CountsTicks, IsInStep, do_tick-IsInStep, do_tick-SystemsUseContext,
}
use world_engine.World.Loop.{
  Input, context_done, tick_start_closed, tick_start, add_channel, Ending, looping, shut_down,
  tick_start_has_been_closed, engine_panicked, Loop, channels, close_all_channels, drain_channels,
  ticked, tick_the_engine, after_tick, start_game_loop,
}

-- The ticks among the inputs.
abbrev pub ticks : List Input → ℕ
ticks [] = 0
ticks (tick_start now ∷ rest) = suc (ticks rest)
ticks (_ ∷ rest) = ticks rest

-- The channels that have come since the last tick, `chs` being those before the inputs.
abbrev pub since_tick : List Input → List ℕ → List ℕ
since_tick [] chs = chs
since_tick (tick_start now ∷ rest) chs = since_tick rest []
since_tick (add_channel ch ∷ rest) chs = since_tick rest (chs ++ ch ∷ [])
since_tick (_ ∷ rest) chs = since_tick rest chs

-- So many ticks from a given one on.
abbrev pub ticks_from : ℕ → ℕ → List ℕ
ticks_from zero tick = []
ticks_from (suc n) tick = tick ∷ ticks_from n (tick + 1)

-- The inputs before the channel of the ticks was closed.
abbrev pub until_closed : List Input → List Input
until_closed [] = []
until_closed (tick_start_closed ∷ rest) = []
until_closed (tick_start now ∷ rest) = tick_start now ∷ until_closed rest
until_closed (add_channel ch ∷ rest) = add_channel ch ∷ until_closed rest
until_closed (context_done ∷ rest) = context_done ∷ until_closed rest

-- Nothing among the inputs ends the loop.
abbrev pub NoEnd : List Input → Type 0
NoEnd [] = Unit
NoEnd (context_done ∷ rest) = ⊥
NoEnd (tick_start_closed ∷ rest) = ⊥
NoEnd (tick_start now ∷ rest) = NoEnd rest
NoEnd (add_channel ch ∷ rest) = NoEnd rest

module _ {s : Services} where
  -- What the inputs that the loop took have done, while it went on.
  abbrev pub HasRun : List Input → Loop s → Loop s → Type 0
  HasRun inputs l m =
      (m.closed ++ m.waiting_chs ≡ (l.closed ++ l.waiting_chs) ++ channels inputs)
      × (m.waiting_chs ≡ since_tick inputs l.waiting_chs)
      × (m.tick_done ≡ l.tick_done ++ ticks_from (ticks inputs) l.game.world.tick)
      × (m.game.world.tick ≡ l.game.world.tick + ticks inputs)
      × IsInStep m.game.world
      × NoEnd inputs

  -- The loop ends in the panic of a tick `now` that fails, in the loop `before` that the inputs up to
  -- that tick lead to; no channel is closed for the failed tick, and none is sent its number.
  pub record Panics (inputs : List Input) (l m : Loop s) : Type 0 where
    pub earlier : List Input
    pub now : ℕ
    pub later : List Input
    pub before : Loop s
    pub error : Fault (TickError s.Err)
    pub split : inputs ≡ earlier ++ tick_start now ∷ later
    pub went_on : start_game_loop earlier l ≡ (looping, before)
    pub has_run : HasRun earlier l before
    pub failed : do_tick now before.game ≡ (err error, m.game)
    pub left : m ≡ record before { game = m.game }

  -- How the loop is to end, by the way in which it ends.
  abbrev pub Releases : List Input → Loop s → Ending → Loop s → Type 0
  Releases inputs l looping m = HasRun inputs l m
  Releases inputs l shut_down m =
      (m.waiting_chs ≡ []) × (m.closed ≡ (l.closed ++ l.waiting_chs) ++ channels inputs)
  Releases inputs l tick_start_has_been_closed m = HasRun (until_closed inputs) l m
  Releases inputs l engine_panicked m = Panics inputs l m

  -- The loop after a tick.
  record HasTicked (l m : Loop s) : Type 0 where
    tick : m.game.world.tick ≡ l.game.world.tick + 1
    joined : m.closed ++ m.waiting_chs ≡ l.closed ++ l.waiting_chs
    none_left : m.waiting_chs ≡ []
    sent : m.tick_done ≡ l.tick_done ++ l.game.world.tick ∷ []

  tick-HasRun :
      (now : ℕ) (rest : List Input) (l m n : Loop s)
      → HasTicked l m
      → HasRun rest m n
      → HasRun (tick_start now ∷ rest) l n
  tick-HasRun now rest l m n t (a, b, c, d, step, no_end) =
      let tick : m.game.world.tick ≡ l.game.world.tick + 1 = t.tick in
      (
        a ∙ ap (λ xs. xs ++ channels rest) t.joined,
        b ∙ ap (since_tick rest) t.none_left,
        c
            ∙ (λ i. t.sent i ++ ticks_from (ticks rest) (tick i))
            ∙ append_assoc l.tick_done (l.game.world.tick ∷ []) _,
        omega (arith, d),
        step,
        no_end,
      )

  tick-Releases :
      (now : ℕ) (rest : List Input) (l m : Loop s) (e : Ending) (n : Loop s)
      → HasTicked l m
      → ((earlier : List Input)
          → start_game_loop (tick_start now ∷ earlier) l ≡ start_game_loop earlier m)
      → Releases rest m e n
      → Releases (tick_start now ∷ rest) l e n
  tick-Releases now rest l m looping n t go h = tick-HasRun now rest l m n t h
  tick-Releases now rest l m shut_down n t go h =
      (h.0, h.1 ∙ ap (λ xs. xs ++ channels rest) t.joined)
  tick-Releases now rest l m tick_start_has_been_closed n t go h =
      tick-HasRun now (until_closed rest) l m n t h
  tick-Releases now rest l m engine_panicked n t go h = record {
    earlier = tick_start now ∷ h.earlier;
    now = h.now;
    later = h.later;
    before = h.before;
    error = h.error;
    split = ap (λ xs. tick_start now ∷ xs) h.split;
    went_on = go h.earlier ∙ h.went_on;
    has_run = tick-HasRun now h.earlier l m h.before t h.has_run;
    failed = h.failed;
    left = h.left;
  }

  abbrev with_channel : ℕ → Loop s → Loop s
  with_channel ch l = record l { waiting_chs = l.waiting_chs ++ ch ∷ [] }

  -- One more channel at the end.
  one_more :
      (ch : ℕ) (rest : List ℕ) (l : Loop s)
      → (l.closed ++ (l.waiting_chs ++ ch ∷ [])) ++ rest ≡ (l.closed ++ l.waiting_chs) ++ ch ∷ rest
  one_more ch rest l =
      ap (λ xs. xs ++ rest) (sym (append_assoc l.closed l.waiting_chs (ch ∷ [])))
      ∙ append_assoc (l.closed ++ l.waiting_chs) (ch ∷ []) rest

  add-HasRun :
      (ch : ℕ) (rest : List Input) (l n : Loop s)
      → HasRun rest (with_channel ch l) n
      → HasRun (add_channel ch ∷ rest) l n
  add-HasRun ch rest l n h = (h.0 ∙ one_more ch (channels rest) l, h.1, h.2, h.3, h.4, h.5)

  add-Releases :
      (ch : ℕ) (rest : List Input) (l : Loop s) (e : Ending) (n : Loop s)
      → Releases rest (with_channel ch l) e n
      → Releases (add_channel ch ∷ rest) l e n
  unfolding start_game_loop
  add-Releases ch rest l looping n h = add-HasRun ch rest l n h
  add-Releases ch rest l shut_down n (a, b) = (a, b ∙ one_more ch (channels rest) l)
  add-Releases ch rest l tick_start_has_been_closed n h = add-HasRun ch (until_closed rest) l n h
  add-Releases ch rest l engine_panicked n h = record {
    earlier = add_channel ch ∷ h.earlier;
    now = h.now;
    later = h.later;
    before = h.before;
    error = h.error;
    split = ap (λ xs. add_channel ch ∷ xs) h.split;
    went_on = h.went_on;
    has_run = add-HasRun ch h.earlier l h.before h.has_run;
    failed = h.failed;
    left = h.left;
  }

  nothing-HasRun : (l : Loop s) → IsInStep l.game.world → HasRun [] l l
  nothing-HasRun l h = (sym (append-nil _), refl, sym (append-nil _), omega arith, h, tt)

  -- A tick, and how the rest is to end after it.
  tick-case :
      CountsTicks s
      → (now : ℕ) (rest : List Input) (l : Loop s) → SystemsUseContext l.game
      → IsInStep l.game.world
      → l.game.world.tick + suc (ticks rest) < 2 ^ 64
      → (r : Result (Fault (TickError s.Err)) (Unit {0})) (g : Game s) → do_tick now l.game ≡ (r, g)
      → ((m : Loop s)
          → SystemsUseContext m.game
          → IsInStep m.game.world
          → m.game.world.tick + ticks rest < 2 ^ 64
          → let (e, n) = start_game_loop rest m in Releases rest m e n)
      → let (e, n) =
          after_tick
            (ticked l.game.world.tick (r, g) l)
            (λ m. start_game_loop rest (close_all_channels m)) in
        Releases (tick_start now ∷ rest) l e n
  unfolding close_all_channels start_game_loop tick_the_engine
  tick-case law now rest l access step bound (err e) g done ih = record {
    earlier = [];
    now = now;
    later = rest;
    before = l;
    error = e;
    split = refl;
    went_on = refl;
    has_run = nothing-HasRun l step;
    failed = done;
    left = refl;
  }
  tick-case law now rest l access step bound (ok _) g done ih =
      let (still, tick) = do_tick-IsInStep law now l.game access step (omega arith) done in
      let m : Loop s =
        close_all_channels
          (record l { game = g; tick_done = l.tick_done ++ l.game.world.tick ∷ [] }) in
      tick-Releases now rest l m _ _
        (record { tick = tick; joined = append-nil _; none_left = refl; sent = refl })
        (λ earlier. rw done refl)
        (ih m (do_tick-SystemsUseContext now l.game access done) still (omega arith))

  module _ (law : CountsTicks s) where
    -- However the loop's `select` takes ticks, callers of WaitForNextTick and the end of the context,
    -- in a world in step with systems that work through their context and a store that counts its
    -- ticks: while the loop goes on, the channels are closed in the order in which they came, each at
    -- the first tick after it came and none else; every tick moves the world by one tick, in step, and
    -- its number is sent on `tickDone`; and when the context ends all channels are closed, those that
    -- come later too. If the channel of the ticks is closed the loop ends where it stands. It panics
    -- only at a tick that fails, after inputs over which it went on, with the game as that tick leaves
    -- it and without closing a channel or sending a number for that tick. (No tick reaches 2^64.)
    pub start_game_loop-Releases :
        (inputs : List Input) (l : Loop s)
        → SystemsUseContext l.game
        → IsInStep l.game.world
        → l.game.world.tick + ticks inputs < 2 ^ 64
        → let (e, m) = start_game_loop inputs l in Releases inputs l e m
    unfolding start_game_loop close_all_channels drain_channels tick_the_engine
    start_game_loop-Releases [] l access step bound = nothing-HasRun l step
    start_game_loop-Releases (context_done ∷ rest) l access step bound = (refl, refl)
    start_game_loop-Releases (tick_start_closed ∷ rest) l access step bound = nothing-HasRun l step
    start_game_loop-Releases (add_channel ch ∷ rest) l access step bound =
        add-Releases ch rest l _ _
          (start_game_loop-Releases rest (with_channel ch l) access step bound)
    start_game_loop-Releases (tick_start now ∷ rest) l access step bound =
        tick-case law now rest l access step (omega arith) (do_tick now l.game).0
          (do_tick now l.game).1 refl
          λ m access' step' bound'. start_game_loop-Releases rest m access' step' bound'
