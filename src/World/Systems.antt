-- ===== src/World/Systems.antt =====
-- cardinal/system.go: the systems of a world, in the order in which they were registered. A system is
-- a function on the state `S` of the world that may fail or panic; its name, which the source reads
-- off the function by reflection, stands beside it. Logging and tracing are left out.
pub mod Registration
use world_engine.Base.{
  ℕ, String, List, [], ◌∷◌, ◌++◌, map, Bool, true, false, ◌||◌, nat_eq, string_eq, ◌==◌,
  if◌then◌else◌,
}
use world_engine.Base.Exec.{Result, ok, err, Exec}

-- What ends a call: an error that it returned, or a panic.
pub data Fault (E : Type 0) : Type 0 where
  returned : E → Fault E
  panicked : Fault E

pub data SystemError (E : Type 0) : Type 0 where
  duplicate_system_in_slice system_is_already_registered : SystemError E
  system_generated_an_error : String → E → SystemError E

module _ (E S : Type 0) where
  pub record SystemType : Type 0 where
    pub name : String
    pub fn : Exec (Fault E) S (Unit {0})

  pub record SystemManager : Type 0 where
    pub registered_systems : List SystemType
    pub registered_init_systems : List SystemType
    pub current_system : String

module _ {E S : Type 0} where
  unfoldable pub new_system_manager : SystemManager E S
  new_system_manager = record {
    registered_systems = [];
    registered_init_systems = [];
    current_system = "";
  }

  -- `slices.ContainsFunc(systems, func(s systemType) bool { return s.Name == systemName })`
  abbrev pub contains_name : String → List (SystemType E S) → Bool
  contains_name system_name [] = false
  contains_name system_name (s ∷ rest) = (s.name == system_name) || contains_name system_name rest

  unfoldable pub is_registered : String → SystemManager E S → Bool
  is_registered system_name m =
      contains_name system_name (m.registered_systems ++ m.registered_init_systems)

  unfoldable pub register_system :
      Bool
      → SystemType E S
      → SystemManager E S
      → Result (SystemError E) (Unit {0}) × SystemManager E S
  unfolding is_registered
  register_system is_init sys m =
      if is_registered sys.name m then (err system_is_already_registered, m) else (
        ok tt,
        (if is_init
            then record m { registered_init_systems = m.registered_init_systems ++ sys ∷ [] }
            else record m { registered_systems = m.registered_systems ++ sys ∷ [] }),
      )

  -- The first loop of registerSystems, with the systems it has collected.
  unfoldable pub check_systems :
      SystemManager E S
      → List (SystemType E S)
      → List (SystemType E S)
      → Result (SystemError E) (List (SystemType E S))
  unfolding is_registered
  check_systems m systems_to_register [] = ok systems_to_register
  check_systems m systems_to_register (sys ∷ rest) =
      let checked = check_systems m (systems_to_register ++ sys ∷ []) rest in
      if contains_name sys.name systems_to_register
      then err duplicate_system_in_slice
      else if is_registered sys.name m
      then err system_is_already_registered
      else checked

  abbrev pub after_system :
      Result (SystemError E) (Unit {0}) × SystemManager E S
      → (SystemManager E S → Result (SystemError E) (Unit {0}) × SystemManager E S)
      → Result (SystemError E) (Unit {0}) × SystemManager E S
  after_system (ok _, m) next = next m
  after_system (err e, m) next = (err e, m)

  -- The second loop.
  unfoldable pub register_checked :
      Bool
      → List (SystemType E S)
      → SystemManager E S
      → Result (SystemError E) (Unit {0}) × SystemManager E S
  unfolding register_system
  register_checked is_init [] m = (ok tt, m)
  register_checked is_init (sys ∷ rest) m =
      after_system (register_system is_init sys m) (register_checked is_init rest)

  abbrev pub if_checked :
      Result (SystemError E) (List (SystemType E S))
      → Bool
      → SystemManager E S
      → Result (SystemError E) (Unit {0}) × SystemManager E S
  if_checked (ok systems) is_init m = register_checked is_init systems m
  if_checked (err e) is_init m = (err e, m)

  unfoldable pub register_systems :
      Bool
      → List (SystemType E S)
      → SystemManager E S
      → Result (SystemError E) (Unit {0}) × SystemManager E S
  unfolding check_systems register_checked
  register_systems is_init systems m = if_checked (check_systems m [] systems) is_init m

  unfoldable pub systems_to_run : ℕ → SystemManager E S → List (SystemType E S)
  systems_to_run current_tick m =
      if current_tick == 0
      then m.registered_init_systems ++ m.registered_systems
      else m.registered_systems

  -- How a system left the world, `current` being its name. A panic leaves the name where it is.
  abbrev pub continue_systems :
      String
      → Result (Fault E) (Unit {0}) × S
      → (S → Result (Fault (SystemError E)) (Unit {0}) × String × S)
      → Result (Fault (SystemError E)) (Unit {0}) × String × S
  continue_systems current (ok _, s) next = next s
  continue_systems current (err (returned e), s) next =
      (err (returned (system_generated_an_error current e)), "", s)
  continue_systems current (err panicked, s) next = (err panicked, current, s)

  -- The loop over the systems: its end, the name of the current system and the state.
  unfoldable pub run_each :
      List (SystemType E S) → S → Result (Fault (SystemError E)) (Unit {0}) × String × S
  run_each [] s = (ok tt, "", s)
  run_each (sys ∷ rest) s = continue_systems sys.name (sys.fn s) (run_each rest)

  unfoldable pub run_systems :
      ℕ → SystemManager E S → S → Result (Fault (SystemError E)) (Unit {0}) × SystemManager E S × S
  unfolding run_each systems_to_run
  run_systems current_tick m s =
      let (r, name, t) = run_each (systems_to_run current_tick m) s in
      (r, record m { current_system = name }, t)

  unfoldable pub get_registered_systems : SystemManager E S → List String
  get_registered_systems m = map (λ s. s.name) (m.registered_init_systems ++ m.registered_systems)

  unfoldable pub get_current_system : SystemManager E S → String
  get_current_system m = m.current_system
