-- ===== src/World/Systems/Registration.antt =====
-- Registering systems, system.go: all or none of them.
use world_engine.Base.{
  ℕ, ◌+◌, ◌<◌, ◌≤◌, String, List, [], ◌∷◌, ◌++◌, Bool, true, false, ◌≡◌, refl, ap, subst, ◌∙◌,
  string_eq, ◌==◌, if◌then◌else◌, arith, Bool-cases, ◌⊎◌, inl, inr,
}
use text.Mathlib.TextEquality.{eq_iff}
use mathlib.Core.List.{append_assoc, append-nil}
use world_engine.Base.Exec.{Result, ok, err}
use world_engine.World.Systems.{
  SystemType, SystemManager, SystemError, contains_name, is_registered, register_system,
  check_systems, duplicate_system_in_slice, system_is_already_registered, register_checked,
  register_systems,
}

module _ {E S : Type 0} where
  -- How often a name occurs.
  abbrev pub times : String → List (SystemType E S) → ℕ
  times n [] = 0
  times n (s ∷ rest) = (if s.name == n then 1 else 0) + times n rest

  -- No name is registered twice, in the two lists together.
  abbrev pub HasDistinctNames : SystemManager E S → Type 0
  HasDistinctNames m =
      (n : String) → times n m.registered_systems + times n m.registered_init_systems ≤ 1

  -- The manager with the systems at the end of one of its lists.
  abbrev pub with_systems : Bool → List (SystemType E S) → SystemManager E S → SystemManager E S
  with_systems is_init systems m =
      if is_init
      then record m { registered_init_systems = m.registered_init_systems ++ systems }
      else record m { registered_systems = m.registered_systems ++ systems }

  -- The names of the systems are new, and differ from each other.
  abbrev pub AreNew : SystemManager E S → List (SystemType E S) → Type 0
  AreNew m systems =
      (n : String)
      → times n m.registered_systems + times n m.registered_init_systems + times n systems ≤ 1

  -- A name that is taken.
  abbrev pub Clash : SystemManager E S → List (SystemType E S) → Type 0
  Clash m systems =
      (n : String) × (1
        < times n m.registered_systems + times n m.registered_init_systems + times n systems)
      × (0 < times n systems)

  times-append :
      (n : String) (a b : List (SystemType E S)) → times n (a ++ b) ≡ times n a + times n b
  times-append n [] b = omega arith
  times-append n (s ∷ a) b = omega (arith, times-append n a b)

  contains-times :
      (n : String) (l : List (SystemType E S))
      → ((contains_name n l ≡ true) × (0 < times n l))
        ⊎ ((contains_name n l ≡ false) × (times n l ≡ 0))
  contains-times n [] = inr (refl, refl)
  contains-times n (s ∷ l) = elim (contains-times n l) [
    | inl h ↦ inl (ground (arith, h), ground (arith, h))
    | inr h ↦ elim (Bool-cases (s.name == n)) [
      | inl e ↦ inl (ground (arith, h, e), ground (arith, h, e))
      | inr e ↦ inr (ground (arith, h, e), ground (arith, h, e))
    ]
  ]

  times_self : (s : SystemType E S) (l : List (SystemType E S)) → 0 < times s.name (s ∷ l)
  times_self s l = ground (arith, eq_iff s.name s.name)

  -- A name is registered, or counted nowhere.
  registered-times :
      (n : String) (m : SystemManager E S)
      → ((is_registered n m ≡ true)
          × (0 < times n m.registered_systems + times n m.registered_init_systems))
        ⊎ ((is_registered n m ≡ false)
            × (times n m.registered_systems + times n m.registered_init_systems ≡ 0))
  unfolding is_registered
  registered-times n m =
      let sum = times-append n m.registered_systems m.registered_init_systems in
      elim (contains-times n (m.registered_systems ++ m.registered_init_systems)) [
        | inl (h, k) ↦ inl (h, omega arith)
        | inr (h, k) ↦ inr (h, omega arith)
      ]

  grown-AreNew :
      (m : SystemManager E S) (s : SystemType E S) (l : List (SystemType E S))
      → times s.name m.registered_systems + times s.name m.registered_init_systems ≡ 0
      → times s.name l ≡ 0
      → AreNew m l
      → AreNew m (l ++ s ∷ [])
  grown-AreNew m s l a b new n =
      ground (arith, times-append n l (s ∷ []), new n, a, b, eq_iff s.name n)

  -- How the first loop is to end, `l` being all the systems.
  abbrev Checked :
      SystemManager E S
      → List (SystemType E S)
      → Result (SystemError E) (List (SystemType E S))
      → Type 0
  Checked m l r = ((r ≡ ok l) × AreNew m l) ⊎ ((e : SystemError E) × (r ≡ err e) × Clash m l)

  clash_at :
      (m : SystemManager E S) (acc : List (SystemType E S)) (s : SystemType E S)
      (rest : List (SystemType E S)) (e : SystemError E)
      → 0
        < times s.name m.registered_systems
          + times s.name m.registered_init_systems
          + times s.name acc
      → Checked m (acc ++ s ∷ rest) (err e)
  clash_at m acc s rest e h =
      let here = times_self s rest in
      let sum = times-append s.name acc (s ∷ rest) in
      inr (e, refl, (s.name, omega arith, omega arith))

  check-Checked :
      (m : SystemManager E S) (acc systems : List (SystemType E S))
      → AreNew m acc
      → Checked m (acc ++ systems) (check_systems m acc systems)
  unfolding check_systems
  check-Checked m acc [] new = rw (append-nil acc) (inl (refl, new))
  check-Checked m acc (s ∷ rest) new = elim (contains-times s.name acc) [
    | inl (h, k) ↦ rw h (clash_at m acc s rest duplicate_system_in_slice (omega arith))
    | inr (h, k) ↦ elim (registered-times s.name m) [
      | inl (g, l) ↦ rw (h, g) (clash_at m acc s rest system_is_already_registered (omega arith))
      | inr (g, l) ↦
          rw (h, g)
            (subst (λ t. Checked m t (check_systems m (acc ++ s ∷ []) rest))
              (append_assoc acc (s ∷ []) rest)
              (check-Checked m (acc ++ s ∷ []) rest (grown-AreNew m s acc l k new)))
    ]
  ]

  with-with :
      (is_init : Bool) (a b : List (SystemType E S)) (m : SystemManager E S)
      → with_systems is_init b (with_systems is_init a m) ≡ with_systems is_init (a ++ b) m
  with-with true a b m = rw (append_assoc m.registered_init_systems a b) refl
  with-with false a b m = rw (append_assoc m.registered_systems a b) refl

  with-AreNew :
      (is_init : Bool) (m : SystemManager E S) (s : SystemType E S) (rest : List (SystemType E S))
      → AreNew m (s ∷ rest)
      → AreNew (with_systems is_init (s ∷ []) m) rest
  with-AreNew true m s rest new n =
      omega (arith, new n, times-append n m.registered_init_systems (s ∷ []))
  with-AreNew false m s rest new n =
      omega (arith, new n, times-append n m.registered_systems (s ∷ []))

  -- Systems whose names are new are all registered by the second loop.
  register-new :
      (is_init : Bool) (systems : List (SystemType E S)) (m : SystemManager E S)
      → AreNew m systems
      → register_checked is_init systems m ≡ (ok tt, with_systems is_init systems m)
  unfolding register_checked register_system
  register-new true [] m new = rw (append-nil m.registered_init_systems) refl
  register-new false [] m new = rw (append-nil m.registered_systems) refl
  register-new is_init (s ∷ rest) m new = elim (registered-times s.name m) [
    | inl (g, l) ↦ let here = times_self s rest in absurd (omega (arith, new s.name))
    | inr (g, l) ↦ rw g (
        register-new is_init rest (with_systems is_init (s ∷ []) m)
          (with-AreNew is_init m s rest new)
        ∙ ap (λ t. (ok tt, t)) (with-with is_init (s ∷ []) rest m))
  ]

  with-HasDistinctNames :
      (is_init : Bool) (systems : List (SystemType E S)) (m : SystemManager E S)
      → AreNew m systems
      → HasDistinctNames (with_systems is_init systems m)
  with-HasDistinctNames true systems m new n =
      omega (arith, new n, times-append n m.registered_init_systems systems)
  with-HasDistinctNames false systems m new n =
      omega (arith, new n, times-append n m.registered_systems systems)

  -- Where no name is registered twice, registerSystems either appends all the systems to the list it
  -- is asked for, and still no name is registered twice; or it returns an error, the manager is as it
  -- was, and a name of one of the systems is taken, by a registered system or by another of them.
  pub register_systems_all_or_none :
      (is_init : Bool) (systems : List (SystemType E S)) (m : SystemManager E S)
      → HasDistinctNames m
      → ((register_systems is_init systems m ≡ (ok tt, with_systems is_init systems m))
          × HasDistinctNames (with_systems is_init systems m))
        ⊎ ((e : SystemError E) × (register_systems is_init systems m ≡ (err e, m))
            × Clash m systems)
  unfolding register_systems
  register_systems_all_or_none is_init systems m distinct =
      elim (check-Checked m [] systems (λ n. omega (arith, distinct n))) [
        | inl (h, new) ↦
            inl (
              rw h (register-new is_init systems m new),
              with-HasDistinctNames is_init systems m new,
            )
        | inr (e, h, clash) ↦ inr (e, rw h refl, clash)
      ]
