-- ===== src/Base/Exec.antt =====
-- Methods that change an object and may return an error. What was written before an error stays
-- written, so the state comes back beside the error too.
use mathlib.Core.Path.{◌≡◌, refl, ◌∙◌}
use mathlib.Core.Logic.{◌⊎◌, inl, inr}
use mathlib.Core.List.{List, [], ◌∷◌}

pub data Result (E A : Type 0) : Type 0 where
  ok : A → Result E A
  err : E → Result E A

abbrev pub Exec : Type 0 → Type 0 → Type 0 → Type 0
Exec E S A = S → Result E A × S

module _ {E S A : Type 0} where
  unfoldable pub pure : A → Exec E S A
  pure a s = (ok a, s)

  -- `return err`
  unfoldable pub fail : E → Exec E S A
  fail e s = (err e, s)

  unfoldable pub lift : Result E A → Exec E S A
  lift r s = (r, s)

  unfoldable pub gets : (S → A) → Exec E S A
  gets f s = (ok (f s), s)

module _ {E S : Type 0} where
  unfoldable pub modify : (S → S) → Exec E S (Unit {0})
  modify f s = (ok tt, f s)

module _ {E S A B : Type 0} where
  abbrev pub continue : Result E A → (A → Exec E S B) → Exec E S B
  continue (ok a) f s = f a s
  continue (err e) f s = (err e, s)

  -- `if err != nil { return err }` between two statements
  infixl 10 ◌>>=◌ ◌>>◌
  unfoldable pub ◌>>=◌ : Exec E S A → (A → Exec E S B) → Exec E S B
  unfolding pure fail lift gets modify
  ◌>>=◌ m f s = let (r, s') = m s in continue r f s'

  abbrev pub ◌>>◌ : Exec E S A → Exec E S B → Exec E S B
  m >> n = m >>= λ _. n

  abbrev pub recover : Result E A → (A → Exec E S B) → (E → Exec E S B) → Exec E S B
  recover (ok a) f g s = f a s
  recover (err e) f g s = g e s

  -- `x, err := m; if err == nil { … } else { … }`
  unfoldable pub attempt : Exec E S A → (A → Exec E S B) → (E → Exec E S B) → Exec E S B
  unfolding pure fail lift gets modify
  attempt m f g s = let (r, s') = m s in recover r f g s'

module _ {E S A : Type 0} where
  -- A `for` loop over a slice or over the keys of a map.
  unfoldable pub for_each : List A → (A → Exec E S (Unit {0})) → Exec E S (Unit {0})
  unfolding ◌>>=◌
  for_each [] f = pure tt
  for_each (x ∷ xs) f = f x >> for_each xs f

abbrev pub result : {E S A : Type 0} → Result E A × S → Result E A
result p = p.0

abbrev pub state : {E S A : Type 0} → Result E A × S → S
state p = p.1

module _ {E S A B : Type 0} where
  -- A block that returned had a first statement that returned.
  pub bind-ok :
      (m : Exec E S A) (f : A → Exec E S B) (s : S) {b : B} {t : S}
      → (m >>= f) s ≡ (ok b, t)
      → (a : A) × (s' : S) × (m s ≡ (ok a, s')) × (f a s' ≡ (ok b, t))
  unfolding ◌>>=◌
  bind-ok m f s {b = b} {t = t} h = go (m s).0 (m s).1 refl h
    where
      go :
          (r : Result E A) (s' : S)
          → m s ≡ (r, s')
          → continue r f s' ≡ (ok b, t)
          → (a : A) × (s' : S) × (m s ≡ (ok a, s')) × (f a s' ≡ (ok b, t))
      go (ok a) s' e h = (a, s', e, h)
      go (err x) s' e h = cc

  -- A block that failed failed in its first statement, or after it.
  pub bind-err :
      (m : Exec E S A) (f : A → Exec E S B) (s : S) {e : E} {t : S}
      → (m >>= f) s ≡ (err e, t)
      → (m s ≡ (err e, t)) ⊎ ((a : A) × (s' : S) × (m s ≡ (ok a, s')) × (f a s' ≡ (err e, t)))
  unfolding ◌>>=◌
  bind-err m f s {e = x} {t = t} h = go (m s).0 (m s).1 refl h
    where
      go :
          (r : Result E A) (s' : S)
          → m s ≡ (r, s')
          → continue r f s' ≡ (err x, t)
          → (m s ≡ (err x, t)) ⊎ ((a : A) × (s' : S) × (m s ≡ (ok a, s')) × (f a s' ≡ (err x, t)))
      go (ok a) s' p h = inr (a, s', p, h)
      go (err y) s' p h = inl (p ∙ cc)

  pub bind-step :
      (m : Exec E S A) (f : A → Exec E S B) (s : S) {a : A} {s' : S}
      → m s ≡ (ok a, s')
      → (m >>= f) s ≡ f a s'
  unfolding ◌>>=◌
  bind-step m f s h = rw h

pub Result-cases :
    {E A : Type 0} (r : Result E A) → ((a : A) × (r ≡ ok a)) ⊎ ((x : E) × (r ≡ err x))
Result-cases (ok a) = inl (a, refl)
Result-cases (err x) = inr (x, refl)
