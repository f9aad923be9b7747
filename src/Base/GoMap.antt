-- ===== src/Base/GoMap.antt =====
-- Go's built-in map, as an association list with one entry for each key. The order of the
-- entries stands for Go's unspecified iteration order.
use world_engine.Base.Tests.{Eq, ◌==◌, if◌then◌else◌, beq_refl, is_some}
use world_engine.Base.Lists.{length, contains, count}
use Prim.Native.Nat.{◌+◌, ◌≤◌}
use mathlib.Core.Path.{◌≡◌, refl}
use mathlib.Core.Option.{Option, none, some}
use mathlib.Core.List.{List, [], ◌∷◌}
use native.Mathlib.Omega.{arith}

abbrev pub GoMap {ℓ κ} : Type ℓ → Type κ → Type (ℓ ⊔ κ)
GoMap K V = List (K × V)

module _ {ℓ κ} {K : Type ℓ} {V : Type κ} ⦃e : Eq K⦄ where
  -- `v, ok := m[k]`
  unfoldable pub lookup : K → GoMap K V → Option V
  lookup k [] = none
  lookup k ((j, v) ∷ m) = if j == k then some v else lookup k m

  -- `m[k] = v`
  unfoldable pub insert : K → V → GoMap K V → GoMap K V
  insert key value [] = (key, value) ∷ []
  insert key value ((k, old) ∷ rest) =
      if k == key then (key, value) ∷ rest else (k, old) ∷ insert key value rest

  -- `delete(m, k)`
  unfoldable pub erase : K → GoMap K V → GoMap K V
  erase k [] = []
  erase k ((j, v) ∷ m) = let rest = erase k m in if j == k then rest else (j, v) ∷ rest

  pub lookup-insert :
      (k j : K) (v : V) (m : GoMap K V)
      → lookup j (insert k v m) ≡ (if k == j then some v else lookup j m)
  unfolding lookup insert
  lookup-insert key j v [] = refl
  lookup-insert key j v ((i, old) ∷ rest) =
      ground (arith, e.beq_iff i key, e.beq_iff key j, e.beq_iff i j, lookup-insert key j v rest)

  pub lookup-erase :
      (k j : K) (m : GoMap K V) → lookup j (erase k m) ≡ (if k == j then none else lookup j m)
  unfolding lookup erase
  lookup-erase k j [] = ground arith
  lookup-erase k j ((i, w) ∷ m) =
      ground (arith, e.beq_iff k j, e.beq_iff i k, e.beq_iff i j, lookup-erase k j m)

  pub lookup-insert_self : (k : K) (v : V) (m : GoMap K V) → lookup k (insert k v m) ≡ some v
  lookup-insert_self k v m = ground (arith, lookup-insert k k v m, beq_refl k)

  -- A new key makes the map one entry longer, an old one keeps its size.
  pub length-insert :
      (k : K) (v : V) (m : GoMap K V)
      → length (insert k v m) ≡ (if is_some (lookup k m) then length m else length m + 1)
  unfolding lookup insert
  length-insert k v [] = omega arith
  length-insert k v ((i, w) ∷ m) = ground (arith, length-insert k v m)

module _ {ℓ κ} {K : Type ℓ} {V : Type κ} where
  -- The keys in iteration order.
  unfoldable pub keys : GoMap K V → List K
  keys [] = []
  keys ((j, v) ∷ m) = j ∷ keys m

  unfoldable pub values : GoMap K V → List V
  values [] = []
  values ((j, v) ∷ m) = v ∷ values m

module _ {ℓ κ} {K : Type ℓ} {V : Type κ} ⦃e : Eq K⦄ where
  pub contains-keys : (k : K) (m : GoMap K V) → contains (keys m) k ≡ is_some (lookup k m)
  unfolding lookup keys contains
  contains-keys k [] = refl
  contains-keys k ((j, v) ∷ m) = ground (arith, contains-keys k m)

  -- Every key has one entry.
  abbrev pub IsMap : GoMap K V → Type ℓ
  IsMap m = (k : K) → count k (keys m) ≤ 1

  pub insert-count :
      (k j : K) (v : V) (m : GoMap K V)
      → count j (keys (insert k v m)) ≡ (
          if is_some (lookup k m)
          then count j (keys m)
          else count j (keys m) + (if k == j then 1 else 0))
  unfolding lookup insert keys count
  insert-count k j v [] = ground arith
  insert-count k j v ((i, w) ∷ m) = ground (arith, e.beq_iff i k, insert-count k j v m)

  pub count-none : (k : K) (m : GoMap K V) → lookup k m ≡ none → count k (keys m) ≡ 0
  unfolding lookup keys count
  count-none k [] h = refl
  count-none k ((i, w) ∷ m) h = ground (arith, count-none k m)

  pub insert-IsMap : (k : K) (v : V) (m : GoMap K V) → IsMap m → IsMap (insert k v m)
  insert-IsMap k v m h j = ground (arith, h j, insert-count k j v m, count-none j m, e.beq_iff k j)

  pub count-erase : (k j : K) (m : GoMap K V) → count j (keys (erase k m)) ≤ count j (keys m)
  unfolding erase keys count
  count-erase k j [] = omega arith
  count-erase k j ((i, w) ∷ m) = ground (arith, count-erase k j m)

  pub erase-IsMap : (k : K) (m : GoMap K V) → IsMap m → IsMap (erase k m)
  erase-IsMap k m h j = omega (arith, h j, count-erase k j m)

pub ruleset map_laws = (lookup-insert, lookup-erase, lookup-insert_self)
