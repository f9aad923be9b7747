-- ===== src/Base/Distinct.antt =====
-- Lists without repetition, inclusion between lists, and the pigeonhole principle.
use world_engine.Base.Tests.{Eq, ◌==◌, if◌then◌else◌, Bool-cases}
use world_engine.Base.Lists.{length, contains, count, contains_iff_count}
use Prim.Native.Nat.{suc, ◌≤◌, ◌<◌}
use mathlib.Core.Path.{◌≡◌, refl, subst}
use mathlib.Core.Logic.{◌↔◌, ◌≢◌, inl, inr}
use mathlib.Core.Bool.{true, false}
use mathlib.Core.List.{List, [], ◌∷◌}
use native.Mathlib.Omega.{arith}

module _ {ℓ} {A : Type ℓ} ⦃e : Eq A⦄ where
  -- Every element of the first list is in the second.
  abbrev pub IsSubset : List A → List A → Type ℓ
  IsSubset xs ys = (n : A) → contains xs n ≡ true → contains ys n ≡ true

  pub IsSubset-cons :
      (x : A) (xs ys : List A) → IsSubset (x ∷ xs) ys ↔ ((contains ys x ≡ true) × IsSubset xs ys)
  unfolding contains
  IsSubset-cons x xs ys = (
    λ h. (h x (ground (arith, e.beq_iff x x)), λ n m. h n (ground arith)),
    λ h n m. ground (arith, h.1 n, e.beq_iff x n, h.0),
  )

  -- No element occurs twice.
  abbrev pub IsDistinct : List A → Type ℓ
  IsDistinct xs = (n : A) → count n xs ≤ 1

  -- `xs` without its first `n`.
  abbrev drop_first : A → List A → List A
  drop_first n [] = []
  drop_first n (x ∷ xs) = if x == n then xs else x ∷ drop_first n xs

  length-drop_first :
      (n : A) (xs : List A) → contains xs n ≡ true → length xs ≡ suc (length (drop_first n xs))
  unfolding contains
  length-drop_first n [] h = cc
  length-drop_first n (x ∷ xs) h = ground (arith, length-drop_first n xs)

  contains-drop_first :
      (n m : A) (xs : List A) → m ≢ n → contains (drop_first n xs) m ≡ contains xs m
  unfolding contains
  contains-drop_first n m [] h = refl
  contains-drop_first n m (x ∷ xs) h =
      ground (arith, contains-drop_first n m xs h, e.beq_iff x n, e.beq_iff x m)

  distinct_head : (x n : A) (xs : List A) → IsDistinct (x ∷ xs) → contains xs n ≡ true → n ≢ x
  unfolding count
  distinct_head x n xs d m same =
      let twice : count x (x ∷ xs) ≤ 1 = d x in
      let there : 0 < count n xs = (contains_iff_count n xs).0 m in
      let again : 0 < count x xs = subst (λ (t : A). 0 < count t xs) same there in
      ground (arith, e.beq_iff x x)

  pub IsDistinct-cons :
      (x : A) (xs : List A) → contains xs x ≡ false → IsDistinct xs → IsDistinct (x ∷ xs)
  unfolding count
  IsDistinct-cons x xs new d n =
      let old : count n xs ≤ 1 = d n in
      ground (
        arith,
        e.beq_iff x n,
        λ (same : x ≡ n). subst (λ (t : A). contains xs t ≡ false) same new,
        contains_iff_count n xs,
      )

  tail_subset :
      (x : A) (xs ys : List A)
      → IsDistinct (x ∷ xs)
      → IsSubset (x ∷ xs) ys
      → IsSubset xs (drop_first x ys)
  unfolding contains
  tail_subset x xs ys d h n m =
      rw (contains-drop_first x n ys (distinct_head x n xs d m)) (h n (ground arith))

  IsDistinct-tail : (x : A) (xs : List A) → IsDistinct (x ∷ xs) → IsDistinct xs
  unfolding count
  IsDistinct-tail x xs d n = omega (arith, d n)

  -- Pigeonhole: a list without repetition fits only into a list that is at least as long.
  pub subset_length : (xs ys : List A) → IsDistinct xs → IsSubset xs ys → length xs ≤ length ys
  subset_length [] ys d h = omega arith
  subset_length (x ∷ xs) ys d h = omega (
    arith,
    length-drop_first x ys (((IsSubset-cons x xs ys).0 h).0),
    subset_length xs (drop_first x ys) (IsDistinct-tail x xs d) (tail_subset x xs ys d h),
  )

  pub same_length_subset :
      (xs ys : List A) → IsDistinct xs → length xs ≡ length ys → IsSubset xs ys → IsSubset ys xs
  same_length_subset xs ys d same h n m = elim (Bool-cases (contains xs n)) [
    | inl there ↦ there
    | inr new ↦ absurd (
        omega (
          arith,
          subset_length (n ∷ xs) ys (IsDistinct-cons n xs new d) ((IsSubset-cons n xs ys).1 (m, h)),
        ))
  ]
