-- ===== src/Search/Caching.antt =====
-- The cache of evaluateSearch in cardinal/search.go: what it holds as archetypes are added.
use world_engine.Base.{
  ℕ, zero, suc, ◌+◌, ◌≤◌, ◌≡◌, refl, sym, ap, ◌∙◌, Bool, true, false, List, [], ◌∷◌, ◌++◌, length,
  take, drop, arith, if◌then◌else◌, nat_eq, ◌==◌, Bool-cases, length-append, inl, inr,
}
use world_engine.Filter.{Component, ComponentFilter, matches_components}
use world_engine.Search.{Reader, Cache, Caches, Search, empty_cache, evaluate}

-- The indices, from i on, of the component lists that match.
unfoldable pub matching : ComponentFilter → ℕ → List (List Component) → List ℕ
matching f i [] = []
matching f i (comps ∷ archs) =
    let rest = matching f (suc i) archs in if matches_components f comps then i ∷ rest else rest

-- A reader of a game state whose archetypes are, in order, `archs`.
pub record IsReaderOf (archs : List (List Component)) (r : Reader) : Type 0 where
  pub searched :
      (f : ComponentFilter) (start : ℕ)
      → start ≤ length archs
      → r.search_from f start ≡ matching f start (drop start archs)
  pub counted : r.archetype_count ≡ length archs

-- Every cache has the matches among the archetypes that it has seen, of the filter it is used for.
pub record IsCached (owner : ℕ → ComponentFilter) (archs : List (List Component)) (caches : Caches)
    : Type 0 where
  pub seen_bounded : (p : ℕ) → (caches p).seen ≤ length archs
  pub cached : (p : ℕ) → (caches p).archetypes ≡ matching (owner p) 0 (take (caches p).seen archs)

-- A property of the cache at a pointer after a store.
at_pointer :
    (P : Cache → Type 0) (b : Bool) (new old : Cache)
    → (b ≡ true → P new)
    → P old
    → P (if b then new else old)
at_pointer P true new old h k = h refl
at_pointer P false new old h k = k

matching-append :
    (f : ComponentFilter) (i : ℕ) (xs ys : List (List Component))
    → matching f i (xs ++ ys) ≡ matching f i xs ++ matching f (i + length xs) ys
unfolding matching
matching-append f i [] ys = ap (λ (n : ℕ). matching f n ys) (omega arith)
matching-append f i (x ∷ xs) ys =
    let shift : suc i + length xs ≡ i + length (x ∷ xs) = omega arith in
    let ih =
      matching-append f (suc i) xs ys
      ∙ ap (λ (n : ℕ). matching f (suc i) xs ++ matching f n ys) shift in
    elim (Bool-cases (matches_components f x)) [
      | inl yes_ ↦ rw (yes_, matching) (ap (λ (t : List ℕ). i ∷ t) ih)
      | inr none_ ↦ rw (none_, matching) ih
    ]

take-append_drop : (n : ℕ) (xs : List (List Component)) → take n xs ++ drop n xs ≡ xs
take-append_drop zero xs = refl
take-append_drop (suc n) [] = refl
take-append_drop (suc n) (x ∷ xs) =
    ap (λ (t : List (List Component)). x ∷ t) (take-append_drop n xs)

length-take : (n : ℕ) (xs : List (List Component)) → n ≤ length xs → length (take n xs) ≡ n
length-take zero xs h = refl
length-take (suc n) [] h = absurd (omega arith)
length-take (suc n) (x ∷ xs) h = ap suc (length-take n xs (omega arith))

take-append :
    (n : ℕ) (xs ys : List (List Component)) → n ≤ length xs → take n (xs ++ ys) ≡ take n xs
take-append zero xs ys h = refl
take-append (suc n) [] ys h = absurd (omega arith)
take-append (suc n) (x ∷ xs) ys h =
    ap (λ (t : List (List Component)). x ∷ t) (take-append n xs ys (omega arith))

take-length : (xs : List (List Component)) → take (length xs) xs ≡ xs
take-length [] = refl
take-length (x ∷ xs) = ap (λ (t : List (List Component)). x ∷ t) (take-length xs)

-- Matches of a prefix and of what follows.
matching-split :
    (f : ComponentFilter) (n : ℕ) (archs : List (List Component))
    → n ≤ length archs
    → matching f 0 (take n archs) ++ matching f n (drop n archs) ≡ matching f 0 archs
matching-split f n archs h =
    let at : n ≡ 0 + length (take n archs) = omega (arith, length-take n archs h) in
    ap (λ (k : ℕ). matching f 0 (take n archs) ++ matching f k (drop n archs)) at
    ∙ sym (matching-append f 0 (take n archs) (drop n archs))
    ∙ ap (λ (t : List (List Component)). matching f 0 t) (take-append_drop n archs)

module _ (owner : ℕ → ComponentFilter) where
  pub empty-IsCached : (archs : List (List Component)) → IsCached owner archs (λ p. empty_cache)
  unfolding matching
  empty-IsCached archs = record { seen_bounded = λ p. omega arith; cached = λ p. refl }

  -- New archetypes come after the old ones.
  pub grow-IsCached :
      (archs more : List (List Component)) (caches : Caches)
      → IsCached owner archs caches
      → IsCached owner (archs ++ more) caches
  grow-IsCached archs more caches v = record {
    seen_bounded = λ p. omega (arith, length-append archs more, v.seen_bounded p);
    cached = λ p.
        v.cached p
        ∙ ap (λ (t : List (List Component)). matching (owner p) 0 t)
            (sym (take-append (caches p).seen archs more (v.seen_bounded p)));
  }

  pub evaluate_matches :
      (archs : List (List Component)) (r : Reader) (s : Search) (caches : Caches)
      → IsReaderOf archs r
      → IsCached owner archs caches
      → owner s.arch_matches ≡ s.component_filter
      → (evaluate r s caches).0 ≡ matching s.component_filter 0 archs
  unfolding evaluate
  evaluate_matches archs r s caches reader v owned =
      let p = s.arch_matches in
      ap (λ (t : List ℕ). t ++ r.search_from s.component_filter (caches p).seen)
        (v.cached p ∙ ap (λ (f : ComponentFilter). matching f 0 (take (caches p).seen archs)) owned)
      ∙ ap (λ (t : List ℕ). matching s.component_filter 0 (take (caches p).seen archs) ++ t)
          (reader.searched s.component_filter (caches p).seen (v.seen_bounded p))
      ∙ matching-split s.component_filter (caches p).seen archs (v.seen_bounded p)

  pub evaluate-IsCached :
      (archs : List (List Component)) (r : Reader) (s : Search) (caches : Caches)
      → IsReaderOf archs r
      → IsCached owner archs caches
      → owner s.arch_matches ≡ s.component_filter
      → IsCached owner archs (evaluate r s caches).1
  unfolding evaluate
  evaluate-IsCached archs r s caches reader v owned =
      let new : Cache = record {
        archetypes =
            (caches s.arch_matches).archetypes
            ++ r.search_from s.component_filter (caches s.arch_matches).seen;
        seen = r.archetype_count;
      } in
      let all_of : new.archetypes ≡ matching s.component_filter 0 archs =
        evaluate_matches archs r s caches reader v owned in
      record {
        seen_bounded = λ q.
            at_pointer (λ c. c.seen ≤ length archs) (s.arch_matches == q) new (caches q)
              (λ same. omega (arith, reader.counted)) (v.seen_bounded q);
        cached = λ q.
            at_pointer (λ c. c.archetypes ≡ matching (owner q) 0 (take c.seen archs))
              (s.arch_matches == q) new (caches q)
              (λ same.
                all_of
                ∙ ap (λ (f : ComponentFilter). matching f 0 archs)
                    (sym owned ∙ ap owner ((nat_eq.beq_iff s.arch_matches q).0 same))
                ∙ ap (λ (t : List (List Component)). matching (owner q) 0 t)
                    (sym (ap (λ (n : ℕ). take n archs) reader.counted ∙ take-length archs)))
              (v.cached q);
      }

-- Under one pointer a cache is used with one filter, and archetypes are only added. Then a search,
-- after any evaluation and with any archetypes more, finds just what a search with an empty cache
-- finds: the archetypes whose components match, in order.
pub evaluate_incremental :
    (owner : ℕ → ComponentFilter) (archs more : List (List Component)) (r r' : Reader)
    (s t : Search) (caches : Caches)
    → IsReaderOf archs r
    → IsReaderOf (archs ++ more) r'
    → IsCached owner archs caches
    → owner s.arch_matches ≡ s.component_filter
    → owner t.arch_matches ≡ t.component_filter
    → ((evaluate r' t (evaluate r s caches).1).0 ≡ (evaluate r' t (λ p. empty_cache)).0)
      × ((evaluate r' t (λ p. empty_cache)).0 ≡ matching t.component_filter 0 (archs ++ more))
evaluate_incremental owner archs more r r' s t caches reader reader' v owned owned' =
    let fresh =
      evaluate_matches owner (archs ++ more) r' t (λ p. empty_cache) reader'
        (empty-IsCached owner (archs ++ more)) owned' in
    let again =
      evaluate_matches owner (archs ++ more) r' t (evaluate r s caches).1 reader'
        (grow-IsCached owner archs more (evaluate r s caches).1
          (evaluate-IsCached owner archs r s caches reader v owned))
        owned' in
    (again ∙ sym fresh, fresh)
