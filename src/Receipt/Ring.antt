-- ===== src/Receipt/Ring.antt =====
-- The ring of receipt.go: which receipts can still be read, and for how long.
use native.Mathlib.Nat.{mod-lt, mod-add-mod, mod-eq_of_lt, mod-eq-sub-mod, add-zero}
use native.Mathlib.Decide.{dec_lt}
use world_engine.Base.{
  ℕ, ◌+◌, ◌-◌, ◌%◌, ◌^◌, ◌<◌, String, List, [], ◌∷◌, true, false, if◌then◌else◌, ◌≡◌, ◌≢◌, refl, ap,
  sym, ◌∙◌, length, length-set, get_elem?-set_ne, arith, leb, length-replicate, Bool-cases, inl,
  inr, subst, string_eq,
}
use world_engine.Base.GoMap.{values}
use world_engine.Base.Exec.{ok, err}
use world_engine.Receipt.{
  tick_has_not_been_processed, old_tick_has_been_discarded, Receipts, History, new_history, at,
  or_empty, next_tick, add_error, set_result, get_receipts_for_tick,
}

-- Two ticks less than a whole round apart have different places.
mod_ne : (t d n : ℕ) → 0 < d → d < n → (t + d) % n ≢ t % n
mod_ne t d n pos lt e =
    let r = t % n in
    let below : r < n = mod-lt t (omega arith) in
    let moved : (r + d) % n ≡ r = mod-add-mod t n d ∙ e in
    elim (dec_lt (r + d) n) [
      | yes h ↦ let same = mod-eq_of_lt h in omega arith
      | no h ↦
          let less : (r + d) % n ≡ (r + d - n) % n = mod-eq-sub-mod (omega arith) in
          let small : (r + d - n) % n ≡ r + d - n = mod-eq_of_lt (omega arith) in omega arith
    ]

-- What happens to a history in the course of the ticks.
pub data Event (Any Err : Type 0) : Type 0 where
  fails : String → Err → Event Any Err
  returns : String → Any → Event Any Err
  ticks : Event Any Err

module _ {Any Err : Type 0} where
  pub record IsRing (h : History Any Err) : Type 0 where
    pub whole : length h.history ≡ h.ticks_to_store
    pub some_place : 0 < h.ticks_to_store

  pub new_history-IsRing : (tick n : ℕ) → IsRing (new_history {Any = Any} {Err = Err} tick n)
  unfolding new_history
  new_history-IsRing tick n = record {
    whole = length-replicate (n + 1) [];
    some_place = omega arith;
  }

  unfoldable pub step : Event Any Err → History Any Err → History Any Err
  unfolding add_error set_result next_tick
  step (fails hash error) h = add_error hash error h
  step (returns hash result) h = set_result hash result h
  step ticks h = next_tick h

  unfoldable pub run : List (Event Any Err) → History Any Err → History Any Err
  unfolding step
  run [] h = h
  run (v ∷ vs) h = run vs (step v h)

  step-IsRing : (v : Event Any Err) (h : History Any Err) → IsRing h → IsRing (step v h)
  unfolding step
  step-IsRing (fails hash error) h r = record {
    whole = length-set h.history _ _ ∙ r.whole;
    some_place = r.some_place;
  }
  step-IsRing (returns hash result) h r = record {
    whole = length-set h.history _ _ ∙ r.whole;
    some_place = r.some_place;
  }
  step-IsRing ticks h r = record {
    whole = length-set h.history _ _ ∙ r.whole;
    some_place = r.some_place;
  }

  abbrev pub advance : Event Any Err → ℕ
  advance ticks = 1
  advance (fails hash error) = 0
  advance (returns hash result) = 0

  -- How many times the tick advances.
  abbrev pub advances : List (Event Any Err) → ℕ
  advances [] = 0
  advances (v ∷ vs) = advance v + advances vs

  step_tick :
      (v : Event Any Err) (h : History Any Err)
      → h.curr_tick + advance v < 2 ^ 64
      → (step v h).curr_tick ≡ h.curr_tick + advance v
  unfolding step
  step_tick (fails hash error) h b = omega arith
  step_tick (returns hash result) h b = omega arith
  step_tick ticks h b = omega arith

  -- A step writes to the place of the tick that is then current.
  step_place :
      (v : Event Any Err) (h : History Any Err) (i : ℕ)
      → h.curr_tick + advance v < 2 ^ 64
      → (h.curr_tick + advance v) % h.ticks_to_store ≢ i
      → at i (step v h) ≡ at i h
  unfolding step
  step_place (fails hash error) h i b ne = ap or_empty (
      get_elem?-set_ne h.history _ i _
        (λ e. ne (ap (λ (t : ℕ). t % h.ticks_to_store) (add-zero h.curr_tick) ∙ e)))
  step_place (returns hash result) h i b ne = ap or_empty (
      get_elem?-set_ne h.history _ i _
        (λ e. ne (ap (λ (t : ℕ). t % h.ticks_to_store) (add-zero h.curr_tick) ∙ e)))
  step_place ticks h i b ne = ap or_empty (
      get_elem?-set_ne h.history _ i _
        (λ e. ne (sym (ap (λ (t : ℕ). t % h.ticks_to_store) (mod-eq_of_lt b)) ∙ e)))

  step_size :
      (v : Event Any Err) (h : History Any Err) → (step v h).ticks_to_store ≡ h.ticks_to_store
  unfolding step
  step_size (fails hash error) h = refl
  step_size (returns hash result) h = refl
  step_size ticks h = refl

  -- What later events do to the place of a past tick that stays within the ring: nothing.
  record Kept (tick : ℕ) (vs : List (Event Any Err)) (h h' : History Any Err) : Type 0 where
    same : at (tick % h.ticks_to_store) h' ≡ at (tick % h.ticks_to_store) h
    tick_now : h'.curr_tick ≡ h.curr_tick + advances vs
    same_size : h'.ticks_to_store ≡ h.ticks_to_store

  past-Kept :
      (tick : ℕ) (vs : List (Event Any Err)) (h : History Any Err)
      → tick < h.curr_tick
      → h.curr_tick + advances vs < tick + h.ticks_to_store
      → h.curr_tick + advances vs < 2 ^ 64
      → Kept tick vs h (run vs h)
  unfolding run
  past-Kept tick [] h past window bound = record {
    same = refl;
    tick_now = omega arith;
    same_size = refl;
  }
  past-Kept tick (v ∷ vs) h past window bound =
      let here = h.curr_tick + advance v in
      let d = here - tick in
      let ne : here % h.ticks_to_store ≢ tick % h.ticks_to_store = λ e.
        mod_ne tick d h.ticks_to_store (omega arith) (omega arith)
          (ap (λ (t : ℕ). t % h.ticks_to_store) (omega arith) ∙ e) in
      let now = step_tick v h (omega arith) in
      let sized = step_size v h in
      let place = step_place v h (tick % h.ticks_to_store) (omega arith) ne in
      let rest = past-Kept tick vs (step v h) (omega arith) (omega arith) (omega arith) in
      record {
        same =
            subst (λ (n : ℕ). at (tick % n) (run vs (step v h)) ≡ at (tick % n) (step v h)) sized
              rest.same
            ∙ place;
        tick_now = omega (arith, rest.tick_now);
        same_size = rest.same_size ∙ sized;
      }

  run_tick :
      (vs : List (Event Any Err)) (h : History Any Err)
      → h.curr_tick + advances vs < 2 ^ 64
      → ((run vs h).curr_tick ≡ h.curr_tick + advances vs)
        × ((run vs h).ticks_to_store ≡ h.ticks_to_store)
  unfolding run
  run_tick [] h bound = (omega arith, refl)
  run_tick (v ∷ vs) h bound =
      let now = step_tick v h (omega arith) in
      let rest = run_tick vs (step v h) (omega arith) in
      (omega (arith, rest.0), rest.1 ∙ step_size v h)

  read_window :
      (tick gone : ℕ) (n : History Any Err) (recs : Receipts Any Err)
      → n.curr_tick ≡ tick + gone
      → 0 < gone
      → (gone < n.ticks_to_store → at (tick % n.ticks_to_store) n ≡ recs)
      → get_receipts_for_tick tick n
        ≡ (if leb n.ticks_to_store gone then err old_tick_has_been_discarded else ok (values recs))
  unfolding get_receipts_for_tick
  read_window tick gone n recs now past place =
      let over : leb n.curr_tick tick ≡ false = ground arith in
      let age : n.curr_tick - tick ≡ gone = omega arith in
      rw (over, age)
        (elim (Bool-cases (leb n.ticks_to_store gone)) [
          | inl old ↦ rw old
          | inr young ↦ rw (young, place (ground arith))
        ])

  module _ (vs : List (Event Any Err)) (h : History Any Err)
      (bound : h.curr_tick + 1 + advances vs < 2 ^ 64) where
    ended_place :
        h.curr_tick + 1 + advances vs < h.curr_tick + h.ticks_to_store
        → at (h.curr_tick % h.ticks_to_store) (run vs (next_tick h))
          ≡ at (h.curr_tick % h.ticks_to_store) h
    unfolding step
    ended_place window =
        let now = step_tick ticks h (omega arith) in
        let place =
          step_place ticks h (h.curr_tick % h.ticks_to_store) (omega arith)
            (mod_ne h.curr_tick 1 h.ticks_to_store (omega arith) (omega arith)) in
        (past-Kept h.curr_tick vs (next_tick h) (omega arith) (omega arith) (omega arith)).same
        ∙ place

    -- While a tick runs its receipts cannot be read. Once it is over, they are read back exactly as
    -- they stood at its end, whatever is recorded later, as long as fewer ticks than the size of the
    -- history have begun since; from then on the answer is that they are discarded. (No tick reaches
    -- 2^64.)
    pub receipts_window :
        IsRing h
        → (get_receipts_for_tick h.curr_tick h ≡ err tick_has_not_been_processed)
          × (get_receipts_for_tick h.curr_tick (run vs (next_tick h)) ≡ (
              if leb h.ticks_to_store (1 + advances vs)
              then err old_tick_has_been_discarded
              else ok (values (at (h.curr_tick % h.ticks_to_store) h))))
    unfolding get_receipts_for_tick step
    receipts_window r =
        let now = step_tick ticks h (omega arith) in
        let (tick_now, size_now) = run_tick vs (next_tick h) (omega arith) in
        let h' = run vs (next_tick h) in
        let current : leb h.curr_tick h.curr_tick ≡ true = ground arith in
        (
          rw current,
          subst
              (λ (n : ℕ). get_receipts_for_tick h.curr_tick h' ≡ (
                if leb n (1 + advances vs)
                then err old_tick_has_been_discarded
                else ok (values (at (h.curr_tick % h.ticks_to_store) h))))
              size_now
              (read_window h.curr_tick (1 + advances vs) h' (at (h.curr_tick % h.ticks_to_store) h)
                (omega arith) (omega arith)
                λ young.
                  ap (λ (n : ℕ). at (h.curr_tick % n) h') size_now ∙ ended_place (omega arith)),
        )
