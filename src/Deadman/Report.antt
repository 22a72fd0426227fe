-- ===== src/Deadman/Report.antt =====
-- The health row that the monitor of src/c4_exec/deadman.py writes.
use news_pipeline.Base.{
  ℕ, suc, Bool, false, ◌||◌, ◌≡◌, refl, Option, List, [], ◌∷◌, any, length, arith, if◌then◌else◌,
  is_empty, Bool-cases, inl, inr, ap,
}
use news_pipeline.Num.{Num, IsFloat, ◌≤f◌}
use news_pipeline.Direction.Laws.{le_of_not_lt}
use news_pipeline.Deadman.{
  Watched, StaleEntry, healthy, degraded, down, ControlFlags, survey, insert_stale, worst_first,
  is_critical, status_of, check_heartbeats,
}

or_swap : (a b c : Bool) → (a || (b || c)) ≡ (b || (a || c))
or_swap a b c = ground arith

module _ {F : Type 0} ⦃num : Num F⦄ where
  open num use {is_lt}

  -- Older entries come first.
  abbrev pub IsWorstFirst : List (StaleEntry F) → Type 0
  IsWorstFirst [] = Unit
  IsWorstFirst (s ∷ []) = Unit
  IsWorstFirst (s ∷ t ∷ ts) = (t.age ≤f s.age) × IsWorstFirst (t ∷ ts)

  insert_stale-counts :
      (p : StaleEntry F → Bool) (s : StaleEntry F) (ts : List (StaleEntry F))
      → (any p (insert_stale s ts) ≡ (p s || any p ts))
        × (length (insert_stale s ts) ≡ suc (length ts))
  unfolding insert_stale
  insert_stale-counts p s [] = (refl, refl)
  insert_stale-counts p s (t ∷ ts) = elim (Bool-cases (is_lt s.age t.age)) [
    | inl later ↦ rw later (
      rw ((insert_stale-counts p s ts).0) (or_swap (p t) (p s) (any p ts)),
      ap (λ n. suc n) (insert_stale-counts p s ts).1,
    )
    | inr here ↦ rw here (refl, refl)
  ]

  worst_first-counts :
      (p : StaleEntry F → Bool) (ss : List (StaleEntry F))
      → (any p (worst_first ss) ≡ any p ss) × (length (worst_first ss) ≡ length ss)
  unfolding worst_first
  worst_first-counts p [] = (refl, refl)
  worst_first-counts p (s ∷ ss) =
      ground (arith, insert_stale-counts p s (worst_first ss), worst_first-counts p ss)

  insert_stale-IsWorstFirst :
      (law : IsFloat F) (s : StaleEntry F) (ts : List (StaleEntry F))
      → IsWorstFirst ts
      → IsWorstFirst (insert_stale s ts)
  unfolding insert_stale
  insert_stale-IsWorstFirst law s [] h = tt
  insert_stale-IsWorstFirst law s (t ∷ []) h = elim (Bool-cases (is_lt s.age t.age)) [
    | inl later ↦ rw later (law.le_of_lt s.age t.age later, tt)
    | inr here ↦ rw here (le_of_not_lt law s.age t.age here, tt)
  ]
  insert_stale-IsWorstFirst law s (t ∷ u ∷ ts) h = elim (Bool-cases (is_lt s.age t.age)) [
    | inr here ↦ rw here (le_of_not_lt law s.age t.age here, h)
    | inl later ↦ elim (Bool-cases (is_lt s.age u.age)) [
      | inl after ↦
          rw (later, after) (h.0, rw after at (insert_stale-IsWorstFirst law s (u ∷ ts) h.1))
      | inr between ↦
          rw (later, between)
            (law.le_of_lt s.age t.age later, (le_of_not_lt law s.age u.age between, h.1))
    ]
  ]

  insert_stale-is_empty :
      (s : StaleEntry F) (ts : List (StaleEntry F)) → is_empty (insert_stale s ts) ≡ false
  unfolding insert_stale
  insert_stale-is_empty s [] = refl
  insert_stale-is_empty s (t ∷ ts) = elim (Bool-cases (is_lt s.age t.age)) [
    | inl later ↦ rw later refl
    | inr here ↦ rw here refl
  ]

  worst_first-is_empty : (ss : List (StaleEntry F)) → is_empty (worst_first ss) ≡ is_empty ss
  unfolding worst_first
  worst_first-is_empty [] = refl
  worst_first-is_empty (s ∷ ss) = insert_stale-is_empty s (worst_first ss)

  worst_first-IsWorstFirst :
      (law : IsFloat F) (ss : List (StaleEntry F)) → IsWorstFirst (worst_first ss)
  unfolding worst_first
  worst_first-IsWorstFirst law [] = tt
  worst_first-IsWorstFirst law (s ∷ ss) =
      insert_stale-IsWorstFirst law s (worst_first ss) (worst_first-IsWorstFirst law ss)

  -- The pass lists the stale components with the longest silence first, as many as it found, and
  -- its status is healthy if it lists none, down if one of those it lists is critical, and degraded
  -- otherwise. The comparison of ages is assumed to be a linear order.
  pub check_heartbeats-report :
      (law : IsFloat F) (components : List (Watched F)) (ages : ℕ → Option F) (in_session : Bool)
      (f : ControlFlags)
      → let r = check_heartbeats components ages in_session f in
        IsWorstFirst r.listed
        × (length r.listed ≡ length (survey in_session ages components).stale)
        × (r.status ≡ (
            if is_empty r.listed
            then healthy
            else if any is_critical r.listed
            then down
            else degraded))
  unfolding check_heartbeats status_of
  check_heartbeats-report law components ages in_session f =
      let stale = (survey in_session ages components).stale in
      let counts = worst_first-counts is_critical stale in
      (worst_first-IsWorstFirst law stale, counts.1, rw (worst_first-is_empty stale, counts.0) refl)
