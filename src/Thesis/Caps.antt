-- ===== src/Thesis/Caps.antt =====
-- The bounds of the plan of src/c11_thesis/service.py.
use news_pipeline.Base.{
  ap, ℕ, ◌+◌, ◌-◌, ◌≤◌, true, false, ◌==◌, leb, ◌≡◌, refl, Option, none, some, List, [], ◌∷◌, All,
  length, arith, Bool-cases, Option-cases, ◌⊎◌, inl, inr,
}
use news_pipeline.Base.Int.{pos, leb_ℤ}
use news_pipeline.Num.{Num}
use news_pipeline.Thesis.Measures.{ThesisCfg, ThesisSkip, min_risk, candidate_skip}
use news_pipeline.Thesis.{
  UpThesis, PlanFacts, PlannedEntry, Plan, count_if, initial_count, budget_today, is_planned,
  is_passed_over, skip_entry, plan_entry, bars_of, sized_qty, place, consider, plan_beneficiaries,
  plan_theses, entry_plan,
}

module _ {F : Type 0} ⦃num : Num F⦄ (cfg : ThesisCfg F) (facts : PlanFacts F) where
  -- What is kept whenever a candidate is considered that the loops let through is kept by the loops.
  module _ (budget : ℕ) (P : Plan F → Type 0)
      (keep : (id ticker : ℕ) (st : Plan F)
        → leb budget (length st.planned) ≡ false
        → is_passed_over cfg facts ticker st ≡ false
        → leb cfg.max_per_thesis (st.per_thesis id) ≡ false
        → P st
        → P (consider cfg facts id ticker st)) where
    beneficiaries-keep :
        (id : ℕ) (bs : List (Option ℕ)) (st : Plan F)
        → P st
        → P (plan_beneficiaries cfg facts budget id bs st)
    unfolding plan_beneficiaries
    beneficiaries-keep id [] st h = h
    beneficiaries-keep id (none ∷ bs) st h = elim (Bool-cases (leb budget (length st.planned))) [
      | inl full ↦ rw full h
      | inr room ↦ rw room (beneficiaries-keep id bs st h)
    ]
    beneficiaries-keep id (some ticker ∷ bs) st h =
        elim (Bool-cases (leb budget (length st.planned))) [
          | inl full ↦ rw full h
          | inr room ↦ elim (Bool-cases (is_passed_over cfg facts ticker st)) [
            | inl passed ↦ rw (room, passed) (beneficiaries-keep id bs st h)
            | inr open_name ↦ elim (Bool-cases (leb cfg.max_per_thesis (st.per_thesis id))) [
              | inl enough ↦ rw (room, open_name, enough) h
              | inr more ↦
                  rw (room, open_name, more)
                    (beneficiaries-keep id bs (consider cfg facts id ticker st)
                      (keep id ticker st room open_name more h))
            ]
          ]
        ]

    theses-keep : (ts : List UpThesis) (st : Plan F) → P st → P (plan_theses cfg facts budget ts st)
    unfolding plan_theses
    theses-keep [] st h = h
    theses-keep (t ∷ ts) st h = elim (Bool-cases (leb budget (length st.planned))) [
      | inl full ↦ rw full h
      | inr room ↦ rw room (
          theses-keep ts (plan_beneficiaries cfg facts budget t.thesis_id t.beneficiaries st)
            (beneficiaries-keep t.thesis_id t.beneficiaries st h))
    ]

  -- The candidate passed every rule, and the budget buys a share.
  abbrev pub IsWorthy : ℕ → Type 0
  IsWorthy ticker =
      (candidate_skip cfg (facts.in_cooloff ticker) (facts.bars ticker) (facts.level ticker) ≡ none)
      × (leb_ℤ (pos 1) (sized_qty cfg facts (bars_of cfg facts (facts.bars ticker))) ≡ true)

  abbrev worthy_entry : ℕ → ℕ → Plan F → Plan F
  worthy_entry id ticker st =
      let daily = bars_of cfg facts (facts.bars ticker) in
      plan_entry cfg facts id ticker (sized_qty cfg facts daily) daily st

  consider-cases :
      (id ticker : ℕ) (st : Plan F)
      → ((reason : ThesisSkip) × (consider cfg facts id ticker st
            ≡ skip_entry cfg facts id ticker reason st))
        ⊎ (IsWorthy ticker × (consider cfg facts id ticker st ≡ worthy_entry id ticker st))
  unfolding consider
  consider-cases id ticker st =
      let answer =
        candidate_skip cfg (facts.in_cooloff ticker) (facts.bars ticker) (facts.level ticker) in
      let daily = bars_of cfg facts (facts.bars ticker) in
      elim (Option-cases answer) [
        | inr (reason, skipped) ↦ inl (reason, rw (skipped, place) refl)
        | inl clear ↦ elim (Bool-cases (leb_ℤ (pos 1) (sized_qty cfg facts daily))) [
          | inl sized ↦ inr ((clear, sized), rw (clear, place, sized) refl)
          | inr small ↦ inl (min_risk, rw (clear, place, small) refl)
        ]
      ]

  abbrev pub of_thesis : ℕ → List (PlannedEntry F) → ℕ
  of_thesis id es = count_if (λ e. e.thesis_id == id) es

  abbrev pub IsDistinct : List (PlannedEntry F) → Type 0
  IsDistinct [] = Unit
  IsDistinct (e ∷ es) = (is_planned cfg facts e.ticker es ≡ false) × IsDistinct es

  -- A planned entry: a name that is neither held nor pending, that passed every rule.
  abbrev pub IsChosen : PlannedEntry F → Type 0
  IsChosen e =
      (facts.is_held e.ticker ≡ false)
      × (facts.is_pending e.ticker ≡ false)
      × (candidate_skip cfg (facts.in_cooloff e.ticker) (facts.bars e.ticker) (facts.level e.ticker)
          ≡ none)
      × (leb_ℤ (pos 1) e.qty ≡ true)

  abbrev pub IsCounted : (ℕ → ℕ) → ℕ → ℕ → Plan F → Type 0
  IsCounted start id cap st =
      (st.per_thesis id ≡ start id + of_thesis id st.planned) × (st.per_thesis id ≤ cap)

  IsPlanned : ℕ → (ℕ → ℕ) → ℕ → ℕ → Plan F → Type 0
  IsPlanned budget start id cap st =
      (length st.planned ≤ budget)
      × All IsChosen st.planned
      × IsDistinct st.planned
      × IsCounted start id cap st

  consider-IsPlanned :
      (budget : ℕ) (start : ℕ → ℕ) (id' cap : ℕ)
      → cfg.max_per_thesis ≤ cap
      → (id ticker : ℕ) (st : Plan F) → leb budget (length st.planned) ≡ false
      → is_passed_over cfg facts ticker st ≡ false
      → leb cfg.max_per_thesis (st.per_thesis id) ≡ false
      → IsPlanned budget start id' cap st
      → IsPlanned budget start id' cap (consider cfg facts id ticker st)
  unfolding IsPlanned
  consider-IsPlanned budget start id' cap capped id ticker st room open_name more
        (fits, chosen, apart, (counted, low)) =
      elim (consider-cases id ticker st) [
        | inl (reason, skipped) ↦ rw skipped (fits, chosen, apart, (counted, low))
        | inr ((clear, sized), entered) ↦ rw entered (
          ground (arith, room),
          ((ground (arith, open_name), ground (arith, open_name), clear, sized), chosen),
          (ground (arith, open_name), apart),
          elim (Bool-cases (id' == id)) [
            | inl same ↦
                let e : id' ≡ id = ground (arith, same) in
                let eq : st.per_thesis id' ≡ st.per_thesis id = ap st.per_thesis e in
                ground (arith, same, e, eq, counted, low, more, capped)
            | inr other ↦ ground (arith, other, counted, low)
          ],
        )
      ]

  -- The plan stays within its caps and its rules: no more entries than a day may have, none beyond the
  -- positions that may be open, each of a name that is neither held nor pending and that passed every
  -- rule with at least one share, no name twice, and of each thesis with its open positions no more
  -- than `cap`, where that is no less than the cap of a thesis and than what was open of it before.
  pub entry_plan-IsPlanned :
      (theses : List UpThesis) (id cap : ℕ)
      → cfg.max_per_thesis ≤ cap
      → initial_count theses facts.open_decisions id ≤ cap
      → let plan = entry_plan cfg facts theses in
        (length plan.planned ≤ cfg.max_new_per_day)
        × (length plan.planned ≤ cfg.max_open_positions - length facts.open_decisions)
        × All IsChosen plan.planned
        × IsDistinct plan.planned
        × (initial_count theses facts.open_decisions id + of_thesis id plan.planned ≤ cap)
  unfolding entry_plan IsPlanned
  entry_plan-IsPlanned theses id cap capped low =
      let start = initial_count theses facts.open_decisions in
      let budget =
        budget_today cfg.max_new_per_day cfg.max_open_positions (length facts.open_decisions) in
      let within =
        theses-keep budget (IsPlanned budget start id cap)
          (consider-IsPlanned budget start id cap capped) theses
          (record { planned = []; skips = []; per_thesis = start })
          (omega arith, tt, tt, (omega arith, low)) in
      (
        ground (arith, within.0),
        ground (arith, within.0),
        within.1,
        within.2,
        omega (arith, within.3.0, within.3.1),
      )
