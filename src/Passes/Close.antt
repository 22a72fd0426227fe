-- ===== src/Passes/Close.antt =====
-- What the passes of src/c4_exec/engine.py leave open over night.
use news_pipeline.Base.{
  ℕ, Bool, true, false, not, ◌&&◌, ◌||◌, ltb, ◌≡◌, refl, Option, none, some, List, [], ◌∷◌, all,
  arith, if◌then◌else◌, default_to, is_none, Bool-cases, Option-cases, inl, inr, ◌⊎◌, subst, sym,
  ◌∙◌, ap,
}
use news_pipeline.Num.{Num}
use news_pipeline.Engine.{Outcome}
use news_pipeline.Passes.Types.{DayPosition, PassOrder, OvernightCfg, OvernightRule}
use news_pipeline.Passes.{
  is_force_flat, is_true, is_exit_rule, is_closing, exit_row, pass_row, run_pass, is_flat_due,
  flat_order, force_flat_pass, unrealized_of, fraction_of, overnight_decision, overnight_rule,
  overnight_order, overnight_pass, order_on,
}

module _ {F : Type 0} where
  -- The position with another status.
  abbrev marked : Bool → Bool → DayPosition F → DayPosition F
  marked b m r = record r { is_open = b; monitored = m }

  abbrev is_left : (DayPosition F → Option (PassOrder F)) → (ℕ → Outcome) → DayPosition F → Bool
  is_left select broker r =
      not (r.is_open && not (is_none (select r))) || not (is_closing (broker r.position_id))

  -- What a pass makes of a position: the position itself, or, where it was open and selected, one with
  -- the status that the broker's answer gives.
  pass_row-cases :
      (pops : Bool) (select : DayPosition F → Option (PassOrder F)) (broker : ℕ → Outcome)
      (r : DayPosition F)
      → ((r.is_open && not (is_none (select r))) ≡ false) × (pass_row pops select broker r ≡ r)
        ⊎ (r.is_open ≡ true)
          × (pass_row pops select broker r
              ≡ marked (not (is_closing (broker r.position_id))) (r.monitored && not pops) r)
  unfolding pass_row
  pass_row-cases pops select broker r = elim (Bool-cases r.is_open) [
    | inr closed ↦ inl (
      ground (arith, closed),
      subst (λ b. (if b then exit_row pops (broker r.position_id) (select r) r else r) ≡ r)
          (sym closed) refl,
    )
    | inl held ↦ elim (Option-cases (select r)) [
      | inl unselected ↦ inl (
        ground (arith, unselected),
        subst (λ b. (if b then exit_row pops (broker r.position_id) (select r) r else r) ≡ r)
            (sym held)
            (subst (λ o. exit_row pops (broker r.position_id) o r ≡ r) (sym unselected) refl),
      )
      | inr (o, selected) ↦
          let after =
            marked (not (is_closing (broker r.position_id))) (r.monitored && not pops) r in
          inr (
            held,
            subst
                (λ b. (if b then exit_row pops (broker r.position_id) (select r) r else r) ≡ after)
                (sym held)
                (subst (λ s. exit_row pops (broker r.position_id) s r ≡ after) (sym selected) refl),
          )
    ]
  ]

  pass_row-is_left :
      (pops : Bool) (select : DayPosition F → Option (PassOrder F)) (broker : ℕ → Outcome)
      (r : DayPosition F)
      → ((b m : Bool) (q : DayPosition F) → select (marked b m q) ≡ select q)
      → is_left select broker (pass_row pops select broker r) ≡ true
  pass_row-is_left pops select broker r stable = elim (pass_row-cases pops select broker r) [
    | inl (passed, e) ↦ subst (λ q. is_left select broker q ≡ true) (sym e) (ground (arith, passed))
    | inr (held, e) ↦
        subst (λ q. is_left select broker q ≡ true) (sym e)
          (ground
            (arith, stable (not (is_closing (broker r.position_id))) (r.monitored && not pops) r))
  ]

  pass_row-keeps :
      (pops : Bool) (select : DayPosition F → Option (PassOrder F)) (broker : ℕ → Outcome)
      (p : DayPosition F → Bool) (r : DayPosition F)
      → ((b m : Bool) (q : DayPosition F) → q.is_open ≡ true → p q ≡ true → p (marked b m q) ≡ true)
      → p r ≡ true
      → p (pass_row pops select broker r) ≡ true
  pass_row-keeps pops select broker p r keeps h = elim (pass_row-cases pops select broker r) [
    | inl (passed, e) ↦ subst (λ q. p q ≡ true) (sym e) h
    | inr (held, e) ↦
        subst (λ q. p q ≡ true) (sym e)
          (keeps (not (is_closing (broker r.position_id))) (r.monitored && not pops) r held h)
  ]

  -- A position that a pass selected is open after it only if the broker refused its exit.
  run_pass-is_left :
      (pops : Bool) (select : DayPosition F → Option (PassOrder F)) (broker : ℕ → Outcome)
      (rs : List (DayPosition F))
      → ((b m : Bool) (q : DayPosition F) → select (marked b m q) ≡ select q)
      → all (is_left select broker) (run_pass pops select broker rs).0 ≡ true
  unfolding run_pass
  run_pass-is_left pops select broker [] stable = refl
  run_pass-is_left pops select broker (r ∷ rs) stable = ground (
    arith,
    pass_row-is_left pops select broker r stable,
    run_pass-is_left pops select broker rs stable,
  )

  -- A pass keeps what holds of the open positions and is not lost by their closing.
  run_pass-all :
      (pops : Bool) (select : DayPosition F → Option (PassOrder F)) (broker : ℕ → Outcome)
      (p : DayPosition F → Bool) (rs : List (DayPosition F))
      → ((b m : Bool) (r : DayPosition F) → r.is_open ≡ true → p r ≡ true → p (marked b m r) ≡ true)
      → all p rs ≡ true
      → all p (run_pass pops select broker rs).0 ≡ true
  unfolding run_pass
  run_pass-all pops select broker p [] keeps h = refl
  run_pass-all pops select broker p (r ∷ rs) keeps h = ground (
    arith,
    h,
    pass_row-keeps pops select broker p r keeps,
    run_pass-all pops select broker p rs keeps,
  )

  all_imply :
      (p q s : DayPosition F → Bool) (rs : List (DayPosition F))
      → ((r : DayPosition F) → p r ≡ true → q r ≡ true → s r ≡ true)
      → all p rs ≡ true
      → all q rs ≡ true
      → all s rs ≡ true
  all_imply p q s [] imply hp hq = refl
  all_imply p q s (r ∷ rs) imply hp hq = ground (arith, hp, hq, imply r, all_imply p q s rs imply)

module _ {F : Type 0} ⦃num : Num F⦄ where
  open num use {is_lt, is_le}

  -- The overnight rule lets the position stay: no earnings are known for the next session, and it is
  -- up by the threshold or young with most of its move ahead.
  abbrev pub may_hold : OvernightCfg F → DayPosition F → Bool
  may_hold cfg r =
      not (is_true r.earnings_next)
      && (is_le cfg.hold_min_unrealized_r (unrealized_of r)
          || (ltb r.session_age cfg.young_max_age_sessions
              && is_lt (fraction_of r) cfg.young_max_realized_fraction))

  -- Why a position may be open after the two passes.
  abbrev pub may_stay : ℕ → OvernightCfg F → (ℕ → Outcome) → (ℕ → Outcome) → DayPosition F → Bool
  may_stay now_et cfg flat_broker broker r =
      if is_force_flat r.policy.overnight_hold
      then ltb now_et (default_to 950 r.policy.force_flat_time_et)
        || not (is_closing (flat_broker r.position_id))
      else not r.short_horizon || may_hold cfg r || not (is_closing (broker r.position_id))

  order_on-is_none :
      (r : DayPosition F) (rule : OvernightRule)
      → is_none (order_on r (some rule)) ≡ not (is_exit_rule rule)
  order_on-is_none r rule = elim (Bool-cases (is_exit_rule rule)) [
    | inl leaves ↦ ground (arith, leaves)
    | inr stays ↦ ground (arith, stays)
  ]

  guarded_order-is_none :
      (r : DayPosition F) (passed : Bool) (rule : OvernightRule)
      → is_none (order_on r (if passed then none else some rule))
        ≡ (passed || not (is_exit_rule rule))
  guarded_order-is_none r true rule = refl
  guarded_order-is_none r false rule = order_on-is_none r rule

  overnight_decision-is_exit_rule :
      (u : F) (age : ℕ) (fraction : F) (earnings : Option Bool) (cfg : OvernightCfg F)
      → not (is_exit_rule (overnight_decision u age fraction earnings cfg)) ≡ (
          not (is_true earnings)
          && (is_le cfg.hold_min_unrealized_r u
              || (ltb age cfg.young_max_age_sessions
                  && is_lt fraction cfg.young_max_realized_fraction)))
  unfolding overnight_decision
  overnight_decision-is_exit_rule u age fraction earnings cfg = ground arith

  overnight_order-is_none :
      (cfg : OvernightCfg F) (r : DayPosition F)
      → is_none (overnight_order cfg r)
        ≡ (not r.short_horizon || is_force_flat r.policy.overnight_hold || may_hold cfg r)
  unfolding overnight_order overnight_rule
  overnight_order-is_none cfg r =
      let passed = not r.short_horizon || is_force_flat r.policy.overnight_hold in
      let rule =
        overnight_decision (unrealized_of r) r.session_age (fraction_of r) r.earnings_next cfg in
      let stays =
        overnight_decision-is_exit_rule (unrealized_of r) r.session_age (fraction_of r)
          r.earnings_next cfg in
      guarded_order-is_none r passed rule ∙ ap (λ b. passed || b) stays

  flat_order-is_none :
      (now_et : ℕ) (r : DayPosition F) → is_none (flat_order now_et r) ≡ not (is_flat_due now_et r)
  unfolding flat_order
  flat_order-is_none now_et r = ground arith

  -- After the force-flat pass and the overnight pass a position is open only for a reason: its policy
  -- asks to be flat and the time has not come or the broker refused the exit; or it is of the long
  -- horizon, the overnight rule lets it stay, or the broker refused the exit.
  pub overnight_pass-may_stay :
      (now_et : ℕ) (cfg : OvernightCfg F) (flat_broker broker : ℕ → Outcome)
      (rs : List (DayPosition F))
      → all
          (λ r. not r.is_open || may_stay now_et cfg flat_broker broker r)
          (overnight_pass cfg broker (force_flat_pass now_et flat_broker rs).0).0
        ≡ true
  unfolding overnight_pass force_flat_pass is_flat_due
  overnight_pass-may_stay now_et cfg flat_broker broker rs =
      let flat = run_pass-is_left true (flat_order now_et) flat_broker rs (λ b m q. refl) in
      let after_flat =
        run_pass-all false (overnight_order cfg) broker (is_left (flat_order now_et) flat_broker)
          (run_pass true (flat_order now_et) flat_broker rs).0
          (λ b m q held h. ground (arith, held, h)) flat in
      let night =
        run_pass-is_left false (overnight_order cfg) broker
          (run_pass true (flat_order now_et) flat_broker rs).0 (λ b m q. refl) in
      all_imply (is_left (flat_order now_et) flat_broker) (is_left (overnight_order cfg) broker)
        (λ r. not r.is_open || may_stay now_et cfg flat_broker broker r)
        (run_pass false (overnight_order cfg) broker
          (run_pass true (flat_order now_et) flat_broker rs).0).0
        (λ r flat_left night_left. ground (
          arith,
          flat_left,
          night_left,
          flat_order-is_none now_et r,
          overnight_order-is_none cfg r,
        ))
        after_flat night
