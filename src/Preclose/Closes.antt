-- ===== src/Preclose/Closes.antt =====
-- The passes of src/c4_exec/engine.py around the close, one position.
use news_pipeline.Base.{
  ℕ, true, false, ◌≡◌, refl, ◌⊎◌, Option, some, List, [], ◌∷◌, any, all, is_empty, arith,
  Option-cases, inl, inr,
}
use news_pipeline.Num.{Num}
use news_pipeline.Direction.{Bar}
use news_pipeline.Exits.{Position, invalidation, evaluate_on_bar}
use news_pipeline.Exits.Priority.{closes, any-append, evaluate_exits}
use news_pipeline.Engine.{FireAction, Tick, exit_fires, extra_actions, step_actions}
use news_pipeline.Mechanics.{Answers, Desk, execute_exit}
use news_pipeline.Invalidation.{AnySpec, ArmContext, MipBar}
use news_pipeline.Preclose.{
  SessionBar, no_exit, session_bar, collapsed, run_monitors, preclose_hit, arm_all, after_exit,
  closing_tick, preclose_position,
}
use news_pipeline.Preclose.Foretold.{at_close, see_bars, foretold_after, arm_all-IsPersistent}

empty-nil : {A : Type 0} (xs : List A) → is_empty xs ≡ true → xs ≡ []
empty-nil [] h = refl
empty-nil (x ∷ xs) h = cc

module _ {F : Type 0} ⦃num : Num F⦄ where
  -- A fire of an exit closes the position, whatever the other layers do.
  evaluate_on_bar-closes :
      (p : Position F) (bar : Bar F) (age : ℕ) (fires : List (FireAction F)) (minutes : Option F)
      → is_empty fires ≡ false
      → any closes (evaluate_on_bar p bar age fires minutes) ≡ true
  evaluate_on_bar-closes p bar age fires minutes h = elim (evaluate_exits p bar age fires minutes) [
    | inl (must, one, layers, closing, total) ↦ closing
    | inr (stays, none_closes, total) ↦ absurd (ground (arith, stays, h))
  ]

  step_actions-closes :
      (p : Position F) (t : Tick F)
      → is_empty (exit_fires t.fires) ≡ false
      → any closes (step_actions p t) ≡ true
  unfolding step_actions
  step_actions-closes p t h =
      let acts = evaluate_on_bar p t.bar t.session_age (exit_fires t.fires) t.minutes_open in
      ground (
        arith,
        any-append acts (extra_actions p t.fires),
        evaluate_on_bar-closes p t.bar t.session_age (exit_fires t.fires) t.minutes_open h,
      )

  -- The pass before the close looks at a position whose monitors were armed from specifications and have
  -- seen any bars; no exit predicate has a condition of the session on the high, the low or drawdown_r;
  -- and the pass after the close gets the same bar. Then no exit predicate fires in the pass after the
  -- close, which may still close the position by its stop or its time stop, and the pass before it
  -- leaves the position as it is and sends nothing; or an exit predicate fires in the pass after the
  -- close, which closes the position, and the pass before it has sent the exit of the whole position.
  pub preclose_position-closes :
      (p : Position F) (ctx : ArmContext F) (specs : List (AnySpec F)) (bars : List (MipBar F))
      (b : SessionBar F) (desk : Desk F) (max_secs sleep : ℕ) (a : Answers F) (age : ℕ)
      (minutes : Option F)
      → all at_close (arm_all ctx specs).0 ≡ true
      → let ps = see_bars (arm_all ctx specs).0 bars in
        let looked =
          preclose_position p ctx specs max_secs sleep a
            (some b)
            (record { monitors = some ps; desk = desk }) in
        let closing = closing_tick b age minutes ps in
        ((exit_fires closing.fires ≡ [])
          × (looked ≡ some (record { monitors = some ps; desk = desk }, no_exit)))
        ⊎ ((is_empty (exit_fires closing.fires) ≡ false)
            × (any closes (step_actions p closing) ≡ true)
            × (looked
                ≡ after_exit ps (execute_exit p p.qty_open invalidation max_secs sleep a desk)))
  unfolding preclose_position
  preclose_position-closes p ctx specs bars b desk max_secs sleep a age minutes h =
      let ps = see_bars (arm_all ctx specs).0 bars in
      let told = foretold_after (arm_all ctx specs).0 bars b (arm_all-IsPersistent ctx specs) h in
      elim (Option-cases (preclose_hit ps (some b))) [
        | inl quiet ↦ inl (
          empty-nil (exit_fires (run_monitors ps (session_bar (collapsed b))).1)
              (ground (arith, told, quiet)),
          rw quiet refl,
        )
        | inr (hit, found) ↦ inr (
          ground (arith, told, found),
          step_actions-closes p (closing_tick b age minutes ps) (ground (arith, told, found)),
          rw found refl,
        )
      ]
