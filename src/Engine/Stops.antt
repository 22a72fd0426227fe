-- ===== src/Engine/Stops.antt =====
-- The stop that a bar leaves behind, against the stop that it found.
use news_pipeline.Base.{
  true, ◌≡◌, refl, ◌⊎◌, inl, inr, Option, none, some, List, [], ◌∷◌, ◌++◌, arith, All, sym, subst,
}
use news_pipeline.Num.{Num, or_else}
use news_pipeline.Direction.{Side, is_tighter, watermark}
use news_pipeline.Exits.{
  Kind, exit, scale_out, set_stop, event, ExitAction, Policy, Position, side_of, policy_state,
  evaluate_on_bar,
}
use news_pipeline.Exits.Ratchet.{CarriesTighter, IsTightening, evaluate-IsTightening}
use news_pipeline.Engine.{
  Outcome, filled, reinstated, catastrophe_filled, TightenTo, FireAction, exit_fire, tighten_fire,
  guard_fire, Applied, EngineState, Tick, keep_hwm, apply_action, apply_all, tighten_target,
  tighten_from_fire, exit_fires, extra_actions, step,
}

abbrev pub MovesTighter : {F : Type 0} ⦃num : Num F⦄ → Side → F → ExitAction F → Type 0
MovesTighter side start a = CarriesTighter side start a.kind a.new_stop

module _ {F : Type 0} ⦃num : Num F⦄ (side : Side) (start : F) (kept : Option F) where
  -- The stop is the one that was stored, or a strictly tighter one than the effective start.
  abbrev pub IsNoLooser : Option F → Type 0
  IsNoLooser stop = (stop ≡ kept) ⊎ ((s : F) × (stop ≡ some s) × (is_tighter side s start ≡ true))

  set_stop-IsNoLooser :
      (stop : Option F) → CarriesTighter side start set_stop stop → IsNoLooser stop
  set_stop-IsNoLooser none h = absurd h
  set_stop-IsNoLooser (some s) h = inr (s, refl, h)

  abbrev LeavesNoLooser : (EngineState F → EngineState F × List Applied) → Type 0
  LeavesNoLooser f =
      (t : EngineState F)
      → IsNoLooser t.policy.current_stop
      → IsNoLooser (f t).0.policy.current_stop

  keep_hwm_stop : (w : Option F) (p : Policy F) → (keep_hwm w p).current_stop ≡ p.current_stop
  keep_hwm_stop none p = refl
  keep_hwm_stop (some w) p = refl

  apply_action_no_looser :
      (k : Kind) (a : ExitAction F) (o : Outcome)
      (rest : EngineState F → EngineState F × List Applied)
      → CarriesTighter side start k a.new_stop
      → LeavesNoLooser rest
      → LeavesNoLooser (apply_action k a o rest)
  unfolding apply_action
  apply_action_no_looser exit a o rest ok ih s h = h
  apply_action_no_looser scale_out a filled rest ok ih s h = ih _ h
  apply_action_no_looser scale_out a reinstated rest ok ih s h = ih _ h
  apply_action_no_looser scale_out a catastrophe_filled rest ok ih s h = h
  apply_action_no_looser set_stop a o rest ok ih s h = ih _ (
      subst IsNoLooser
        (sym (
          keep_hwm_stop a.new_hwm
            (record (s.policy) { current_stop = a.new_stop; stop_basis = a.new_basis })))
        (set_stop-IsNoLooser a.new_stop ok))
  apply_action_no_looser event a o rest ok ih s h =
      ih _ (subst IsNoLooser (sym (keep_hwm_stop a.new_hwm s.policy)) h)

  apply_all_no_looser :
      (broker : ExitAction F → Outcome) (acts : List (ExitAction F))
      → All (MovesTighter side start) acts
      → LeavesNoLooser (apply_all broker acts)
  unfolding apply_all
  apply_all_no_looser broker [] ok s h = h
  apply_all_no_looser broker (a ∷ acts) ok s h =
      apply_action_no_looser a.kind a (broker a) (apply_all broker acts) ok.0
        (apply_all_no_looser broker acts ok.1) s h

module _ {F : Type 0} ⦃num : Num F⦄ where
  All-MovesTighter :
      (side : Side) (start : F) (xs ys : List (ExitAction F))
      → All (MovesTighter side start) xs
      → All (MovesTighter side start) ys
      → All (MovesTighter side start) (xs ++ ys)
  All-MovesTighter side start [] ys hx hy = hy
  All-MovesTighter side start (x ∷ xs) ys hx hy = (hx.0, All-MovesTighter side start xs ys hx.1 hy)

  IsTightening-MovesTighter :
      (side : Side) (start water : F) (xs : List (ExitAction F))
      → All (IsTightening side start water) xs
      → All (MovesTighter side start) xs
  IsTightening-MovesTighter side start water [] h = tt
  IsTightening-MovesTighter side start water (x ∷ xs) h =
      (h.0.0, IsTightening-MovesTighter side start water xs h.1)

  abbrev pub start_stop : Position F → F
  start_stop p = or_else p.exit_policy.current_stop p.exit_policy.initial_stop

  tighten_from_fire-MovesTighter :
      (p : Position F) (to : TightenTo F)
      → All (MovesTighter (side_of p) (start_stop p)) (tighten_from_fire p to)
  unfolding tighten_from_fire
  tighten_from_fire-MovesTighter p to = ground arith

  extra_actions-MovesTighter :
      (p : Position F) (fs : List (FireAction F))
      → All (MovesTighter (side_of p) (start_stop p)) (extra_actions p fs)
  unfolding extra_actions
  extra_actions-MovesTighter p [] = tt
  extra_actions-MovesTighter p (exit_fire ∷ fs) = extra_actions-MovesTighter p fs
  extra_actions-MovesTighter p (tighten_fire to ∷ fs) =
      All-MovesTighter (side_of p) (start_stop p) (tighten_from_fire p to) (extra_actions p fs)
        (tighten_from_fire-MovesTighter p to) (extra_actions-MovesTighter p fs)
  extra_actions-MovesTighter p (guard_fire ∷ fs) = (refl, extra_actions-MovesTighter p fs)

  -- Whatever the bar, the fires and the broker's answers, a bar leaves the stored stop as it was or
  -- stores one that is strictly tighter than the effective stop before the bar.
  pub step-IsNoLooser :
      (broker : ExitAction F → Outcome) (p : Position F) (t : Tick F)
      → IsNoLooser
          (side_of p)
          (start_stop p)
          p.exit_policy.current_stop
          (step broker p t).0.policy.current_stop
  unfolding step policy_state
  step-IsNoLooser broker p t =
      let acts = evaluate_on_bar p t.bar t.session_age (exit_fires t.fires) t.minutes_open in
      let state = policy_state p.exit_policy p.avg_entry in
      let water = watermark (side_of p) (some state.hwm) t.bar in
      apply_all_no_looser (side_of p) (start_stop p) p.exit_policy.current_stop broker
        (acts ++ extra_actions p t.fires)
        (All-MovesTighter (side_of p) (start_stop p) acts (extra_actions p t.fires)
          (IsTightening-MovesTighter (side_of p) (start_stop p) water acts
            (evaluate-IsTightening p t.bar t.session_age (exit_fires t.fires) t.minutes_open).0)
          (extra_actions-MovesTighter p t.fires))
        (record { policy = p.exit_policy; monitored = true }) (inl refl)

  -- A bar on which the evaluator's ratchet moves the stop and a monitor fires a tighten_stop ends on
  -- the monitor's stop, if that is tighter than the stop before the bar: the two are not compared.
  pub tighten_fire_overrides :
      (broker : ExitAction F → Outcome) (p : Position F) (t : Tick F) (to : TightenTo F)
      (a : ExitAction F)
      → t.fires ≡ tighten_fire to ∷ []
      → evaluate_on_bar p t.bar t.session_age (exit_fires t.fires) t.minutes_open ≡ a ∷ []
      → a.kind ≡ set_stop
      → is_tighter (side_of p) (tighten_target p to).0 (start_stop p) ≡ true
      → (step broker p t).0.policy.current_stop ≡ some (tighten_target p to).0
  unfolding step extra_actions tighten_from_fire apply_all apply_action
  tighten_fire_overrides broker p t to a only acts kind tighter =
      rw (acts, only) (rw kind (rw tighter))
