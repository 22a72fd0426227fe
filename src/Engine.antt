-- ===== src/Engine.antt =====
-- src/c4_exec/engine.py: one bar of one open position, from the fires of its monitors to the policy
-- that the applied actions leave behind. What the broker answers to an order is an argument.
pub mod Stops
pub mod ScaleOut
pub mod Halts
use news_pipeline.Base.{
  ℕ, Bool, true, false, Option, none, some, List, [], ◌∷◌, ◌++◌, if◌then◌else◌, default_to,
}
use news_pipeline.Num.{Num, or_else}
use news_pipeline.Direction.{Side, Bar, is_tighter, trail_from}
use news_pipeline.Exits.{
  Basis, initial, breakeven, trail, Layer, no_layer, Kind, exit, scale_out, set_stop, event,
  EventType, position_review, guard_action, ExitAction, Policy, Position, side_of, policy_state,
  evaluate_on_bar,
}

-- What `execute_exit` returns.
pub data Outcome : Type 0 where
  filled reinstated catastrophe_filled : Outcome

-- `fire.action["to"]` of a tighten_stop.
pub data TightenTo (F : Type 0) : Type 0 where
  to_breakeven : TightenTo F
  to_atr : F → TightenTo F

-- `fire.action`
pub data FireAction (F : Type 0) : Type 0 where
  exit_fire : FireAction F
  tighten_fire : TightenTo F → FireAction F
  guard_fire : FireAction F

-- The entries of the list that `_apply` returns.
pub data Applied : Type 0 where
  sent : Kind → Layer → Outcome → Applied
  stop_set reviewed guarded : Applied

-- The stored policy, and whether the position still has compiled monitors.
pub record EngineState (F : Type 0) : Type 0 where
  pub policy : Policy F
  pub monitored : Bool

-- The bar of `step`, with what the clock and the monitors give for it.
pub record Tick (F : Type 0) : Type 0 where
  pub bar : Bar F
  pub session_age : ℕ
  pub minutes_open : Option F
  pub fires : List (FireAction F)

abbrev event_log : Option EventType → List Applied → List Applied
event_log none log = log
event_log (some position_review) log = reviewed ∷ log
event_log (some guard_action) log = guarded ∷ log

abbrev ends_loop : Outcome → Bool
ends_loop filled = false
ends_loop reinstated = false
ends_loop catastrophe_filled = true

module _ {F : Type 0} where
  abbrev pub keep_hwm : Option F → Policy F → Policy F
  keep_hwm none policy = policy
  keep_hwm (some w) policy = record policy { hwm = some w }

  -- `_ratchet`
  unfoldable pub ratchet_policy : ExitAction F → Policy F → Policy F
  ratchet_policy a policy =
      keep_hwm a.new_hwm (record policy { current_stop = a.new_stop; stop_basis = a.new_basis })

  -- A filled scale-out sets the once-only flag; a catastrophe fill ends the loop.
  abbrev after_scale_out : Outcome → EngineState F → EngineState F
  after_scale_out filled s = record s { policy = record (s.policy) { scale_out_done = true } }
  after_scale_out reinstated s = s
  after_scale_out catastrophe_filled s = record s { monitored = false }

  abbrev logged : Applied → EngineState F × List Applied → EngineState F × List Applied
  logged entry (s, log) = (s, entry ∷ log)

  -- One action of `_apply`, with the loop over the actions that follow as a function.
  unfoldable pub apply_action :
      Kind
      → ExitAction F
      → Outcome
      → (EngineState F → EngineState F × List Applied)
      → EngineState F
      → EngineState F × List Applied
  unfolding ratchet_policy
  apply_action exit a outcome rest s =
      (record s { monitored = false }, sent exit a.layer outcome ∷ [])
  apply_action scale_out a outcome rest s =
      let after = after_scale_out outcome s in
      let entry = sent scale_out a.layer outcome in
      if ends_loop outcome then (after, entry ∷ []) else logged entry (rest after)
  apply_action set_stop a outcome rest s =
      logged stop_set (rest (record s { policy = ratchet_policy a s.policy }))
  apply_action event a outcome rest s =
      let (s', log) = rest (record s { policy = keep_hwm a.new_hwm s.policy }) in
      (s', event_log a.event_type log)

  -- `_apply`
  unfoldable pub apply_all :
      (ExitAction F → Outcome) → List (ExitAction F) → EngineState F → EngineState F × List Applied
  apply_all broker [] s = (s, [])
  apply_all broker (a ∷ actions) s = apply_action a.kind a (broker a) (apply_all broker actions) s

module _ {F : Type 0} ⦃num : Num F⦄ where
  open num use {mul, round}

  abbrev pub tighten_action : F → Basis → ExitAction F
  tighten_action stop basis = record {
    kind = set_stop;
    layer = no_layer;
    qty = 0;
    new_stop = some stop;
    new_basis = some basis;
    event_type = none;
    new_hwm = none;
    trigger_price = none;
  }

  abbrev guard_event : ExitAction F
  guard_event = record {
    kind = event;
    layer = no_layer;
    qty = 0;
    new_stop = none;
    new_basis = none;
    event_type = some guard_action;
    new_hwm = none;
    trigger_price = none;
  }

  unfoldable pub tighten_target : Position F → TightenTo F → F × Basis
  unfolding policy_state
  tighten_target p to_breakeven = (round p.avg_entry 2, breakeven)
  tighten_target p (to_atr atr_k) =
      let state = policy_state p.exit_policy p.avg_entry in
      (trail_from (side_of p) state.hwm (mul atr_k p.exit_policy.atr_14), trail)

  unfoldable pub tighten_from_fire : Position F → TightenTo F → List (ExitAction F)
  unfolding tighten_target policy_state
  tighten_from_fire p to =
      let (stop, basis) = tighten_target p to in
      if is_tighter (side_of p) stop (policy_state p.exit_policy p.avg_entry).current_stop
      then tighten_action stop basis ∷ []
      else []

  -- The loop over the monitors' fires: the exits, and the actions of the others.
  unfoldable pub exit_fires : List (FireAction F) → List (FireAction F)
  exit_fires [] = []
  exit_fires (exit_fire ∷ fs) = exit_fire ∷ exit_fires fs
  exit_fires (tighten_fire to ∷ fs) = exit_fires fs
  exit_fires (guard_fire ∷ fs) = exit_fires fs

  unfoldable pub extra_actions : Position F → List (FireAction F) → List (ExitAction F)
  extra_actions p [] = []
  extra_actions p (exit_fire ∷ fs) = extra_actions p fs
  extra_actions p (tighten_fire to ∷ fs) = tighten_from_fire p to ++ extra_actions p fs
  extra_actions p (guard_fire ∷ fs) = guard_event ∷ extra_actions p fs

  -- The actions of one bar, in the order in which `step` applies them.
  unfoldable pub step_actions : Position F → Tick F → List (ExitAction F)
  step_actions p t =
      evaluate_on_bar p t.bar t.session_age (exit_fires t.fires) t.minutes_open
      ++ extra_actions p t.fires

  unfoldable pub step :
      (ExitAction F → Outcome) → Position F → Tick F → EngineState F × List Applied
  unfolding step_actions
  step broker p t =
      apply_all broker (step_actions p t) (record { policy = p.exit_policy; monitored = true })
