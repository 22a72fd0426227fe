-- ===== src/Passes.antt =====
-- src/c4_exec/engine.py and src/c4_exec/overnight.py: the passes over the open positions that exit at
-- the close, at the open and for the guard, and the overnight rule. What the broker answers to an exit
-- is a function of the position; a filled exit closes the position, since it is for all its shares.
pub mod Types
pub mod Promotion
pub mod Close
use news_pipeline.Base.{
  ℕ, Bool, true, false, not, ◌&&◌, ◌||◌, ltb, leb, Option, none, some, List, [], ◌∷◌, if◌then◌else◌,
  default_to,
}
use news_pipeline.Base.Int.{pos}
use news_pipeline.Num.{Num, zero_f, or_else}
use news_pipeline.Direction.{Side, marketable_exit, r_progress, move_fraction}
use news_pipeline.Exits.{Policy}
use news_pipeline.Engine.{Outcome, filled, reinstated, catastrophe_filled}
use news_pipeline.Passes.Types.{
  Hold, force_flat, eod_rule, other_hold, DayPolicy, DayPosition, PassLayer, force_flat_layer,
  guard_layer, review_layer, overnight_layer, PassOrder, OvernightCfg, OvernightRule,
  earnings_next_session, unrealized_r_threshold, young_position, stale_flat,
}

abbrev pub is_force_flat : Option Hold → Bool
is_force_flat none = false
is_force_flat (some force_flat) = true
is_force_flat (some eod_rule) = false
is_force_flat (some other_hold) = false

-- `earn` is true, and not only known.
abbrev pub is_true : Option Bool → Bool
is_true none = false
is_true (some b) = b

abbrev pub is_exit_rule : OvernightRule → Bool
is_exit_rule earnings_next_session = true
is_exit_rule unrealized_r_threshold = false
is_exit_rule young_position = false
is_exit_rule stale_flat = true

abbrev pub is_closing : Outcome → Bool
is_closing filled = true
is_closing reinstated = false
is_closing catastrophe_filled = true

module _ {F : Type 0} where
  -- One position in a pass: `pops` is whether the pass drops the monitors of a position it exits.
  abbrev pub exit_row : Bool → Outcome → Option (PassOrder F) → DayPosition F → DayPosition F
  exit_row pops outcome none r = r
  exit_row pops outcome (some o) r = record r {
    is_open = not (is_closing outcome);
    monitored = r.monitored && not pops;
  }

  abbrev pub sent_orders : Option (PassOrder F) → List (PassOrder F) → List (PassOrder F)
  sent_orders none os = os
  sent_orders (some o) os = o ∷ os

  unfoldable pub pass_row :
      Bool → (DayPosition F → Option (PassOrder F)) → (ℕ → Outcome) → DayPosition F → DayPosition F
  pass_row pops select broker r =
      if r.is_open then exit_row pops (broker r.position_id) (select r) r else r

  -- A pass over `open_positions()`: each one that `select` has an order for sends it.
  unfoldable pub run_pass :
      Bool
      → (DayPosition F → Option (PassOrder F))
      → (ℕ → Outcome)
      → List (DayPosition F)
      → List (DayPosition F) × List (PassOrder F)
  unfolding pass_row
  run_pass pops select broker [] = ([], [])
  run_pass pops select broker (r ∷ rs) =
      let (rows, orders) = run_pass pops select broker rs in
      (
        pass_row pops select broker r ∷ rows,
        if r.is_open then sent_orders (select r) orders else orders,
      )

module _ {F : Type 0} ⦃num : Num F⦄ where
  open num use {lit, div, is_lt, is_le}

  -- `float(pos.get("last_price") or pos["avg_entry"])`
  abbrev pub mark_of : DayPosition F → F
  mark_of r = or_else r.last_price r.avg_entry

  abbrev aggressive_order : PassLayer → DayPosition F → PassOrder F
  aggressive_order layer r = record {
    position_id = r.position_id;
    layer = layer;
    qty = r.qty_open;
    price = marketable_exit (default_to Side.long r.side) (mark_of r) (lit 3 3);
  }

  -- The policy asks to be flat by a time that has come; 950 is 15:50.
  unfoldable pub is_flat_due : ℕ → DayPosition F → Bool
  is_flat_due now_et r =
      is_force_flat r.policy.overnight_hold
      && leb (default_to 950 r.policy.force_flat_time_et) now_et

  unfoldable pub flat_order : ℕ → DayPosition F → Option (PassOrder F)
  unfolding is_flat_due
  flat_order now_et r =
      if is_flat_due now_et r then some (aggressive_order force_flat_layer r) else none

  -- `force_flat_pass`
  unfoldable pub force_flat_pass :
      ℕ → (ℕ → Outcome) → List (DayPosition F) → List (DayPosition F) × List (PassOrder F)
  unfolding run_pass flat_order
  force_flat_pass now_et = run_pass true (flat_order now_et)

  unfoldable pub guard_order : DayPosition F → Option (PassOrder F)
  guard_order r = if r.policy.guard_exit then some (aggressive_order guard_layer r) else none

  -- `guard_exit_pass`
  unfoldable pub guard_exit_pass :
      (ℕ → Outcome) → List (DayPosition F) → List (DayPosition F) × List (PassOrder F)
  unfolding run_pass guard_order
  guard_exit_pass = run_pass true guard_order

  unfoldable pub open_order : DayPosition F → Option (PassOrder F)
  open_order r = if r.policy.exit_at_open then some (aggressive_order review_layer r) else none

  -- `open_exit_pass`
  unfoldable pub open_exit_pass :
      ℕ → ℕ → (ℕ → Outcome) → List (DayPosition F) → List (DayPosition F) × List (PassOrder F)
  unfolding run_pass open_order
  open_exit_pass not_before now_et broker rs =
      if ltb now_et not_before then (rs, []) else run_pass true open_order broker rs

  -- `realized_move_fraction`
  unfoldable pub realized_move_fraction : F → F → F → Side → F
  realized_move_fraction mark avg_entry magnitude_est side =
      if is_le magnitude_est zero_f
      then zero_f
      else div (move_fraction side avg_entry mark) magnitude_est

  -- `overnight_decision`, by its rule; `is_exit_rule` says which rules exit.
  unfoldable pub overnight_decision : F → ℕ → F → Option Bool → OvernightCfg F → OvernightRule
  overnight_decision unrealized_r session_age realized_fraction earnings cfg =
      if is_true earnings
      then earnings_next_session
      else if is_le cfg.hold_min_unrealized_r unrealized_r
      then unrealized_r_threshold
      else if ltb session_age cfg.young_max_age_sessions
          && is_lt realized_fraction cfg.young_max_realized_fraction
      then young_position
      else stale_flat

  -- `pos.get("side") or policy.get("side") or "LONG"`
  abbrev pub day_side : DayPosition F → Side
  day_side r = default_to (default_to Side.long (Policy.side r.policy.exits)) r.side

  abbrev pub unrealized_of : DayPosition F → F
  unrealized_of r = r_progress (day_side r) r.avg_entry r.r_unit (mark_of r)

  abbrev pub fraction_of : DayPosition F → F
  fraction_of r =
      realized_move_fraction (mark_of r) r.avg_entry (or_else r.policy.exits.magnitude_est zero_f)
        (day_side r)

  -- The decision of the pass on one position, where it makes one.
  unfoldable pub overnight_rule : OvernightCfg F → DayPosition F → Option OvernightRule
  unfolding overnight_decision realized_move_fraction
  overnight_rule cfg r =
      if not r.short_horizon || is_force_flat r.policy.overnight_hold
      then none
      else some
          (overnight_decision (unrealized_of r) r.session_age (fraction_of r) r.earnings_next cfg)

  abbrev pub order_on : DayPosition F → Option OvernightRule → Option (PassOrder F)
  order_on r none = none
  order_on r (some rule) =
      if is_exit_rule rule
      then some record {
        position_id = r.position_id;
        layer = overnight_layer;
        qty = r.qty_open;
        price = marketable_exit (day_side r) (mark_of r) (lit 1 3);
      }
      else none

  unfoldable pub overnight_order : OvernightCfg F → DayPosition F → Option (PassOrder F)
  unfolding overnight_rule
  overnight_order cfg r = order_on r (overnight_rule cfg r)

  -- `overnight_pass`
  unfoldable pub overnight_pass :
      OvernightCfg F
      → (ℕ → Outcome)
      → List (DayPosition F)
      → List (DayPosition F) × List (PassOrder F)
  unfolding run_pass overnight_order
  overnight_pass cfg = run_pass false (overnight_order cfg)
