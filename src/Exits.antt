-- ===== src/Exits.antt =====
-- src/c4_exec/exits.py: the exit engine's evaluator. A position's `exit_policy` dict is a record of
-- the keys that the evaluator reads; the `reason` texts of the actions are left out.
pub mod Priority
pub mod Ratchet
use news_pipeline.Base.{
  ℕ, ◌/◌, Bool, true, false, not, ◌&&◌, Option, none, some, List, [], ◌∷◌, ◌++◌, ltb, leb, is_empty,
  if◌then◌else◌, default_to,
}
use news_pipeline.Base.Int.{pos}
use news_pipeline.Num.{Num, zero_f, truthy, or_else}
use news_pipeline.Direction.{
  Side, Bar, is_long, signed, r_progress, realization_target, target_hit, stop_hit, is_tighter,
  watermark, trail_from,
}

pub data Basis : Type 0 where
  initial breakeven trail : Basis

-- The vocabulary of `exits.exit_layer`; `no_layer` is the empty string.
pub data Layer : Type 0 where
  no_layer stop_layer breakeven_layer trail_layer invalidation time target : Layer

pub data Kind : Type 0 where
  exit scale_out set_stop event : Kind

pub data EventType : Type 0 where
  position_review guard_action : EventType

pub record ExitAction (F : Type 0) : Type 0 where
  pub kind : Kind
  pub layer : Layer
  pub qty : ℕ
  pub new_stop : Option F
  pub new_basis : Option Basis
  pub event_type : Option EventType
  pub new_hwm : Option F
  pub trigger_price : Option F

-- `STOP_ATTRIBUTION`
unfoldable pub stop_attribution : Basis → Layer
stop_attribution initial = stop_layer
stop_attribution breakeven = breakeven_layer
stop_attribution trail = trail_layer

-- `realization.action`
pub data Realization : Type 0 where
  no_action scale_out_50 review_flag : Realization

-- `time_stop`: absent, with `window_minutes`, or with a session `window`; each with its
-- `min_progress_R`.
pub data TimeStop (F : Type 0) : Type 0 where
  no_window : TimeStop F
  window_minutes : ℕ → F → TimeStop F
  window_sessions : ℕ → F → TimeStop F

pub record Trail (F : Type 0) : Type 0 where
  pub activate_at_r : F
  pub k : F

pub record ProfitLock (F : Type 0) : Type 0 where
  pub activate_pct : Option F
  pub trail_pct : Option F

-- `exit_policy`; an absent key is `none`.
pub record Policy (F : Type 0) : Type 0 where
  pub current_stop : Option F
  pub initial_stop : F
  pub stop_basis : Option Basis
  pub hwm : Option F
  pub scale_out_done : Bool
  pub target_fraction : F
  pub realization_action : Realization
  pub magnitude_est : Option F
  pub side : Option Side
  pub time_stop : TimeStop F
  pub atr_value : Option F
  pub atr_14 : F
  pub trail_cfg : Option (Trail F)
  pub breakeven_at_r : F
  pub profit_lock : Option (ProfitLock F)

-- The columns of a `positions` row that the evaluator reads.
pub record Position (F : Type 0) : Type 0 where
  pub exit_policy : Policy F
  pub avg_entry : F
  pub r_unit : F
  pub qty_open : ℕ
  pub side : Option Side

pub record PolicyState (F : Type 0) : Type 0 where
  pub current_stop : F
  pub stop_basis : Basis
  pub hwm : F
  pub scale_out_done : Bool

-- `pos.get("side") or policy.get("side") or "LONG"`
unfoldable pub side_of : {F : Type 0} → Position F → Side
side_of p = default_to (default_to Side.long (Policy.side p.exit_policy)) p.side

module _ {F : Type 0} ⦃num : Num F⦄ where
  open num use {of_ℤ, lit, sub, mul, div, round, is_lt, is_le}

  unfoldable pub policy_state : Policy F → F → PolicyState F
  policy_state policy avg_entry = record {
    current_stop = or_else policy.current_stop policy.initial_stop;
    stop_basis = default_to initial policy.stop_basis;
    hwm = or_else policy.hwm avg_entry;
    scale_out_done = policy.scale_out_done;
  }

  -- `realization_target` of the evaluator, over the one of `common.direction`.
  unfoldable pub policy_target : F → Policy F → F
  policy_target avg_entry policy =
      realization_target (default_to Side.long policy.side) avg_entry policy.target_fraction
        (or_else policy.magnitude_est zero_f)

  abbrev pub full_exit : Layer → ℕ → F → ExitAction F
  full_exit layer qty price = record {
    kind = exit;
    layer = layer;
    qty = qty;
    new_stop = none;
    new_basis = none;
    event_type = none;
    new_hwm = none;
    trigger_price = some price;
  }

  -- L3: whether the time stop exits.
  unfoldable pub time_stop_fires : TimeStop F → ℕ → Option F → F → Bool
  time_stop_fires no_window session_age minutes_open progress_r = false
  time_stop_fires (window_minutes w min_progress) session_age none progress_r = false
  time_stop_fires (window_minutes w min_progress) session_age (some minutes) progress_r =
      is_le (of_ℤ (pos w)) minutes && is_lt progress_r min_progress
  time_stop_fires (window_sessions w min_progress) session_age minutes_open progress_r =
      leb w session_age && is_lt progress_r min_progress

  -- L4: what touching the target does.
  unfoldable pub realize : Realization → ℕ → F → List (ExitAction F)
  realize no_action qty_open price = []
  realize scale_out_50 qty_open price =
      let half = qty_open / 2 in
      if ltb 0 half
      then record {
        kind = scale_out;
        layer = target;
        qty = half;
        new_stop = none;
        new_basis = none;
        event_type = none;
        new_hwm = none;
        trigger_price = some price;
      }
        ∷ []
      else []
  realize review_flag qty_open price =
      record {
        kind = event;
        layer = target;
        qty = 0;
        new_stop = none;
        new_basis = none;
        event_type = some position_review;
        new_hwm = none;
        trigger_price = none;
      }
      ∷ []

  unfoldable pub realization : Position F → Bar F → List (ExitAction F)
  unfolding realize policy_target
  realization p bar =
      let goal = policy_target p.avg_entry p.exit_policy in
      if not p.exit_policy.scale_out_done && target_hit (side_of p) bar goal
      then realize p.exit_policy.realization_action p.qty_open goal
      else []

  -- L2: the R ladder's proposal.
  unfoldable pub breakeven_proposal : Policy F → F → Basis → F → Option (F × Basis)
  breakeven_proposal policy avg_entry initial progress_r =
      if is_le policy.breakeven_at_r progress_r then some (round avg_entry 2, breakeven) else none
  breakeven_proposal policy avg_entry breakeven progress_r = none
  breakeven_proposal policy avg_entry trail progress_r = none

  unfoldable pub trail_proposal :
      Option (Trail F) → Side → F → F → F → Option (F × Basis) → Option (F × Basis)
  trail_proposal none side water atr progress_r otherwise = otherwise
  trail_proposal (some cfg) side water atr progress_r otherwise =
      if is_le cfg.activate_at_r progress_r
      then some (trail_from side water (mul cfg.k atr), trail)
      else otherwise

  -- The tighter of two proposals, the first on a tie.
  unfoldable pub tighter_of : Side → F → Option (F × Basis) → Option (F × Basis)
  tighter_of side lock_stop none = some (lock_stop, trail)
  tighter_of side lock_stop (some (stop, basis)) =
      if is_tighter side lock_stop stop then some (lock_stop, trail) else some (stop, basis)

  -- The percent profit lock.
  unfoldable pub lock_proposal :
      Option (ProfitLock F) → Side → F → F → Option (F × Basis) → Option (F × Basis)
  unfolding tighter_of
  lock_proposal none side water avg_entry proposed = proposed
  lock_proposal (some lock) side water avg_entry proposed =
      let activate = or_else lock.activate_pct zero_f in
      let gain = signed side (sub (div water avg_entry) (of_ℤ (pos 1))) in
      let trail_pct = default_to (lit 5 2) lock.trail_pct in
      let lock_stop = round (mul water (sub (of_ℤ (pos 1)) (signed side trail_pct))) 2 in
      if is_lt zero_f activate && is_le activate gain
      then tighter_of side lock_stop proposed
      else proposed

  unfoldable pub proposal : Position F → F → F → Option (F × Basis)
  unfolding breakeven_proposal trail_proposal lock_proposal
  proposal p water progress_r =
      let policy = p.exit_policy in
      let basis = default_to initial policy.stop_basis in
      lock_proposal policy.profit_lock (side_of p) water p.avg_entry (
        trail_proposal policy.trail_cfg (side_of p) water (or_else policy.atr_value policy.atr_14)
          progress_r (breakeven_proposal policy p.avg_entry basis progress_r))

  abbrev hwm_update : Side → F → F → List (ExitAction F)
  hwm_update side water hwm =
      if is_lt zero_f (signed side (sub water hwm))
      then record {
        kind = event;
        layer = no_layer;
        qty = 0;
        new_stop = none;
        new_basis = none;
        event_type = none;
        new_hwm = some water;
        trigger_price = none;
      }
        ∷ []
      else []

  -- The tighten-only step: a proposal that is not tighter is dropped.
  unfoldable pub ratchet : Side → F → PolicyState F → Option (F × Basis) → List (ExitAction F)
  ratchet side water state none = hwm_update side water state.hwm
  ratchet side water state (some (stop, basis)) =
      if is_tighter side stop state.current_stop
      then record {
        kind = set_stop;
        layer = no_layer;
        qty = 0;
        new_stop = some stop;
        new_basis = some basis;
        event_type = none;
        new_hwm = some water;
        trigger_price = none;
      }
        ∷ []
      else hwm_update side water state.hwm

  unfoldable pub progress_of : Position F → Bar F → F
  progress_of p bar =
      if truthy p.r_unit then r_progress (side_of p) p.avg_entry p.r_unit bar.close else zero_f

  unfoldable pub evaluate_on_bar :
      {Fire : Type 0} → Position F → Bar F → ℕ → List Fire → Option F → List (ExitAction F)
  unfolding policy_state
  evaluate_on_bar p bar session_age fired_invalidations minutes_open =
      let side = side_of p in
      let state = policy_state p.exit_policy p.avg_entry in
      let progress_r = progress_of p bar in
      let new_hwm = watermark side (some state.hwm) bar in
      if stop_hit side bar state.current_stop
      then full_exit (stop_attribution state.stop_basis) p.qty_open state.current_stop ∷ []
      else if not (is_empty fired_invalidations)
      then full_exit invalidation p.qty_open bar.close ∷ []
      else if time_stop_fires p.exit_policy.time_stop session_age minutes_open progress_r
      then full_exit time p.qty_open bar.close ∷ []
      else realization p bar ++ ratchet side new_hwm state (proposal p new_hwm progress_r)
