-- ===== src/Passes/Types.antt =====
-- The data of the passes of src/c4_exec/engine.py: open positions with the keys of their exit policies
-- that the passes read, profiles, and the orders that a pass sends. Ids, tickers and profile names are
-- numbers; a time of the day is in minutes, which order as the texts `HH:MM` do.
use news_pipeline.Base.{ℕ, Bool, Option}
use news_pipeline.Direction.{Side}
use news_pipeline.Exits.{Policy, Trail, ProfitLock}

-- `overnight_hold`
pub data Hold : Type 0 where
  force_flat eod_rule other_hold : Hold

-- `atr_method`
pub data AtrMethod : Type 0 where
  daily_atr recovered_5m other_method : AtrMethod

-- `exit_policy`: the keys that the evaluator reads, and those of the passes.
pub record DayPolicy (F : Type 0) : Type 0 where
  pub exits : Policy F
  pub profile : Option ℕ
  pub overnight_hold : Option Hold
  pub force_flat_time_et : Option ℕ
  pub guard_exit : Bool
  pub exit_at_open : Bool
  pub atr_method : Option AtrMethod
  pub initial_stop_k : Option F
  pub promoted_ts : Option ℕ
  pub promoted_from : Option ℕ
  pub promotion_decision_id : Option ℕ

-- A row of `journal.positions`, with its age in sessions, what is known of earnings in the next
-- session, and whether it has compiled monitors.
pub record DayPosition (F : Type 0) : Type 0 where
  pub position_id : ℕ
  pub is_open : Bool
  pub short_horizon : Bool
  pub from_scanner : Bool
  pub qty_open : ℕ
  pub avg_entry : F
  pub last_price : Option F
  pub r_unit : F
  pub side : Option Side
  pub session_age : ℕ
  pub earnings_next : Option Bool
  pub monitored : Bool
  pub policy : DayPolicy F

-- The layers of the exits that the passes send.
pub data PassLayer : Type 0 where
  force_flat_layer guard_layer review_layer overnight_layer : PassLayer

pub record PassOrder (F : Type 0) : Type 0 where
  pub position_id : ℕ
  pub layer : PassLayer
  pub qty : ℕ
  pub price : F

-- The keys of the overnight rule.
pub record OvernightCfg (F : Type 0) : Type 0 where
  pub hold_min_unrealized_r : F
  pub young_max_age_sessions : ℕ
  pub young_max_realized_fraction : F

pub data OvernightRule : Type 0 where
  earnings_next_session unrealized_r_threshold young_position stale_flat : OvernightRule

-- The profile that a position is promoted to.
pub record TargetProfile (F : Type 0) : Type 0 where
  pub overnight_hold : Option Hold
  pub min_progress_r : Option F
  pub keeps_trail : Bool
  pub trail : Trail F
  pub breakeven_at_r : F

-- A profile as the live adjustment reads it.
pub record LiveProfile (F : Type 0) : Type 0 where
  pub profit_lock : Option (ProfitLock F)
  pub trail : Trail F
  pub breakeven_at_r : Option F
  pub initial_stop_k : Option F
