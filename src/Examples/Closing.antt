-- ===== src/Examples/Closing.antt =====
-- The theorems on the passes of the engine, at two scanner positions.
use news_pipeline.Base.{
  ℕ, ◌≡◌, true, false, not, ◌||◌, Option, none, some, [], ◌∷◌, all, map, ◌==◌, if◌then◌else◌,
}
use news_pipeline.Num.Fixed.{Fixed, fixed_num}
use news_pipeline.Direction.{Side}
use news_pipeline.Engine.{Outcome, filled, reinstated}
use news_pipeline.Passes.Types.{
  force_flat, eod_rule, other_method, daily_atr, DayPolicy, DayPosition, OvernightCfg,
  TargetProfile, LiveProfile,
}
use news_pipeline.Passes.{force_flat_pass, overnight_pass}
use news_pipeline.Passes.Close.{may_stay, overnight_pass-may_stay}
use news_pipeline.Passes.Promotion.{promotion_pass, stop_state, promotion_pass-stop_state}
use news_pipeline.Examples.Samples.{cents, policy}

abbrev scalp_policy : DayPolicy Fixed
scalp_policy = record {
  exits = policy;
  profile = some 1;
  overnight_hold = some force_flat;
  force_flat_time_et = none;
  guard_exit = false;
  exit_at_open = false;
  atr_method = some other_method;
  initial_stop_k = some (cents 200);
  promoted_ts = none;
  promoted_from = none;
  promotion_decision_id = none;
}

abbrev scalp : DayPosition Fixed
scalp = record {
  position_id = 1;
  is_open = true;
  short_horizon = true;
  from_scanner = true;
  qty_open = 10;
  avg_entry = cents 1000;
  last_price = some (cents 1010);
  r_unit = cents 100;
  side = some Side.long;
  session_age = 0;
  earnings_next = none;
  monitored = true;
  policy = scalp_policy;
}

abbrev swing : DayPosition Fixed
swing = record scalp {
  position_id = 2;
  policy = record scalp_policy { overnight_hold = some eod_rule };
}

abbrev rule : OvernightCfg Fixed
rule = record {
  hold_min_unrealized_r = cents 30;
  young_max_age_sessions = 1;
  young_max_realized_fraction = cents 50;
}

abbrev fills_exit : ℕ → Outcome
fills_exit id = filled

abbrev refuses_exit : ℕ → Outcome
refuses_exit id = reinstated

overnight_pass-may_stay_example :
    all
      (λ r. not (DayPosition.is_open r) || may_stay 955 rule refuses_exit fills_exit r)
      (overnight_pass rule fills_exit (force_flat_pass 955 refuses_exit (scalp ∷ swing ∷ [])).0).0
    ≡ true
overnight_pass-may_stay_example =
    overnight_pass-may_stay 955 rule refuses_exit fills_exit (scalp ∷ swing ∷ [])

abbrev short_term : TargetProfile Fixed
short_term = record {
  overnight_hold = some eod_rule;
  min_progress_r = none;
  keeps_trail = true;
  trail = record { activate_at_r = cents 150; k = cents 250 };
  breakeven_at_r = cents 150;
}

-- The guard has confirmed the first position.
abbrev confirmed : ℕ → Option ℕ
confirmed id = if id == 1 then some 40 else none

promotion_pass-stop_state_example :
    map stop_state (promotion_pass 1 3 short_term 700 confirmed (scalp ∷ swing ∷ []))
    ≡ map stop_state (scalp ∷ swing ∷ [])
promotion_pass-stop_state_example =
    promotion_pass-stop_state 1 3 short_term 700 confirmed (scalp ∷ swing ∷ [])

abbrev profiles : ℕ → Option (LiveProfile Fixed)
profiles name = some record {
  profit_lock = some (record { activate_pct = none; trail_pct = none });
  trail = record { activate_at_r = cents 100; k = cents 150 };
  breakeven_at_r = none;
  initial_stop_k = none;
}

abbrev promoted_early : DayPolicy Fixed
promoted_early = record scalp_policy { atr_method = some daily_atr; promoted_from = some 1 }
