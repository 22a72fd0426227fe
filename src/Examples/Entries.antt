-- ===== src/Examples/Entries.antt =====
-- The theorems on sizing, the gate and the router, at one entry on decimal fixed point.
use news_pipeline.Base.{ℕ, ◌≡◌, refl, true, false, ◌&&◌, Option, none, some, [], ◌∷◌, is_none, All}
use news_pipeline.Base.Int.{pos, ltb_ℤ}
use news_pipeline.Num.{◌≤f◌}
use news_pipeline.Num.Fixed.{Fixed, fx, fixed_num}
use news_pipeline.Num.Fixed.Laws.{Fixed-IsFloat}
use news_pipeline.Direction.{entry_stop, long, up, down}
use news_pipeline.Sizing.{
  earnings_unknown, sector_unknown, short_horizon, size, SizingInputs, LimitsCfg, Profile,
  ShortingCfg, CapitalCfg, SizingResult, limit_price_from_snapshot, context_gates, hard_gates,
  heat_of, sum_heat, side_clips, clips, min_clips, finish, chain, size_entry,
}
use news_pipeline.Sizing.Vetoes.{context_ok, operations_ok, hard_gates-silent}
use news_pipeline.Sizing.Clips.{entry_clips, raw_qty, IsViable, size_entry-IsWithin}
use news_pipeline.Gate.{
  open_handoff, priced_in, Level, low, medium, high, ThesisFacts, MarketState, ShortContext,
  GrowthCfg, GateCfg, GateVerdict, veto_for, evaluate, signed_move, is_credible,
}
use news_pipeline.Gate.Verdicts.{is_pass, may_trade, handoff_ok, evaluate-pass}
use news_pipeline.Gate.Quote.{EhState, EhCfg, ScannerState, ScannerCfg}
use news_pipeline.Gate.Shadow.{ShadowCfg, Candidate}
use news_pipeline.Router.{Triage, Facts, Levers}
use news_pipeline.Examples.Samples.{cents}

-- 100,000 dollars of capital and a ten-dollar stock that moves fifty cents a day.
abbrev entry : SizingInputs Fixed
entry = record {
  effective_capital = cents 10000000;
  settled_cash = cents 10000000;
  bid = cents 999;
  ask = cents 1000;
  spread_bps = cents 1000;
  atr_14 = some (cents 50);
  adv_20d = none;
  open_heat = [];
  deployed_notional = cents 0;
  trades_today = 0;
  ticker_halted = false;
  kill_switch = false;
  breaker = false;
  block_entries = false;
  max_trades_per_day = 10;
  minutes_to_close = some (pos 120);
  earnings_next_sessions = none;
  sector = none;
  sector_heat = none;
  side = long;
  regt_buying_power = cents 0;
  open_short_heat = cents 0;
  gross_short_notional = cents 0;
  ex_dividend_next_sessions = none;
}

abbrev limits : LimitsCfg Fixed
limits = record {
  entry_blackout_final_min = pos 15;
  spread_max_bps = cents 5000;
  adv_participation_max = cents 1;
}

abbrev profile : Profile Fixed
profile = record { earnings_blackout_exit = true; catastrophe_k = cents 300 }

abbrev capital : CapitalCfg Fixed
capital = record {
  risk_per_trade_pct = cents 1;
  max_position_notional_pct = cents 10;
  heat_split = λ h. cents 3;
  max_portfolio_heat_pct = cents 6;
  max_sector_heat_pct = none;
  min_viable_risk_fraction = cents 25;
}

abbrev shorting : ShortingCfg Fixed
shorting = record {
  dividend_blackout_sessions = none;
  max_short_heat_pct = none;
  max_gross_short_notional_pct = none;
}

-- 1,000 shares at 10.00, the notional clip of a tenth of the capital.
abbrev sized : SizingResult Fixed
sized = record {
  verdict = size;
  veto_reason = none;
  qty = pos 1000;
  limit_price = fx (pos 100000);
  stop_distance = cents 100;
  initial_stop = cents 900;
  catastrophe_stop = cents 850;
  risk_budget = cents 100000;
  actual_risk = cents 100000;
  flags = earnings_unknown ∷ sector_unknown ∷ [];
}

-- A rise of five per cent on news of the night, twenty minutes into the session.
abbrev thesis : ThesisFacts Fixed
thesis = record { direction = up; magnitude_est = cents 10; source_risk = low }

abbrev down_thesis : ThesisFacts Fixed
down_thesis = record { direction = down; magnitude_est = cents 10; source_risk = low }

abbrev no_short : Option (ShortContext Fixed)
no_short = none

abbrev growth : GrowthCfg
growth = record { enabled = true; items_per_credit = 3; max_credit = 2 }

-- One outlet for a low impact, two for a medium one and three for a high one.
abbrev outlets_for : Level → ℕ → ℕ
outlets_for low tier = 1
outlets_for medium tier = 2
outlets_for high tier = 3

abbrev gate_cfg : GateCfg Fixed
gate_cfg = record {
  max_bar_age_secs = none;
  impact_high_min = cents 15;
  impact_medium_min = cents 5;
  required_outlets = outlets_for;
  growth = some growth;
  exempt_class = λ c. true;
  intraday_window_min = pos 30;
  extended_pct = cents 8;
  intraday_move_pct = cents 1;
  intraday_vol_mult = cents 150;
  open_blackout_min = pos 15;
  handoff_gap_ratio = cents 60;
  handoff_min_move_pct_long = none;
}

abbrev market : MarketState Fixed
market = record {
  prenews_price = cents 1000;
  last_price = cents 1050;
  vol_mult = none;
  minutes_since_publish = pos 600;
  news_in_session = false;
  minutes_since_open = some (pos 20);
  gap_pct = some (cents 7);
  corroboration_outlets = 2;
  tier_min = 2;
  cluster_items = 4;
  bar_age_secs = none;
}

-- The same after a fall of five per cent.
abbrev fallen : MarketState Fixed
fallen = record market { last_price = cents 950 }

abbrev shadow_cfg : ShadowCfg Fixed
shadow_cfg = record {
  enabled = true;
  source_vetoes = [];
  window_max_min_after_open = none;
  min_pct = none;
  max_pct = none;
}

abbrev priced : GateVerdict
priced = veto_for open_handoff priced_in

abbrev candidate : Candidate Fixed
candidate = record {
  source_veto = priced_in;
  source_rule = open_handoff;
  move = cents 5;
  minutes_since_open = pos 20;
}

abbrev eh_state : EhState Fixed
eh_state = record {
  prenews_price = cents 1000;
  last_price = cents 1050;
  bid = some (cents 1049);
  ask = some (cents 1051);
  spread_bps = some (cents 1900);
  minutes_since_publish = pos 10;
  corroboration_outlets = 2;
  tier_min = 2;
  cluster_items = 4;
}

abbrev eh_cfg : EhCfg Fixed
eh_cfg = record { window_min = none; max_spread_bps = none }

abbrev tape : ScannerState Fixed
tape = record {
  last_price = cents 1050;
  detect_price = cents 1040;
  minutes_since_detect = cents 200;
  vwap = some (cents 1030);
  range30_pos = some (cents 80);
  bar5_range_ratio = some (cents 150);
  spread_bps = some (cents 1900);
  halted = false;
}

abbrev scanner_cfg : ScannerCfg Fixed
scanner_cfg = record {
  stale_max_min = cents 500;
  stale_run_pct = cents 2;
  require_above_vwap = true;
  range30_min_pos = cents 60;
  parabolic_bar_ratio = cents 300;
  max_spread_bps = cents 5000;
}

abbrev triage : Triage Fixed
triage = record { material = true; confidence = cents 80; tickers = 7 ∷ [] }

abbrev facts : Facts
facts = record {
  market_open = true;
  position_ids = 1 ∷ [];
  priority_score = pos 60;
  eh_session = false;
}

abbrev levers : Levers Fixed
levers = record {
  overnight_base = pos 100;
  min_confidence = cents 50;
  eh_shadow_on = true;
  thesis_copy_min_score = some (pos 50);
}

hard_gates-silent_example :
    is_none (hard_gates entry limits profile (pos 2) (pos 2)).0
    ≡ (operations_ok entry limits && context_ok entry profile (pos 2) (pos 2))
hard_gates-silent_example = hard_gates-silent entry limits profile (pos 2) (pos 2)

size_entry-IsWithin_example :
    ((hard_gates entry limits profile (pos 2) (pos 2)).0 ≡ none)
    × (ltb_ℤ (pos 0) sized.qty ≡ true)
    × IsViable entry capital (cents 100) sized.qty
    × (fixed_num.of_ℤ sized.qty ≤f raw_qty entry capital (cents 100))
    × All
        (λ c. fixed_num.of_ℤ sized.qty ≤f c.1)
        (entry_clips entry capital limits shorting short_horizon (cents 100))
unfolding size_entry hard_gates context_gates chain limit_price_from_snapshot clips side_clips
    heat_of sum_heat min_clips finish entry_stop
size_entry-IsWithin_example =
    size_entry-IsWithin Fixed-IsFloat entry capital limits profile short_horizon (cents 200) (pos 2)
      shorting (cents 50) sized refl refl refl

evaluate-pass_example : is_pass (evaluate thesis market gate_cfg none none).verdict ≡ (
    may_trade up no_short
    && (is_credible thesis 2 4 2 none gate_cfg
        && handoff_ok thesis (signed_move thesis market) market gate_cfg))
evaluate-pass_example = evaluate-pass thesis market gate_cfg none none
