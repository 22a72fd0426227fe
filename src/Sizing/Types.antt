-- ===== src/Sizing/Types.antt =====
-- The data of src/a3_risk/sizing.py.
use news_pipeline.Base.{ℕ, Bool, Option, List}
use news_pipeline.Base.Int.{ℤ}
use news_pipeline.Direction.{Side}

-- The keys of `heat_split` and of `open_heat`.
pub data Horizon : Type 0 where
  short_horizon long_horizon : Horizon

pub data VetoReason : Type 0 where
  kill_switch breaker block_entries halted max_trades entry_blackout wide_spread : VetoReason
  earnings_blackout ex_dividend no_atr size_clipped : VetoReason

pub data Flag : Type 0 where
  earnings_unknown dividend_unknown sector_unknown : Flag

pub data SizeVerdict : Type 0 where
  size veto : SizeVerdict

pub data Clip : Type 0 where
  notional adv settled_cash buying_power short_heat gross_short capital_headroom : Clip
  lane_heat total_heat sector_heat : Clip

-- `SizingInputs`
pub record SizingInputs (F : Type 0) : Type 0 where
  pub effective_capital : F
  pub settled_cash : F
  pub bid : F
  pub ask : F
  pub spread_bps : F
  pub atr_14 : Option F
  pub adv_20d : Option F
  pub open_heat : List (Horizon × F)
  pub deployed_notional : F
  pub trades_today : ℕ
  pub ticker_halted : Bool
  pub kill_switch : Bool
  pub breaker : Bool
  pub block_entries : Bool
  pub max_trades_per_day : ℕ
  pub minutes_to_close : Option ℤ
  pub earnings_next_sessions : Option ℤ
  pub sector : Option ℕ
  pub sector_heat : Option F
  pub side : Side
  pub regt_buying_power : F
  pub open_short_heat : F
  pub gross_short_notional : F
  pub ex_dividend_next_sessions : Option ℤ

-- The keys of `limits_cfg`, of the profile and of `shorting_cfg` that are read.
pub record LimitsCfg (F : Type 0) : Type 0 where
  pub entry_blackout_final_min : ℤ
  pub spread_max_bps : F
  pub adv_participation_max : F

pub record Profile (F : Type 0) : Type 0 where
  pub earnings_blackout_exit : Bool
  pub catastrophe_k : F

pub record ShortingCfg (F : Type 0) : Type 0 where
  pub dividend_blackout_sessions : Option ℤ
  pub max_short_heat_pct : Option F
  pub max_gross_short_notional_pct : Option F

pub record CapitalCfg (F : Type 0) : Type 0 where
  pub risk_per_trade_pct : F
  pub max_position_notional_pct : F
  pub heat_split : Horizon → F
  pub max_portfolio_heat_pct : F
  pub max_sector_heat_pct : Option F
  pub min_viable_risk_fraction : F

-- `scanner:` and `news:` of the lane configuration.
pub record ScannerLaneCfg (F : Type 0) : Type 0 where
  pub risk_multiplier : Option F
  pub max_position_notional_pct : Option F
  pub sector_clip : Option Bool

pub record NewsLaneCfg (F : Type 0) : Type 0 where
  pub long_risk_multiplier : Option F
  pub short_dilution_risk_multiplier : Option F

pub data ClusterMode : Type 0 where
  off shadow veto_mode : ClusterMode

-- `SizingResult`, without its `numbers`.
pub record SizingResult (F : Type 0) : Type 0 where
  pub verdict : SizeVerdict
  pub veto_reason : Option VetoReason
  pub qty : ℤ
  pub limit_price : F
  pub stop_distance : F
  pub initial_stop : F
  pub catastrophe_stop : F
  pub risk_budget : F
  pub actual_risk : F
  pub flags : List Flag
