-- ===== src/Gate/Types.antt =====
-- The data of src/c3_gate/rules.py: the verdicts, and the records that the rules read.
use news_pipeline.Base.{ℕ, Bool, Option, none, some}
use news_pipeline.Base.Int.{ℤ}
use news_pipeline.Direction.{Thesis}

pub data Verdict : Type 0 where
  pass veto would_trade : Verdict

pub data Rule : Type 0 where
  intraday open_handoff eh_shadow scanner : Rule

pub data Reason : Type 0 where
  long_only short_unavailable ssr_restricted : Reason
  credibility gate_window gate_extended marketdata_missing gate_no_confirm stale_marketdata : Reason
  gate_open_window priced_in handoff_unmoved lane_source : Reason
  eh_liquidity : Reason
  scanner_stale scanner_structure scanner_parabolic scanner_liquidity : Reason

pub record GateVerdict : Type 0 where
  pub verdict : Verdict
  pub rule : Rule
  pub veto_reason : Option Reason

abbrev pub veto_for : Rule → Reason → GateVerdict
veto_for rule reason = record { verdict = veto; rule = rule; veto_reason = some reason }

abbrev pub pass_for : Rule → GateVerdict
pass_for rule = record { verdict = pass; rule = rule; veto_reason = none }

-- The impact bucket of a thesis, and its source risk.
pub data Level : Type 0 where
  low medium high : Level

-- The headline classes that `catalyst_class` recognises.
pub data CatalystClass : Type 0 where
  offering : CatalystClass

pub data Lane : Type 0 where
  scanner_lane news_long news_short_dilution news_short : Lane

pub record ThesisFacts (F : Type 0) : Type 0 where
  pub direction : Thesis
  pub magnitude_est : F
  pub source_risk : Level

pub record MarketState (F : Type 0) : Type 0 where
  pub prenews_price : F
  pub last_price : F
  pub vol_mult : Option F
  pub minutes_since_publish : ℤ
  pub news_in_session : Bool
  pub minutes_since_open : Option ℤ
  pub gap_pct : Option F
  pub corroboration_outlets : ℕ
  pub tier_min : ℕ
  pub cluster_items : ℕ
  pub bar_age_secs : Option F

pub record ShortContext (F : Type 0) : Type 0 where
  pub enabled : Bool
  pub etb_ok : Bool
  pub ssr_veto : Bool
  pub pct_from_prior_close : Option F
  pub ssr_trigger_pct : F

-- `cluster_growth`
pub record GrowthCfg : Type 0 where
  pub enabled : Bool
  pub items_per_credit : ℕ
  pub max_credit : ℕ

pub record GateCfg (F : Type 0) : Type 0 where
  pub max_bar_age_secs : Option F
  pub impact_high_min : F
  pub impact_medium_min : F
  pub required_outlets : Level → ℕ → ℕ
  pub growth : Option GrowthCfg
  pub exempt_class : CatalystClass → Bool
  pub intraday_window_min : ℤ
  pub extended_pct : F
  pub intraday_move_pct : F
  pub intraday_vol_mult : F
  pub open_blackout_min : ℤ
  pub handoff_gap_ratio : F
  pub handoff_min_move_pct_long : Option F
