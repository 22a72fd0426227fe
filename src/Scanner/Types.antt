-- ===== src/Scanner/Types.antt =====
-- The data of src/c10_scanner/rules.py: a candidate's metrics, the scanner's configuration, the reject
-- codes, and what a scan knows of the day. Tickers are numbers; a time of the day is in minutes, which
-- order as the texts `HH:MM` do.
use news_pipeline.Base.{ℕ, Bool, Option}

-- `CandidateMetrics`; a metric that could not be computed is `none`.
pub record Metrics (F : Type 0) : Type 0 where
  pub ticker : ℕ
  pub price : Option F
  pub adv20_dollars : Option F
  pub move_pct : Option F
  pub rel_volume : Option F
  pub minutes_since_hod : Option ℕ
  pub minutes_since_lod : Option ℕ
  pub spread_bps : Option F
  pub luld_headroom_pct : Option F

-- The `scanner` section of the configuration.
pub record ScanCfg (F : Type 0) : Type 0 where
  pub exclude_etfs : Bool
  pub min_price : F
  pub min_adv20_dollars : F
  pub include_losers : Bool
  pub min_move_pct : F
  pub min_rel_volume : F
  pub large_cap_adv_dollars : F
  pub large_cap_min_rel_volume : Option F
  pub max_minutes_since_hod : ℕ
  pub max_spread_bps : F
  pub min_luld_headroom_pct : F
  pub earnings_blackout_sessions : ℕ
  pub min_emit_score : F
  pub precheck_short_availability : Bool
  pub ssr_trigger_pct : F
  pub max_per_scan : ℕ
  pub max_per_day : ℕ
  pub max_per_hour : ℕ
  pub max_concurrent_positions : ℕ
  pub observe_after_cap : Bool
  pub breaker_max_losses_per_day : ℕ
  pub session_start_et : ℕ
  pub session_end_et : ℕ
  pub early_enabled : Bool
  pub early_start_et : Option ℕ

-- The reject codes of `filter_candidate`.
pub data Reject : Type 0 where
  etf_excluded price_floor dollar_volume move_pct_low no_tape : Reject
  rel_volume_low move_stale_hod spread_wide luld_low earnings_soon : Reject

-- The reasons of `emission_disposition`; the first three are FILTERED, the others CAPPED.
pub data Disposition : Type 0 where
  score_floor ssr_restricted short_unavailable : Disposition
  early_window per_scan per_day per_hour concurrent : Disposition

pub data ScanMode : Type 0 where
  emit observe idle : ScanMode

-- A name of the universe, as the scan learns of it: whether the scan passes it over (emitted today,
-- rejected for the day, held, cooling off, or stopped by the cheap checks), its metrics, whether a list
-- or its name says that it is a fund, its earnings, whether strong news owns it, its score, and what
-- the broker says of a loan of its shares.
pub record ScanCandidate (F : Type 0) : Type 0 where
  pub passed_over : Bool
  pub metrics : Metrics F
  pub is_etf : Bool
  pub earnings_next_sessions : Option ℕ
  pub strong_news : Bool
  pub score : F
  pub etb_ok : Option Bool

-- What the queries of a scan answer.
pub record ScanFacts : Type 0 where
  pub scanner_enabled : Bool
  pub kill_switch : Bool
  pub losses_today : ℕ
  pub emitted_today : ℕ
  pub emitted_last_hour : ℕ
  pub open_scanner : ℕ
