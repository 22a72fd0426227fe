-- ===== src/Examples/Scans.antt =====
-- The theorems on the scanner, at a scan of two names.
use news_pipeline.Base.{◌+◌, ◌≤◌, ◌≡◌, ◌⊎◌, true, false, none, some, [], ◌∷◌, All, length, arith}
use news_pipeline.Num.Fixed.{Fixed, fixed_num, fx}
use news_pipeline.Base.Int.{negsuc}
use news_pipeline.Scanner.Types.{Metrics, ScanCfg, ScanCandidate, ScanFacts}
use news_pipeline.Scanner.{scan_once, in_early_window}
use news_pipeline.Scanner.Budget.{scan_once-budget}
use news_pipeline.Scanner.Due.{IsDue, scan_once-IsDue}
use news_pipeline.Examples.Samples.{cents}

abbrev metrics : Metrics Fixed
metrics = record {
  ticker = 7;
  price = some (cents 2000);
  adv20_dollars = some (cents 9000);
  move_pct = some (cents 8);
  rel_volume = some (cents 400);
  minutes_since_hod = some 5;
  minutes_since_lod = some 60;
  spread_bps = some (cents 1000);
  luld_headroom_pct = none;
}

abbrev config : ScanCfg Fixed
config = record {
  exclude_etfs = true;
  min_price = cents 500;
  min_adv20_dollars = cents 2500;
  include_losers = true;
  min_move_pct = cents 4;
  min_rel_volume = cents 300;
  large_cap_adv_dollars = cents 200000;
  large_cap_min_rel_volume = some (cents 150);
  max_minutes_since_hod = 20;
  max_spread_bps = cents 4000;
  min_luld_headroom_pct = cents 2;
  earnings_blackout_sessions = 1;
  min_emit_score = cents 55;
  precheck_short_availability = true;
  ssr_trigger_pct = fx (negsuc 999);
  max_per_scan = 2;
  max_per_day = 6;
  max_per_hour = 3;
  max_concurrent_positions = 4;
  observe_after_cap = true;
  breaker_max_losses_per_day = 3;
  session_start_et = 590;
  session_end_et = 915;
  early_enabled = true;
  early_start_et = none;
}

abbrev riser : ScanCandidate Fixed
riser = record {
  passed_over = false;
  metrics = metrics;
  is_etf = false;
  earnings_next_sessions = some 9;
  strong_news = false;
  score = cents 70;
  etb_ok = none;
}

-- A name down eight percent that can be borrowed.
abbrev faller : ScanCandidate Fixed
faller = record riser {
  metrics = record metrics {
    ticker = 8;
    move_pct = some (fx (negsuc 799));
    minutes_since_lod = some 4;
  };
  score = cents 80;
  etb_ok = some true;
}

abbrev day : ScanFacts
day = record {
  scanner_enabled = true;
  kill_switch = false;
  losses_today = 0;
  emitted_today = 5;
  emitted_last_hour = 1;
  open_scanner = 0;
}

scan_once-budget_example :
    let n = length (scan_once 600 config day (riser ∷ faller ∷ [])) in
    (n ≤ 2) × (5 + n ≤ 6) × ((ScanCfg.max_per_hour config ≡ 0) ⊎ (1 + n ≤ 3))
scan_once-budget_example =
    scan_once-budget 600 config day (riser ∷ faller ∷ []) 6 3 (omega arith) (omega arith)
      (omega arith) (omega arith)

scan_once-IsDue_example :
    All (IsDue config (in_early_window 600 config)) (scan_once 600 config day (riser ∷ faller ∷ []))
scan_once-IsDue_example = scan_once-IsDue 600 config day (riser ∷ faller ∷ [])
