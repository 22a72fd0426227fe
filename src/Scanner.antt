-- ===== src/Scanner.antt =====
-- src/c10_scanner/rules.py, and the loop of `scan_once` in src/c10_scanner/service.py that applies it.
pub mod Types
pub mod Filter
pub mod Budget
pub mod Due
use news_pipeline.Base.{
  ℕ, zero, suc, ◌+◌, ◌*◌, ◌/◌, ◌%◌, Bool, true, false, not, ◌&&◌, ◌||◌, ◌==◌, ltb, leb, Option,
  none, some, List, [], ◌∷◌, if◌then◌else◌, default_to, is_none,
}
use news_pipeline.Num.{Num, zero_f, truthy, or_else, max_f, min_f, abs_f}
use news_pipeline.Scanner.Types.{
  Metrics, ScanCfg, Reject, etf_excluded, price_floor, dollar_volume, move_pct_low, no_tape,
  rel_volume_low, move_stale_hod, spread_wide, luld_low, earnings_soon, Disposition, score_floor,
  ssr_restricted, short_unavailable, early_window, per_scan, per_day, per_hour, concurrent,
  ScanMode, emit, observe, idle, ScanCandidate, ScanFacts,
}

abbrev pub is_refused : Option Bool → Bool
is_refused none = false
is_refused (some b) = not b

-- `x is None or x > limit`, and `x is not None and x <= limit`
abbrev pub is_old : Option ℕ → ℕ → Bool
is_old none limit = true
is_old (some x) limit = ltb limit x

abbrev pub is_soon : Option ℕ → ℕ → Bool
is_soon none limit = false
is_soon (some x) limit = leb x limit

abbrev pub is_idle : ScanMode → Bool
is_idle emit = false
is_idle observe = false
is_idle idle = true

module _ {F : Type 0} ⦃num : Num F⦄ where
  open num use {lit, add, sub, mul, div, round, is_lt, is_le}

  -- `is_down`
  unfoldable pub is_down : Metrics F → Bool
  is_down m = is_lt (or_else m.move_pct zero_f) zero_f

  -- `minutes_since_extreme`
  abbrev pub minutes_since_extreme : Metrics F → Option ℕ
  minutes_since_extreme m = if is_down m then m.minutes_since_lod else m.minutes_since_hod

  -- `luld_headroom`; the flag is a direction "down".
  unfoldable pub luld_headroom : F → Option F → Bool → Option F
  luld_headroom last_price none down = none
  luld_headroom last_price (some ref_price) down =
      if not (truthy ref_price) || is_le last_price zero_f
      then none
      else if down
      then some
          (round (div (max_f (sub last_price (mul ref_price (lit 90 2))) zero_f) last_price) 4)
      else some
          (round (div (max_f (sub (mul ref_price (lit 110 2)) last_price) zero_f) last_price) 4)

  -- `x is None or x < limit`, `not x or x < limit`, and `x is None or x > limit`
  abbrev pub is_under : Option F → F → Bool
  is_under none limit = true
  is_under (some x) limit = is_lt x limit

  abbrev pub is_short_of : Option F → F → Bool
  is_short_of none limit = true
  is_short_of (some x) limit = not (truthy x) || is_lt x limit

  abbrev pub is_above : Option F → F → Bool
  is_above none limit = true
  is_above (some x) limit = is_lt limit x

  abbrev pub abs_option : Option F → Option F
  abs_option none = none
  abs_option (some x) = some (abs_f x)

  -- `m.adv20_dollars and m.adv20_dollars >= lc_adv`
  abbrev pub is_large : Option F → F → Bool
  is_large none limit = false
  is_large (some x) limit = truthy x && is_le limit x

  -- `rel_volume_bar`
  unfoldable pub rel_volume_bar : Metrics F → ScanCfg F → F
  rel_volume_bar m cfg =
      if truthy cfg.large_cap_adv_dollars && is_large m.adv20_dollars cfg.large_cap_adv_dollars
      then min_f cfg.min_rel_volume (default_to cfg.min_rel_volume cfg.large_cap_min_rel_volume)
      else cfg.min_rel_volume

  -- `x is not None and x < limit`
  abbrev pub is_known_below : Option F → F → Bool
  is_known_below none limit = false
  is_known_below (some x) limit = is_lt x limit

  -- `filter_candidate`
  unfoldable pub filter_candidate : Metrics F → ScanCfg F → Bool → Option ℕ → Option Reject
  unfolding rel_volume_bar
  filter_candidate m cfg is_etf earnings =
      if cfg.exclude_etfs && is_etf
      then some etf_excluded
      else if is_under m.price cfg.min_price
      then some price_floor
      else if is_short_of m.adv20_dollars cfg.min_adv20_dollars
      then some dollar_volume
      else if is_down m && not cfg.include_losers
      then some move_pct_low
      else if is_under (abs_option m.move_pct) cfg.min_move_pct
      then some move_pct_low
      else if is_none m.rel_volume
      then some no_tape
      else if is_under m.rel_volume (rel_volume_bar m cfg)
      then some rel_volume_low
      else if is_old (minutes_since_extreme m) cfg.max_minutes_since_hod
      then some move_stale_hod
      else if is_above m.spread_bps cfg.max_spread_bps
      then some spread_wide
      else if is_known_below m.luld_headroom_pct cfg.min_luld_headroom_pct
      then some luld_low
      else if is_soon earnings cfg.earnings_blackout_sessions
      then some earnings_soon
      else none

  -- `scan_mode`
  unfoldable pub scan_mode : ℕ → ScanCfg F → ScanMode
  scan_mode emitted_today cfg =
      if leb cfg.max_per_day emitted_today
      then if cfg.observe_after_cap then observe else idle
      else emit

  -- `m.move_pct is not None and m.move_pct <= trigger`
  abbrev pub is_restricted : Option F → F → Bool
  is_restricted none trigger = false
  is_restricted (some x) trigger = is_le x trigger

  -- The caps of `emission_disposition`.
  unfoldable pub capped : ScanCfg F → ℕ → ℕ → ℕ → ℕ → Option Disposition
  capped cfg emitted today last_hour open_scanner =
      if leb cfg.max_per_scan emitted
      then some per_scan
      else if leb cfg.max_per_day today
      then some per_day
      else if not (cfg.max_per_hour == 0) && leb cfg.max_per_hour last_hour
      then some per_hour
      else if leb cfg.max_concurrent_positions open_scanner
      then some concurrent
      else none

  -- `emission_disposition`; `none` is an emission.
  unfoldable pub emission_disposition :
      F → Metrics F → ScanCfg F → ℕ → ℕ → ℕ → ℕ → Option Bool → Bool → Option Disposition
  unfolding capped is_down
  emission_disposition score m cfg emitted today last_hour open_scanner etb_ok early =
      let checks_short = is_down m && cfg.precheck_short_availability in
      if is_lt score cfg.min_emit_score
      then some score_floor
      else if checks_short && is_restricted m.move_pct cfg.ssr_trigger_pct
      then some ssr_restricted
      else if checks_short && is_refused etb_ok
      then some short_unavailable
      else if early
      then some early_window
      else capped cfg emitted today last_hour open_scanner

  -- `in_scan_window` and `in_early_window`
  abbrev pub window_start : ScanCfg F → ℕ
  window_start cfg =
      let start = default_to cfg.session_start_et cfg.early_start_et in
      if cfg.early_enabled && ltb start cfg.session_start_et then start else cfg.session_start_et

  unfoldable pub in_scan_window : ℕ → ScanCfg F → Bool
  in_scan_window now_et cfg = leb (window_start cfg) now_et && ltb now_et cfg.session_end_et

  -- 573 is 09:33.
  unfoldable pub in_early_window : ℕ → ScanCfg F → Bool
  in_early_window now_et cfg =
      cfg.early_enabled
      && leb (default_to 573 cfg.early_start_et) now_et
      && ltb now_et cfg.session_start_et

  -- The decision of the scan on one survivor: a second look with the answer on the loan, for a
  -- candidate that would be emitted and that moves down.
  unfoldable pub decide : ScanCfg F → Bool → ScanFacts → ℕ → ScanCandidate F → Option Disposition
  unfolding emission_disposition
  decide cfg early facts emitted c =
      let look =
        emission_disposition c.score c.metrics cfg emitted (facts.emitted_today + emitted)
          (facts.emitted_last_hour + emitted) facts.open_scanner in
      let first = look none false in
      if is_none first && is_down c.metrics && cfg.precheck_short_availability
      then look c.etb_ok early
      else first

  -- The loop over the ranked survivors: those that are emitted.
  unfoldable pub emit_loop :
      ScanCfg F → Bool → ScanFacts → ℕ → List (ScanCandidate F) → List (ScanCandidate F)
  unfolding decide
  emit_loop cfg early facts emitted [] = []
  emit_loop cfg early facts emitted (c ∷ cs) =
      if is_none (decide cfg early facts emitted c)
      then c ∷ emit_loop cfg early facts (suc emitted) cs
      else emit_loop cfg early facts emitted cs

  -- `survivors.sort(key=score, reverse=True)`, which keeps the order of equal scores.
  unfoldable pub insert_ranked : ScanCandidate F → List (ScanCandidate F) → List (ScanCandidate F)
  insert_ranked c [] = c ∷ []
  insert_ranked c (d ∷ ds) = if is_lt c.score d.score then d ∷ insert_ranked c ds else c ∷ d ∷ ds

  -- A candidate survives that the scan does not pass over, the filters pass and no strong news owns.
  unfoldable pub is_survivor : ScanCfg F → ScanCandidate F → Bool
  unfolding filter_candidate
  is_survivor cfg c =
      not c.passed_over
      && is_none (filter_candidate c.metrics cfg c.is_etf c.earnings_next_sessions)
      && not c.strong_news

  unfoldable pub survivors : ScanCfg F → List (ScanCandidate F) → List (ScanCandidate F)
  unfolding is_survivor insert_ranked
  survivors cfg [] = []
  survivors cfg (c ∷ cs) =
      if is_survivor cfg c then insert_ranked c (survivors cfg cs) else survivors cfg cs

  -- `scan_once`: the candidates that it emits.
  unfoldable pub scan_once :
      ℕ → ScanCfg F → ScanFacts → List (ScanCandidate F) → List (ScanCandidate F)
  unfolding in_scan_window in_early_window scan_mode survivors emit_loop
  scan_once now_et cfg facts universe =
      if not (in_scan_window now_et cfg)
        || not facts.scanner_enabled
        || facts.kill_switch
        || leb cfg.breaker_max_losses_per_day facts.losses_today
        || is_idle (scan_mode facts.emitted_today cfg)
      then []
      else emit_loop cfg (in_early_window now_et cfg) facts 0 (survivors cfg universe)

-- `cooloff_calendar_days`
unfoldable pub cooloff_calendar_days : ℕ → ℕ
cooloff_calendar_days sessions =
    (sessions / 5) * 7 + sessions % 5 + (if sessions % 5 == 0 then 0 else 2)
