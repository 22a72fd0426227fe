-- ===== src/Watchdog.antt =====
-- src/c7_watchdog/service.py with src/common/health.py: what a pass of the watchdog finds. Units and
-- components are numbered, in the order of their names; a text that a finding carries is left out.
pub mod Types
pub mod Freshness
pub mod Alerts
pub mod Healthy
pub mod Alerted
pub mod Recovery
use news_pipeline.Base.{
  ℕ, Bool, true, false, not, ◌&&◌, ◌||◌, leb, Option, none, some, List, [], ◌∷◌, ◌++◌, map, any,
  if◌then◌else◌,
}
use news_pipeline.Num.{Num}
use news_pipeline.Watchdog.Types.{
  ActiveState, active, UnitInfo, Names, ServiceOpts, WatchCfg, Severity, critical, warning, Code,
  heartbeat_stale, last_run_failed, not_enabled, orphan_health_row, service_down, timer_down,
  unit_not_found, Finding, is_transient, is_active,
}
use news_pipeline.Watchdog.Alerts.{AlertCfg, WatchMemory, AlertMode, alert_pass}
use news_pipeline.Watchdog.Freshness.{
  pruned, StaleRow, freshness_limits, stale_components, to_warn, sorted_names,
}

-- The findings on a long-running service, from what `systemctl show` says of it; `none` is an empty
-- answer, or none at all.
unfoldable pub service_findings : ℕ → Option UnitInfo → List Finding
service_findings name none =
    (record { severity = warning; code = unit_not_found; unit = name }) ∷ []
service_findings name (some info) =
    if not info.is_loaded
    then (record { severity = warning; code = unit_not_found; unit = name }) ∷ []
    else if is_transient info.active_state
    then []
    else (if is_active info.active_state
        then []
        else (record { severity = critical; code = service_down; unit = name }) ∷ [])
      ++ (if info.is_enabled
          then []
          else (record { severity = warning; code = not_enabled; unit = name }) ∷ [])

-- `sinfo.get("Result") not in ("success", "", None)`
abbrev pub run_findings : ℕ → Option UnitInfo → List Finding
run_findings name none = []
run_findings name (some info) =
    if info.has_failed
    then (record { severity = critical; code = last_run_failed; unit = name }) ∷ []
    else []

-- The findings on a timer and on the last run of its service.
unfoldable pub timer_findings : Names → ℕ → Option UnitInfo → Option UnitInfo → List Finding
timer_findings names name none sinfo =
    (record { severity = warning; code = unit_not_found; unit = names.timer_name name }) ∷ []
timer_findings names name (some tinfo) sinfo =
    let timer = names.timer_name name in
    if not tinfo.is_loaded
    then (record { severity = warning; code = unit_not_found; unit = timer }) ∷ []
    else (if is_transient tinfo.active_state
        then []
        else if not (is_active tinfo.active_state)
        then (record { severity = critical; code = timer_down; unit = timer }) ∷ []
        else if not tinfo.is_enabled
        then (record { severity = warning; code = not_enabled; unit = timer }) ∷ []
        else [])
      ++ run_findings name sinfo

-- What `gather_units` answers.
pub record Probes : Type 0 where
  pub service_info : ℕ → Option UnitInfo
  pub timer_info : ℕ → Option UnitInfo

unfoldable pub all_services : Probes → List ℕ → List Finding
unfolding service_findings
all_services probes [] = []
all_services probes (n ∷ ns) = service_findings n (probes.service_info n) ++ all_services probes ns

unfoldable pub all_timers : Names → Probes → List ℕ → List Finding
unfolding timer_findings
all_timers names probes [] = []
all_timers names probes (n ∷ ns) =
    timer_findings names n (probes.timer_info n) (probes.service_info n)
    ++ all_timers names probes ns

abbrev pub orphan_finding : ℕ → Finding
orphan_finding c = record { severity = warning; code = orphan_health_row; unit = c }

module _ {F : Type 0} ⦃num : Num F⦄ where
  abbrev pub stale_finding : StaleRow F → Finding
  stale_finding row = record { severity = critical; code = heartbeat_stale; unit = row.component }

  abbrev pub service_names : WatchCfg F → List ℕ
  service_names cfg = sorted_names (map (λ s. s.name) cfg.services)

  -- `evaluate`
  unfoldable pub evaluate_units : Names → WatchCfg F → Probes → List (ℕ × F) → Bool → List Finding
  unfolding all_services all_timers
  evaluate_units names cfg probes ages in_session =
      all_services probes (service_names cfg)
      ++ (all_timers names probes (sorted_names cfg.timers)
          ++ (map stale_finding (stale_components (freshness_limits cfg) ages in_session)
              ++ map orphan_finding (to_warn names cfg ages)))

  -- `run_pass`: the rows that are deleted raise no warning.
  unfoldable pub watch_pass :
      Names
      → WatchCfg F
      → AlertCfg
      → Probes
      → List (ℕ × F)
      → Bool
      → ℕ
      → WatchMemory
      → WatchMemory × Option AlertMode
  unfolding evaluate_units alert_pass pruned
  watch_pass names cfg alerts probes ages in_session now m =
      alert_pass alerts m (now, evaluate_units names cfg probes (pruned cfg ages) in_session)
