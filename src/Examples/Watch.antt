-- ===== src/Examples/Watch.antt =====
-- The theorems on the watchdog, at a service that is down and a timer that is not enabled.
use news_pipeline.Base.{◌≡◌, refl, true, false, none, some, [], ◌∷◌, any, is_empty, inr, arith}
use news_pipeline.Base.Int.{pos}
use news_pipeline.Num.Fixed.{Fixed, fx, fixed_num}
use news_pipeline.Watchdog.Types.{
  active, Names, WatchCfg, critical, warning, service_down, not_enabled, Finding,
}
use news_pipeline.Watchdog.Alerts.{
  FindingKey, WatchMemory, AlertCfg, no_pending, fingerprint, same_print, alert_pass, watch_passes,
  emails, recovered,
}
use news_pipeline.Watchdog.{Probes, evaluate_units}
use news_pipeline.Watchdog.Alerted.{watch_passes-alerted}
use news_pipeline.Watchdog.Recovery.{is_recovered, watch_passes-recovery_silent}
use news_pipeline.Watchdog.Healthy.{evaluate_units-silent}

abbrev two_passes : AlertCfg
two_passes = record { realert_hours = 6; warn_confirm_passes = 2 }

abbrev timer_off : Finding
timer_off = record { severity = warning; code = not_enabled; unit = 12 }

abbrev timer_key : FindingKey
timer_key = record { rank = 2; unit = 12 }

abbrev exec_down : Finding
exec_down = record { severity = critical; code = service_down; unit = 4 }

-- The outage was alerted, and the service is up again.
abbrev after_outage : WatchMemory
after_outage = record {
  alerted = record { rank = 4; unit = 4 } ∷ [];
  last_alert = some 1000;
  pending = no_pending;
  last_severity = some critical;
}

outage_recovered : (alert_pass two_passes after_outage (1300, [])).1 ≡ some recovered
unfolding alert_pass
outage_recovered = refl

watch_passes-alerted_example :
    ((watch_passes two_passes
        ((1300, timer_off ∷ []) ∷ (1600, timer_off ∷ []) ∷ [])
        after_outage).alerted
      ≡ timer_key ∷ [])
    × (is_empty
          (emails two_passes ((1300, timer_off ∷ []) ∷ (1600, timer_off ∷ []) ∷ []) after_outage)
        ≡ false)
unfolding fingerprint same_print
watch_passes-alerted_example =
    watch_passes-alerted two_passes timer_key [] (1300, timer_off ∷ [])
      ((1600, timer_off ∷ []) ∷ []) after_outage (refl, (refl, tt)) refl (inr (omega arith))

watch_passes-recovery_silent_example :
    any is_recovered (
      emails two_passes
        ((1300, timer_off ∷ []) ∷ (1600, timer_off ∷ []) ∷ (1900, []) ∷ [])
        after_outage)
    ≡ false
unfolding fingerprint same_print
watch_passes-recovery_silent_example =
    watch_passes-recovery_silent two_passes timer_key []
      ((1300, timer_off ∷ []) ∷ (1600, timer_off ∷ []) ∷ []) after_outage 1900
      ((refl, refl), ((refl, refl), tt)) refl (omega arith) (omega arith)

abbrev units_up : Probes
units_up = record {
  service_info = λ n.
      some
        (record { is_loaded = true; active_state = active; is_enabled = true; has_failed = false });
  timer_info = λ n. none;
}

abbrev units_named : Names
units_named = record { timer_name = λ n. 100; is_dynamic = λ n. false }

abbrev one_service : WatchCfg Fixed
one_service = record {
  services =
      record { name = 4; health = some 7; max_age_min = some (fx (pos 100000)); rth_only = false }
      ∷ [];
  timers = 9 ∷ [];
  heartbeats = [];
  never_orphan = [];
  warn_after_days = fx (pos 70000);
  delete_after_days = fx (pos 300000);
}

-- The timer is not there.
evaluate_units-silent_example :
    is_empty (evaluate_units units_named one_service units_up ((7, fx (pos 50000)) ∷ []) true)
    ≡ false
evaluate_units-silent_example =
    evaluate_units-silent units_named one_service units_up ((7, fx (pos 50000)) ∷ []) true
