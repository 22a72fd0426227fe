-- ===== src/Watchdog/Alerts.antt =====
-- When a pass of src/c7_watchdog/service.py sends an alert, and what it keeps in `journal.control`. A
-- fingerprint is the sorted list that the source hashes, and the empty text is the empty list; times
-- are whole seconds.
use news_pipeline.Base.{
  ℕ, ◌+◌, ◌*◌, Bool, true, false, ◌&&◌, ◌||◌, ◌==◌, ltb, leb, Option, none, some, List, [], ◌∷◌,
  ◌++◌, any, if◌then◌else◌,
}
use news_pipeline.Watchdog.Types.{
  Severity, critical, warning, Code, heartbeat_stale, last_run_failed, not_enabled,
  orphan_health_row, service_down, timer_down, unit_not_found, Finding, is_critical_finding,
}

-- The order of the codes as texts.
abbrev pub code_rank : Code → ℕ
code_rank heartbeat_stale = 0
code_rank last_run_failed = 1
code_rank not_enabled = 2
code_rank orphan_health_row = 3
code_rank service_down = 4
code_rank timer_down = 5
code_rank unit_not_found = 6

-- `(f["code"], f["unit"])`
pub record FindingKey : Type 0 where
  pub rank : ℕ
  pub unit : ℕ

abbrev pub key_of : Finding → FindingKey
key_of f = record { rank = code_rank f.code; unit = f.unit }

abbrev pub key_le : FindingKey → FindingKey → Bool
key_le a b = ltb a.rank b.rank || (a.rank == b.rank && leb a.unit b.unit)

unfoldable pub insert_key : FindingKey → List FindingKey → List FindingKey
insert_key k [] = k ∷ []
insert_key k (j ∷ js) = if key_le k j then k ∷ j ∷ js else j ∷ insert_key k js

-- `fingerprint`
unfoldable pub fingerprint : List Finding → List FindingKey
unfolding insert_key
fingerprint [] = []
fingerprint (f ∷ fs) = insert_key (key_of f) (fingerprint fs)

unfoldable pub same_print : List FindingKey → List FindingKey → Bool
same_print [] [] = true
same_print [] (k ∷ ks) = false
same_print (j ∷ js) [] = false
same_print (j ∷ js) (k ∷ ks) = (j.rank == k.rank && j.unit == k.unit) && same_print js ks

pub data AlertMode : Type 0 where
  fresh_alert repeat_alert recovered cleared : AlertMode

-- `watchdog_pending_fp` and `watchdog_pending_n`
pub record Pending : Type 0 where
  pub print : List FindingKey
  pub seen : ℕ

abbrev pub no_pending : Pending
no_pending = record { print = []; seen = 0 }

-- What the watchdog keeps between its passes; `last_severity` is `none` where the text is empty.
pub record WatchMemory : Type 0 where
  pub alerted : List FindingKey
  pub last_alert : Option ℕ
  pub pending : Pending
  pub last_severity : Option Severity

pub record AlertCfg : Type 0 where
  pub realert_hours : ℕ
  pub warn_confirm_passes : ℕ

abbrev pub is_due : ℕ → Option ℕ → ℕ → Bool
is_due now none hours = true
is_due now (some last) hours = leb (hours * 3600 + last) now

abbrev pub passes_seen : List FindingKey → Pending → ℕ
passes_seen print pending = if same_print pending.print print then pending.seen + 1 else 1

-- The branch of a set of findings that was not alerted.
abbrev pub new_set : Bool → List FindingKey → ℕ → ℕ → Option AlertMode × Pending
new_set has_critical print confirm seen =
    if has_critical || leb confirm 1
    then (some fresh_alert, no_pending)
    else if leb confirm seen
    then (some fresh_alert, no_pending)
    else (none, record { print = print; seen = seen })

-- The branch without findings.
abbrev pub no_findings : List FindingKey → Option Severity → Option AlertMode × Pending
no_findings [] last_severity = (none, no_pending)
no_findings (k ∷ ks) none = (some cleared, no_pending)
no_findings (k ∷ ks) (some warning) = (some cleared, no_pending)
no_findings (k ∷ ks) (some critical) = (some recovered, no_pending)

-- `should_alert_damped`
unfoldable pub should_alert_damped :
    AlertCfg → List Finding → ℕ → WatchMemory → Option AlertMode × Pending
unfolding fingerprint same_print
should_alert_damped cfg [] now m = no_findings m.alerted m.last_severity
should_alert_damped cfg (f ∷ fs) now m =
    let print = fingerprint (f ∷ fs) in
    if same_print print m.alerted
    then (if is_due now m.last_alert cfg.realert_hours
        then (some repeat_alert, no_pending)
        else (none, no_pending))
    else new_set (any is_critical_finding (f ∷ fs)) print cfg.warn_confirm_passes
        (passes_seen print m.pending)

abbrev pub worst_severity : List Finding → Severity
worst_severity fs = if any is_critical_finding fs then critical else warning

-- The writes of `run_pass` after the decision, and the email that it queues.
unfoldable pub record_alert :
    ℕ → List Finding → Option AlertMode × Pending → WatchMemory → WatchMemory × Option AlertMode
unfolding fingerprint
record_alert now fs (none, p) m = (record m { pending = p }, none)
record_alert now fs (some cleared, p) m =
    (record m { pending = p; alerted = []; last_severity = none }, none)
record_alert now fs (some recovered, p) m = (
  record { alerted = fingerprint fs; last_alert = some now; pending = p; last_severity = none },
  some recovered,
)
record_alert now fs (some mode, p) m = (
  record {
    alerted = fingerprint fs;
    last_alert = some now;
    pending = p;
    last_severity = some (worst_severity fs);
  },
  some mode,
)

-- The end of `run_pass`: the alert of a pass at `now` over its findings.
unfoldable pub alert_pass :
    AlertCfg → WatchMemory → ℕ × List Finding → WatchMemory × Option AlertMode
unfolding should_alert_damped record_alert
alert_pass cfg m (now, fs) = record_alert now fs (should_alert_damped cfg fs now m) m

-- The memory after passes.
unfoldable pub watch_passes : AlertCfg → List (ℕ × List Finding) → WatchMemory → WatchMemory
unfolding alert_pass
watch_passes cfg [] m = m
watch_passes cfg (p ∷ ps) m = watch_passes cfg ps (alert_pass cfg m p).0

-- The emails of passes, in their order.
abbrev pub mode_list : Option AlertMode → List AlertMode
mode_list none = []
mode_list (some mode) = mode ∷ []

unfoldable pub emails : AlertCfg → List (ℕ × List Finding) → WatchMemory → List AlertMode
unfolding alert_pass
emails cfg [] m = []
emails cfg (p ∷ ps) m = let r = alert_pass cfg m p in mode_list r.1 ++ emails cfg ps r.0
