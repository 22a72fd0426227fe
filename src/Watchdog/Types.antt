-- ===== src/Watchdog/Types.antt =====
-- The data of src/c7_watchdog/service.py: the configuration, what systemd answers, and the findings.
use news_pipeline.Base.{ℕ, Bool, true, false, Option, List}

-- `ActiveState`: up, a state of `TRANSIENT_STATES`, or any other, a missing one included.
pub data ActiveState : Type 0 where
  active activating deactivating reloading refreshing otherwise : ActiveState

abbrev pub is_transient : ActiveState → Bool
is_transient activating = true
is_transient deactivating = true
is_transient reloading = true
is_transient refreshing = true
is_transient s = false

abbrev pub is_active : ActiveState → Bool
is_active active = true
is_active s = false

-- The properties of `SHOW_PROPS`: whether `LoadState` is other than not-found, whether the unit file is
-- enabled, static or enabled-runtime, and whether `Result` is there and other than success.
pub record UnitInfo : Type 0 where
  pub is_loaded : Bool
  pub active_state : ActiveState
  pub is_enabled : Bool
  pub has_failed : Bool

-- What the spelling of a name says: the name of a timer, and whether a component starts with a prefix
-- of `DYNAMIC_PREFIXES`.
pub record Names : Type 0 where
  pub timer_name : ℕ → ℕ
  pub is_dynamic : ℕ → Bool

-- An entry of `services:`; a missing or empty key is `none`.
pub record ServiceOpts (F : Type 0) : Type 0 where
  pub name : ℕ
  pub health : Option ℕ
  pub max_age_min : Option F
  pub rth_only : Bool

-- An entry of `heartbeats:`
pub record HeartbeatOpts (F : Type 0) : Type 0 where
  pub name : ℕ
  pub max_age_min : F
  pub rth_only : Bool

-- config/watchdog.yaml; the limits of `orphans:` are in days.
pub record WatchCfg (F : Type 0) : Type 0 where
  pub services : List (ServiceOpts F)
  pub timers : List ℕ
  pub heartbeats : List (HeartbeatOpts F)
  pub never_orphan : List ℕ
  pub warn_after_days : F
  pub delete_after_days : F

pub data Severity : Type 0 where
  critical warning : Severity

pub data Code : Type 0 where
  heartbeat_stale last_run_failed not_enabled orphan_health_row : Code
  service_down timer_down unit_not_found : Code

pub record Finding : Type 0 where
  pub severity : Severity
  pub code : Code
  pub unit : ℕ

abbrev pub is_critical_finding : Finding → Bool
is_critical_finding f = elim f.severity [ critical ↦ true | warning ↦ false ]
