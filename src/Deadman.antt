-- ===== src/Deadman.antt =====
-- src/c4_exec/deadman.py: one pass of the dead-man monitor over the heartbeat ages, and the flags of
-- `journal.control` that it shares with the operator. Components are numbered; a flag is its '1'.
pub mod Ownership
pub mod Report
use news_pipeline.Base.{
  ℕ, Bool, true, false, not, ◌&&◌, ◌||◌, Option, none, some, List, [], ◌∷◌, ◌++◌, any, is_empty,
  if◌then◌else◌,
}
use news_pipeline.Num.{Num}

-- The keys of a component in deadman.yaml.
pub record Thresholds (F : Type 0) : Type 0 where
  pub alert_min : F
  pub critical_min : Option F
  pub block_entries_min : Option F
  pub exit_engine_suspend_min : Option F

-- A component by its `journal.health` name, which `COMPONENT_MAP` gives.
pub record Watched (F : Type 0) : Type 0 where
  pub component : ℕ
  pub is_marketdata : Bool
  pub thresholds : Thresholds F

pub record ControlFlags : Type 0 where
  pub block_entries : Bool
  pub deadman_block : Bool
  pub exit_engine_suspended : Bool

-- An entry of `stale`.
pub record StaleEntry (F : Type 0) : Type 0 where
  pub component : ℕ
  pub age : F
  pub critical : Bool

pub data HealthStatus : Type 0 where
  healthy degraded down : HealthStatus

-- `actions` without its alerts, which are the stale entries in the order of the configuration.
pub record DeadmanActions : Type 0 where
  pub block : Bool
  pub unblock : Bool
  pub exit_suspend : Bool
  pub exit_resume : Bool

-- What a pass finds: the two wishes, and the stale components.
pub record Findings (F : Type 0) : Type 0 where
  pub want_block : Bool
  pub want_exit_suspend : Bool
  pub stale : List (StaleEntry F)

pub record PassResult (F : Type 0) : Type 0 where
  pub flags : ControlFlags
  pub actions : DeadmanActions
  pub status : HealthStatus
  pub listed : List (StaleEntry F)

module _ {F : Type 0} ⦃num : Num F⦄ where
  open num use {is_lt}

  -- `threshold is not None and age > threshold`
  abbrev pub is_over : F → Option F → Bool
  is_over age none = false
  is_over age (some limit) = is_lt limit age

  abbrev pub stale_entry : Watched F → F → List (StaleEntry F)
  stale_entry w age =
      if is_lt w.thresholds.alert_min age
      then record {
        component = w.component;
        age = age;
        critical = is_over age w.thresholds.critical_min;
      }
        ∷ []
      else []

  -- The body of the loop over the components, for one that has an age.
  unfoldable pub observe : Bool → Watched F → Option F → Findings F → Findings F
  observe in_session w none rest = rest
  observe in_session w (some age) rest =
      if w.is_marketdata && not in_session then rest else record {
        want_block = (in_session && is_over age w.thresholds.block_entries_min) || rest.want_block;
        want_exit_suspend =
            (in_session && is_over age w.thresholds.exit_engine_suspend_min)
            || rest.want_exit_suspend;
        stale = stale_entry w age ++ rest.stale;
      }

  unfoldable pub survey : Bool → (ℕ → Option F) → List (Watched F) → Findings F
  unfolding observe
  survey in_session ages [] = record { want_block = false; want_exit_suspend = false; stale = [] }
  survey in_session ages (w ∷ ws) =
      observe in_session w (ages w.component) (survey in_session ages ws)

  -- `stale.sort(key=age, reverse=True)`, which keeps the order of equal ages.
  unfoldable pub insert_stale : StaleEntry F → List (StaleEntry F) → List (StaleEntry F)
  insert_stale s [] = s ∷ []
  insert_stale s (t ∷ ts) = if is_lt s.age t.age then t ∷ insert_stale s ts else s ∷ t ∷ ts

  unfoldable pub worst_first : List (StaleEntry F) → List (StaleEntry F)
  unfolding insert_stale
  worst_first [] = []
  worst_first (s ∷ ss) = insert_stale s (worst_first ss)

  abbrev pub is_critical : StaleEntry F → Bool
  is_critical s = s.critical

  unfoldable pub status_of : List (StaleEntry F) → HealthStatus
  status_of ss = if is_empty ss then healthy else if any is_critical ss then down else degraded

-- The ladder of `block_entries`: block, or lift a block that the monitor owns.
unfoldable pub block_ladder : Bool → ControlFlags → ControlFlags
block_ladder want_block f =
    if want_block && not f.block_entries
    then record f { block_entries = true; deadman_block = true }
    else if not want_block && (f.block_entries && f.deadman_block)
    then record f { block_entries = false; deadman_block = false }
    else f

-- The ladder of `exit_engine_suspended`.
abbrev pub suspend_ladder : Bool → ControlFlags → ControlFlags
suspend_ladder want_suspend f =
    if want_suspend && not f.exit_engine_suspended
    then record f { exit_engine_suspended = true }
    else if not want_suspend && f.exit_engine_suspended
    then record f { exit_engine_suspended = false }
    else f

module _ {F : Type 0} ⦃num : Num F⦄ where
  -- `check`
  unfoldable pub check_heartbeats :
      List (Watched F) → (ℕ → Option F) → Bool → ControlFlags → PassResult F
  unfolding block_ladder survey
  check_heartbeats components ages in_session f =
      let found = survey in_session ages components in
      record {
        flags = suspend_ladder found.want_exit_suspend (block_ladder found.want_block f);
        actions = record {
          block = found.want_block && not f.block_entries;
          unblock = not found.want_block && (f.block_entries && f.deadman_block);
          exit_suspend = found.want_exit_suspend && not f.exit_engine_suspended;
          exit_resume = not found.want_exit_suspend && f.exit_engine_suspended;
        };
        status = status_of found.stale;
        listed = worst_first found.stale;
      }
