-- ===== src/Gaps.antt =====
-- `GapMonitor` of src/c1_ingestion/heartbeat.py: the silence of one source, and the rows of
-- `news.ingestion_gaps` that it opens and closes. Times are in seconds; the row's number is its id.
pub mod Tracking
use news_pipeline.Base.{
  ℕ, suc, ◌-◌, Bool, true, false, not, ◌&&◌, ◌==◌, ltb, leb, Option, none, some, List, [], ◌∷◌, map,
  if◌then◌else◌, is_none,
}

pub record Gap : Type 0 where
  pub gap_id : ℕ
  pub gap_start : ℕ
  pub gap_end : Option ℕ

pub record GapLimits : Type 0 where
  pub market_threshold : ℕ
  pub offhours_threshold : ℕ

-- The monitor with its rows; `next_gap` is the id of the next row, `degraded` what the last write to
-- `journal.health` said.
pub record GapMonitor : Type 0 where
  pub last_item_ts : ℕ
  pub open_gap_id : Option ℕ
  pub gaps : List Gap
  pub next_gap : ℕ
  pub degraded : Bool

-- An item comes, or the watchdog looks, in market hours or out of them.
pub data GapEvent : Type 0 where
  item_seen : ℕ → GapEvent
  checked : ℕ → Bool → GapEvent

abbrev pub threshold : GapLimits → Bool → ℕ
threshold limits market = if market then limits.market_threshold else limits.offhours_threshold

abbrev pub close_row : ℕ → ℕ → Gap → Gap
close_row id end g = if g.gap_id == id then record g { gap_end = some end } else g

unfoldable pub close_gap : Option ℕ → GapMonitor → GapMonitor
close_gap none s = s
close_gap (some id) s = record s {
  gaps = map (close_row id s.last_item_ts) s.gaps;
  open_gap_id = none;
  degraded = false;
}

abbrev pub open_gap : GapMonitor → GapMonitor
open_gap s = record s {
  gaps = record { gap_id = s.next_gap; gap_start = s.last_item_ts; gap_end = none } ∷ s.gaps;
  open_gap_id = some s.next_gap;
  next_gap = suc s.next_gap;
  degraded = true;
}

-- `check`
unfoldable pub check_gap : GapLimits → ℕ → Bool → GapMonitor → GapMonitor
unfolding close_gap
check_gap limits now market s =
    let silent = now - s.last_item_ts in
    if is_none s.open_gap_id && ltb (threshold limits market) silent
    then open_gap s
    else if not (is_none s.open_gap_id) && leb silent (threshold limits market)
    then close_gap s.open_gap_id s
    else s

unfoldable pub gap_step : GapLimits → GapEvent → GapMonitor → GapMonitor
unfolding check_gap
gap_step limits (item_seen now) s = record s { last_item_ts = now }
gap_step limits (checked now market) s = check_gap limits now market s

unfoldable pub gap_run : GapLimits → List GapEvent → GapMonitor → GapMonitor
unfolding gap_step
gap_run limits [] s = s
gap_run limits (e ∷ es) s = gap_run limits es (gap_step limits e s)
