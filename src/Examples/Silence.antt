-- ===== src/Examples/Silence.antt =====
-- The theorems on the gap monitor, at a source that falls silent before the close.
use news_pipeline.Base.{true, false, none, List, [], ◌∷◌}
use news_pipeline.Gaps.{GapLimits, GapMonitor, GapEvent, item_seen, checked, gap_run}
use news_pipeline.Gaps.Tracking.{IsTracked, gap_run-IsTracked}

abbrev limits : GapLimits
limits = record { market_threshold = 300; offhours_threshold = 3600 }

abbrev listening : GapMonitor
listening = record {
  last_item_ts = 1000;
  open_gap_id = none;
  gaps = [];
  next_gap = 1;
  degraded = false;
}

abbrev afternoon : List GapEvent
afternoon =
    item_seen 1100 ∷ checked 1200 true ∷ checked 1500 true ∷ item_seen 1600 ∷ checked 1700 true ∷ []

gap_run-IsTracked_example : IsTracked (gap_run limits afternoon listening)
gap_run-IsTracked_example = gap_run-IsTracked limits afternoon listening tt
