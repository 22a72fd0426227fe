-- ===== src/Gaps/Tracking.antt =====
-- The monitor's state and its rows, in src/c1_ingestion/heartbeat.py.
use news_pipeline.Base.{
  ℕ, suc, ◌-◌, ◌<◌, ◌≤◌, Bool, true, false, ◌==◌, ltb, leb, ◌≡◌, refl, Option, none, some, List, [],
  ◌∷◌, map, All, arith, is_none, Bool-cases, inl, inr,
}
use news_pipeline.Gaps.{
  Gap, GapLimits, GapMonitor, GapEvent, item_seen, checked, threshold, close_row, close_gap,
  check_gap, gap_step, gap_run,
}

abbrev pub is_current : Option ℕ → Gap → Bool
is_current none g = false
is_current (some id) g = g.gap_id == id

-- A row without an end is the one that the monitor has open, and the ids so far are below the next.
abbrev pub IsTrackedRow : Option ℕ → ℕ → Gap → Type 0
IsTrackedRow current next g = (is_none g.gap_end ≡ is_current current g) × (g.gap_id < next)

abbrev pub IsTracked : GapMonitor → Type 0
IsTracked s = All (IsTrackedRow s.open_gap_id s.next_gap) s.gaps

close_rows-tracked :
    (id end next : ℕ) (gs : List Gap)
    → All (IsTrackedRow (some id) next) gs
    → All (IsTrackedRow none next) (map (close_row id end) gs)
close_rows-tracked id end next [] h = tt
close_rows-tracked id end next (g ∷ gs) h =
    (ground (arith, h.0), close_rows-tracked id end next gs h.1)

open_rows-tracked :
    (next : ℕ) (gs : List Gap)
    → All (IsTrackedRow none next) gs
    → All (IsTrackedRow (some next) (suc next)) gs
open_rows-tracked next [] h = tt
open_rows-tracked next (g ∷ gs) h = (ground (arith, h.0), open_rows-tracked next gs h.1)

check_gap-IsTracked :
    (limits : GapLimits) (now : ℕ) (market : Bool) (last_item : ℕ) (current : Option ℕ)
    (gs : List Gap) (next : ℕ) (degraded : Bool)
    → All (IsTrackedRow current next) gs
    → IsTracked (
        check_gap limits now market record {
          last_item_ts = last_item;
          open_gap_id = current;
          gaps = gs;
          next_gap = next;
          degraded = degraded;
        })
unfolding check_gap close_gap
check_gap-IsTracked limits now market last_item none gs next degraded h =
    elim (Bool-cases (ltb (threshold limits market) (now - last_item))) [
      | inl silent ↦ rw silent ((ground arith, omega arith), open_rows-tracked next gs h)
      | inr heard ↦ rw heard h
    ]
check_gap-IsTracked limits now market last_item (some id) gs next degraded h =
    elim (Bool-cases (leb (now - last_item) (threshold limits market))) [
      | inl heard ↦ rw heard (close_rows-tracked id last_item next gs h)
      | inr silent ↦ rw silent h
    ]

-- Over any items and checks the rows and the monitor agree: a row is open exactly if it is the one that
-- the monitor holds open, and none where it holds none.
pub gap_run-IsTracked :
    (limits : GapLimits) (es : List GapEvent) (s : GapMonitor)
    → IsTracked s
    → IsTracked (gap_run limits es s)
unfolding gap_run gap_step
gap_run-IsTracked limits [] s h = h
gap_run-IsTracked limits (item_seen now ∷ es) s h =
    gap_run-IsTracked limits es (record s { last_item_ts = now }) h
gap_run-IsTracked limits (checked now market ∷ es) s h =
    gap_run-IsTracked limits es (check_gap limits now market s) (
      check_gap-IsTracked limits now market s.last_item_ts s.open_gap_id s.gaps s.next_gap
        s.degraded h)

-- A gap that opens in market hours is closed by the first check out of them if the silence is within
-- the longer threshold, though no item came: it ends where it started and the source counts as
-- recovered.
pub gap_run-closed_silent :
    (limits : GapLimits) (first second : ℕ) (s : GapMonitor)
    → s.open_gap_id ≡ none
    → limits.market_threshold < first - s.last_item_ts
    → second - s.last_item_ts ≤ limits.offhours_threshold
    → let after = gap_run limits (checked first true ∷ checked second false ∷ []) s in
      (after.open_gap_id ≡ none)
      × (after.degraded ≡ false)
      × (after.gaps
          ≡ record {
            gap_id = s.next_gap;
            gap_start = s.last_item_ts;
            gap_end = some s.last_item_ts;
          }
            ∷ map (close_row s.next_gap s.last_item_ts) s.gaps)
unfolding gap_run gap_step check_gap close_gap
gap_run-closed_silent limits first second s idle silent heard =
    let opens : ltb limits.market_threshold (first - s.last_item_ts) ≡ true =
      ground (arith, silent) in
    let closes : leb (second - s.last_item_ts) limits.offhours_threshold ≡ true =
      ground (arith, heard) in
    let own : (s.next_gap == s.next_gap) ≡ true = ground arith in
    rw (idle, opens, closes, own) (refl, refl, refl)
