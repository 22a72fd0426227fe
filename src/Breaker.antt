-- ===== src/Breaker.antt =====
-- src/c4_exec/breaker.py: the drawdown breaker and its reset. Instants are seconds, the date of an
-- instant in Chicago is an argument, and the audit table is a list, newest first.
pub mod Resets
pub mod Day
use news_pipeline.Base.{
  ℕ, ◌+◌, ◌*◌, Bool, true, false, not, ◌&&◌, ◌||◌, Option, none, some, List, [], ◌∷◌, ltb, leb, any,
  ◌==◌, if◌then◌else◌, default_to,
}
use news_pipeline.Base.Int.{pos}
use news_pipeline.Num.{Num, zero_f, min_f}
use news_pipeline.Direction.{Side, signed}

-- An open position with its last price.
pub record Marked (F : Type 0) : Type 0 where
  pub last_price : Option F
  pub avg_entry : F
  pub qty_open : ℕ
  pub side : Side

-- The rows of `journal.audit` that the breaker writes, with their instants: a trip, a reset by
-- `set_flag`, and a refusal.
pub data AuditRow : Type 0 where
  trip_row reset_row refused_row : ℕ → AuditRow

pub record BreakerState : Type 0 where
  pub drawdown_breaker : Bool
  pub audit : List AuditRow

-- `breaker_auto_reset`
pub record ResetCfg : Type 0 where
  pub enabled : Bool
  pub max_trips_per_30d : Option ℕ

pub data ResetDecision : Type 0 where
  reset refuse : ResetDecision

module _ {F : Type 0} ⦃num : Num F⦄ where
  open num use {of_ℤ, add, sub, mul, neg, is_le}

  abbrev gain_of : Option F → Marked F → F → F
  gain_of none p rest = rest
  gain_of (some price) p rest =
      add (signed p.side (mul (sub price p.avg_entry) (of_ℤ (pos p.qty_open)))) rest

  -- The second query of `day_pnl`.
  unfoldable pub unrealized : List (Marked F) → F
  unrealized [] = zero_f
  unrealized (p ∷ ps) = gain_of p.last_price p (unrealized ps)

  unfoldable pub check_breaker :
      F → F → F → F → List (Marked F) → ℕ → BreakerState → BreakerState × Bool
  check_breaker drawdown_pct equity capital realized positions now s =
      let effective = min_f equity capital in
      let total = add realized (unrealized positions) in
      if s.drawdown_breaker
      then (s, true)
      else if is_le effective zero_f
      then (s, false)
      else if is_le total (mul (neg drawdown_pct) effective)
      then (record { drawdown_breaker = true; audit = trip_row now ∷ s.audit }, true)
      else (s, false)

-- ts > now() - interval '30 days'
abbrev pub in_window : ℕ → ℕ → Bool
in_window now ts = ltb now (ts + 30 * 86400)

abbrev pub later : ℕ → Option ℕ → ℕ
later ts none = ts
later ts (some other) = if ltb ts other then other else ts

-- The first query of `_trip_history`: the last trip of the window.
unfoldable pub last_trip : ℕ → List AuditRow → Option ℕ
last_trip now [] = none
last_trip now (trip_row ts ∷ rows) =
    let rest = last_trip now rows in if in_window now ts then some (later ts rest) else rest
last_trip now (reset_row ts ∷ rows) = last_trip now rows
last_trip now (refused_row ts ∷ rows) = last_trip now rows

-- The number of its trips.
unfoldable pub trip_count : ℕ → List AuditRow → ℕ
trip_count now [] = 0
trip_count now (trip_row ts ∷ rows) = (if in_window now ts then 1 else 0) + trip_count now rows
trip_count now (reset_row ts ∷ rows) = trip_count now rows
trip_count now (refused_row ts ∷ rows) = trip_count now rows

module _ (date_of : ℕ → ℕ) where
  unfoldable pub auto_reset_decision : Option ℕ → ℕ → ℕ → Option ResetCfg → Option ResetDecision
  auto_reset_decision tripped_at now trips_30d none = none
  auto_reset_decision none now trips_30d (some c) = none
  auto_reset_decision (some tripped_at) now trips_30d (some c) =
      if not c.enabled
      then none
      else if leb (date_of now) (date_of tripped_at)
      then none
      else if leb (default_to 3 c.max_trips_per_30d) trips_30d
      then some refuse
      else some reset

  abbrev is_refusal_today : ℕ → AuditRow → Bool
  is_refusal_today now (refused_row ts) = date_of ts == date_of now
  is_refusal_today now (trip_row ts) = false
  is_refusal_today now (reset_row ts) = false

  abbrev pub apply_decision : ℕ → BreakerState → Option ResetDecision → BreakerState
  apply_decision now s none = s
  apply_decision now s (some reset) = record {
    drawdown_breaker = false;
    audit = reset_row now ∷ s.audit;
  }
  apply_decision now s (some refuse) =
      if any (is_refusal_today now) s.audit
      then s
      else record s { audit = refused_row now ∷ s.audit }

  unfoldable pub maybe_auto_reset :
      Option ResetCfg → ℕ → BreakerState → BreakerState × Option ResetDecision
  maybe_auto_reset cfg now s =
      let decision = auto_reset_decision (last_trip now s.audit) now (trip_count now s.audit) cfg in
      if s.drawdown_breaker then (apply_decision now s decision, decision) else (s, none)
