-- ===== src/Breaker/Day.antt =====
-- The breaker of src/c4_exec/breaker.py over the passes of a day.
use news_pipeline.Base.{
  ℕ, ◌≤◌, ◌≡◌, Bool, true, false, ◌==◌, Option, none, some, List, [], ◌∷◌, any, All, arith,
  Bool-cases, Option-cases, inl, inr,
}
use news_pipeline.Num.{Num}
use news_pipeline.Breaker.{
  Marked, AuditRow, trip_row, reset_row, refused_row, BreakerState, ResetCfg, check_breaker,
  in_window, last_trip, trip_count, maybe_auto_reset, later, auto_reset_decision,
}
use news_pipeline.Breaker.Resets.{is_past, maybe_auto_reset-clears}

abbrev is_trip : ℕ → AuditRow → Bool
is_trip ts (trip_row t) = t == ts
is_trip ts (reset_row t) = false
is_trip ts (refused_row t) = false

-- The audit has a trip of the instant.
abbrev pub has_trip : ℕ → List AuditRow → Bool
has_trip ts = any (is_trip ts)

abbrev IsFrom : ℕ → Option ℕ → Type 0
IsFrom ts none = ⊥
IsFrom ts (some t) = ts ≤ t

later-IsFrom : (ts t : ℕ) (rest : Option ℕ) → IsFrom ts rest → IsFrom ts (some (later t rest))
later-IsFrom ts t none h = absurd h
later-IsFrom ts t (some other) h = ground (arith, h)

later-own : (ts : ℕ) (rest : Option ℕ) → ts ≤ later ts rest
later-own ts none = omega arith
later-own ts (some other) = ground arith

-- The last trip of the window is no earlier than any trip in it.
last_trip-IsFrom :
    (now ts : ℕ) (rows : List AuditRow)
    → in_window now ts ≡ true
    → has_trip ts rows ≡ true
    → IsFrom ts (last_trip now rows)
unfolding last_trip
last_trip-IsFrom now ts [] w h = cc
last_trip-IsFrom now ts (reset_row t ∷ rows) w h = last_trip-IsFrom now ts rows w h
last_trip-IsFrom now ts (refused_row t ∷ rows) w h = last_trip-IsFrom now ts rows w h
last_trip-IsFrom now ts (trip_row t ∷ rows) w h = elim (Bool-cases (t == ts)) [
  | inl here ↦ let same : t ≡ ts = ground arith in rw (same, w) (later-own ts (last_trip now rows))
  | inr other ↦
      let below = last_trip-IsFrom now ts rows w (ground arith) in
      elim (Bool-cases (in_window now t)) [
        | inl on ↦ rw on (later-IsFrom ts t (last_trip now rows) below)
        | inr off ↦ rw off below
      ]
]

-- Set, with a trip of the instant in the audit.
abbrev pub IsTrippedAt : ℕ → BreakerState → Type 0
IsTrippedAt ts s = (s.drawdown_breaker ≡ true) × (has_trip ts s.audit ≡ true)

-- One pass of the engine: a check, or a reset.
pub data Pass (F : Type 0) : Type 0 where
  check_pass : F → F → F → F → List (Marked F) → Pass F
  reset_pass : Option ResetCfg → Pass F

module _ {F : Type 0} ⦃num : Num F⦄ where
  unfoldable pub pass_step : (ℕ → ℕ) → Pass F → ℕ → BreakerState → BreakerState
  pass_step date_of (check_pass drawdown_pct equity capital realized positions) now s =
      (check_breaker drawdown_pct equity capital realized positions now s).0
  pass_step date_of (reset_pass cfg) now s = (maybe_auto_reset date_of cfg now s).0

  unfoldable pub passes : (ℕ → ℕ) → List (Pass F × ℕ) → BreakerState → BreakerState
  passes date_of [] s = s
  passes date_of ((p, now) ∷ ps) s = passes date_of ps (pass_step date_of p now s)

  check-IsTrippedAt :
      (drawdown_pct equity capital realized : F) (positions : List (Marked F)) (ts now : ℕ)
      (s : BreakerState)
      → IsTrippedAt ts s
      → IsTrippedAt ts (check_breaker drawdown_pct equity capital realized positions now s).0
  unfolding check_breaker
  check-IsTrippedAt drawdown_pct equity capital realized positions ts now s (on, trip) =
      ground (arith, on, trip)

not_past :
    (date_of : ℕ → ℕ) (now ts : ℕ) (last : Option ℕ)
    → ((a b : ℕ) → a ≤ b → date_of a ≤ date_of b)
    → date_of now ≤ date_of ts
    → IsFrom ts last
    → is_past date_of now last ≡ false
not_past date_of now ts none mono day from = absurd from
not_past date_of now ts (some t) mono day from = ground (arith, mono ts t from)

apply-has_trip :
    (date_of : ℕ → ℕ) (cfg : Option ResetCfg) (ts now : ℕ) (s : BreakerState)
    → has_trip ts s.audit ≡ true
    → has_trip ts (maybe_auto_reset date_of cfg now s).0.audit ≡ true
unfolding maybe_auto_reset
apply-has_trip date_of cfg ts now s trip = ground (
  arith,
  trip,
  Option-cases
      (auto_reset_decision date_of (last_trip now s.audit) now (trip_count now s.audit) cfg),
)

reset-IsTrippedAt :
    (date_of : ℕ → ℕ) (cfg : Option ResetCfg) (ts now : ℕ) (s : BreakerState)
    → ((a b : ℕ) → a ≤ b → date_of a ≤ date_of b)
    → date_of now ≤ date_of ts
    → in_window now ts ≡ true
    → IsTrippedAt ts s
    → IsTrippedAt ts (maybe_auto_reset date_of cfg now s).0
reset-IsTrippedAt date_of cfg ts now s mono day window (on, trip) =
    let from = last_trip-IsFrom now ts s.audit window trip in
    let today = not_past date_of now ts (last_trip now s.audit) mono day from in
    (
      ground (arith, on, today, maybe_auto_reset-clears date_of cfg now s),
      apply-has_trip date_of cfg ts now s trip,
    )

module _ {F : Type 0} ⦃num : Num F⦄ where
  -- On the date of its trip and within thirty days of it, no passes clear the breaker: with dates
  -- that do not fall in time, a breaker that is set with a trip in the audit is still set after any
  -- checks and resets of a date that is not later than the trip's.
  pub passes-IsTrippedAt :
      (date_of : ℕ → ℕ) (ps : List (Pass F × ℕ)) (ts : ℕ) (s : BreakerState)
      → ((a b : ℕ) → a ≤ b → date_of a ≤ date_of b)
      → All (λ p. (date_of p.1 ≤ date_of ts) × (in_window p.1 ts ≡ true)) ps
      → IsTrippedAt ts s
      → IsTrippedAt ts (passes date_of ps s)
  unfolding passes pass_step
  passes-IsTrippedAt date_of [] ts s mono days tripped = tripped
  passes-IsTrippedAt date_of ((check_pass drawdown equity capital realized positions, now) ∷ ps) ts
        s mono (day, days) tripped =
      passes-IsTrippedAt date_of ps ts _ mono days
        (check-IsTrippedAt drawdown equity capital realized positions ts now s tripped)
  passes-IsTrippedAt date_of ((reset_pass cfg, now) ∷ ps) ts s mono (day, days) tripped =
      passes-IsTrippedAt date_of ps ts _ mono days
        (reset-IsTrippedAt date_of cfg ts now s mono day.0 day.1 tripped)
