-- ===== src/Examples/Days.antt =====
-- The theorems on the drawdown breaker, at a capital of 1,000 dollars.
use news_pipeline.Base.{ℕ, ◌/◌, refl, true, false, none, some, List, [], ◌∷◌, div_mono, arith}
use news_pipeline.Num.Fixed.{Fixed, fixed_num}
use news_pipeline.Direction.{Side}
use news_pipeline.Breaker.{Marked, trip_row, BreakerState, ResetCfg}
use news_pipeline.Breaker.Day.{
  Pass, check_pass, reset_pass, passes, IsTrippedAt, passes-IsTrippedAt,
}
use news_pipeline.Examples.Samples.{cents}

-- Three shares short, 10 dollars against us each.
abbrev marked : List (Marked Fixed)
marked =
    record {
      last_price = some (cents 6000);
      avg_entry = cents 5000;
      qty_open = 3;
      side = Side.short;
    }
    ∷ []

abbrev clear : BreakerState
clear = record { drawdown_breaker = false; audit = [] }

abbrev tripped : BreakerState
tripped = record { drawdown_breaker = true; audit = trip_row 200000 ∷ [] }

abbrev reset_cfg : ResetCfg
reset_cfg = record { enabled = true; max_trips_per_30d = none }

abbrev date : ℕ → ℕ
date t = t / 86400

-- Two passes of the trip's date.
abbrev same_day : List (Pass Fixed × ℕ)
same_day =
    (reset_pass (some reset_cfg), 210000)
    ∷ (check_pass (cents 2) (cents 100000) (cents 120000) (cents 0) [], 220000)
    ∷ []

passes-IsTrippedAt_example : IsTrippedAt 200000 (passes date same_day tripped)
passes-IsTrippedAt_example =
    passes-IsTrippedAt date same_day 200000 tripped (λ a b h. div_mono a b 86400 h)
      ((omega arith, refl), ((omega arith, refl), tt)) (refl, refl)
