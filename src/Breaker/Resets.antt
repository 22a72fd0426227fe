-- ===== src/Breaker/Resets.antt =====
-- When the breaker of src/c4_exec/breaker.py is set, and when it clears.
use news_pipeline.Base.{
  ℕ, ◌≡◌, refl, Bool, true, false, not, ◌&&◌, ◌||◌, Option, none, some, List, ltb, leb, default_to,
  arith, Bool-cases, inl, inr,
}
use news_pipeline.Num.{Num, zero_f, min_f}
use news_pipeline.Breaker.{
  Marked, BreakerState, ResetCfg, unrealized, check_breaker, last_trip, trip_count,
  auto_reset_decision, maybe_auto_reset,
}

module _ {F : Type 0} ⦃num : Num F⦄ where
  open num use {add, mul, neg, is_le}

  -- A check leaves the breaker set exactly if it was set or the capital is positive and the day's
  -- loss has reached its share; it answers with the flag that it leaves.
  pub check_breaker-sets :
      (drawdown_pct equity capital realized : F) (positions : List (Marked F)) (now : ℕ)
      (s : BreakerState)
      → let (after, tripped) = check_breaker drawdown_pct equity capital realized positions now s in
        (after.drawdown_breaker ≡ (
          s.drawdown_breaker
          || (not (is_le (min_f equity capital) zero_f)
              && is_le
                  (add realized (unrealized positions))
                  (mul (neg drawdown_pct) (min_f equity capital)))))
        × (tripped ≡ after.drawdown_breaker)
  unfolding check_breaker
  check_breaker-sets drawdown_pct equity capital realized positions now s = ground arith

-- The reset is enabled and the trips of thirty days are below its limit.
abbrev pub allows : ℕ → Option ResetCfg → Bool
allows trips none = false
allows trips (some c) = c.enabled && ltb trips (default_to 3 c.max_trips_per_30d)

module _ (date_of : ℕ → ℕ) where
  -- The last trip is of an earlier date.
  abbrev pub is_past : ℕ → Option ℕ → Bool
  is_past now none = false
  is_past now (some ts) = not (leb (date_of now) (date_of ts))

  decision-resets :
      (now trips : ℕ) (last : Option ℕ) (cfg : Option ResetCfg) (s : BreakerState)
      → s.drawdown_breaker ≡ true
      → last_trip now s.audit ≡ last
      → trip_count now s.audit ≡ trips
      → (maybe_auto_reset date_of cfg now s).0.drawdown_breaker
        ≡ not (is_past now last && allows trips cfg)
  unfolding maybe_auto_reset auto_reset_decision
  decision-resets now trips none none s on l t = ground (arith, l, t)
  decision-resets now trips (some ts) none s on l t = ground (arith, l, t)
  decision-resets now trips none (some c) s on l t = ground (arith, l, t)
  decision-resets now trips (some ts) (some c) s on l t = ground (arith, l, t)

  unset_stays :
      (cfg : Option ResetCfg) (now : ℕ) (s : BreakerState)
      → s.drawdown_breaker ≡ false
      → (maybe_auto_reset date_of cfg now s).0.drawdown_breaker ≡ false
  unfolding maybe_auto_reset
  unset_stays cfg now s off = ground (arith, off)

  -- A reset pass clears a set breaker exactly if the reset is enabled, the last trip of thirty days
  -- is of an earlier date and those trips are below the limit; it never sets one.
  pub maybe_auto_reset-clears :
      (cfg : Option ResetCfg) (now : ℕ) (s : BreakerState)
      → (maybe_auto_reset date_of cfg now s).0.drawdown_breaker ≡ (
          s.drawdown_breaker
          && not (is_past now (last_trip now s.audit) && allows (trip_count now s.audit) cfg))
  maybe_auto_reset-clears cfg now s = elim (Bool-cases s.drawdown_breaker) [
    | inl on ↦
        let resets =
          decision-resets now (trip_count now s.audit) (last_trip now s.audit) cfg s on refl refl in
        ground (arith, on, resets)
    | inr off ↦ ground (arith, off, unset_stays cfg now s off)
  ]
