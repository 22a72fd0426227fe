-- ===== src/Sizing/Vetoes.antt =====
-- When the hard gates of src/a3_risk/sizing.py are silent.
use news_pipeline.Base.{
  Bool, not, ◌&&◌, ◌||◌, ◌≡◌, none, List, [], ◌++◌, ltb, arith, if◌then◌else◌, is_none,
}
use news_pipeline.Base.Int.{ℤ}
use news_pipeline.Num.{Num}
use news_pipeline.Direction.{is_long}
use news_pipeline.Sizing.{
  Flag, earnings_unknown, dividend_unknown, SizingInputs, LimitsCfg, Profile, known_within,
  flag_if_unknown, no_atr_value, context_gates, hard_gates,
}

module _ {F : Type 0} ⦃num : Num F⦄ where
  open num use {is_lt}

  abbrev pub context_ok : SizingInputs F → Profile F → ℤ → ℤ → Bool
  context_ok inp profile earnings dividend =
      not (profile.earnings_blackout_exit && known_within inp.earnings_next_sessions earnings)
      && (not (not (is_long inp.side) && known_within inp.ex_dividend_next_sessions dividend)
          && not (no_atr_value inp.atr_14))

  abbrev pub operations_ok : SizingInputs F → LimitsCfg F → Bool
  operations_ok inp limits =
      not (inp.kill_switch || (inp.breaker || (inp.block_entries || inp.ticker_halted)))
      && (ltb inp.trades_today inp.max_trades_per_day
          && (not (known_within inp.minutes_to_close limits.entry_blackout_final_min)
              && not (is_lt limits.spread_max_bps inp.spread_bps)))

  -- The flags that an entry carries for context that is not known.
  abbrev pub unknown_flags : SizingInputs F → List Flag
  unknown_flags inp =
      flag_if_unknown inp.earnings_next_sessions earnings_unknown
      ++ (if is_long inp.side
          then []
          else flag_if_unknown inp.ex_dividend_next_sessions dividend_unknown)

  context_gates-ok :
      (inp : SizingInputs F) (profile : Profile F) (earnings dividend : ℤ)
      → is_none (context_gates inp profile earnings dividend).0
        ≡ context_ok inp profile earnings dividend
  unfolding context_gates
  context_gates-ok inp profile earnings dividend = ground arith

  -- The gates are silent exactly if no switch is set, trades, minutes and spread are within their
  -- limits, no known earnings or (for a short) dividend date is near, and the ATR is known and
  -- positive.
  pub hard_gates-silent :
      (inp : SizingInputs F) (limits : LimitsCfg F) (profile : Profile F) (earnings dividend : ℤ)
      → is_none (hard_gates inp limits profile earnings dividend).0
        ≡ (operations_ok inp limits && context_ok inp profile earnings dividend)
  unfolding hard_gates
  hard_gates-silent inp limits profile earnings dividend =
      ground (arith, context_gates-ok inp profile earnings dividend)

  context_gates-flags :
      (inp : SizingInputs F) (profile : Profile F) (earnings dividend : ℤ)
      → (context_gates inp profile earnings dividend).0 ≡ none
      → (context_gates inp profile earnings dividend).1 ≡ unknown_flags inp
  unfolding context_gates
  context_gates-flags inp profile earnings dividend h = ground arith

  -- Unknown context is flagged, never vetoed: an entry that passes the gates carries one flag for an
  -- unknown earnings date and, on a short, one for an unknown dividend date, and no other.
  pub hard_gates-flags :
      (inp : SizingInputs F) (limits : LimitsCfg F) (profile : Profile F) (earnings dividend : ℤ)
      → (hard_gates inp limits profile earnings dividend).0 ≡ none
      → (hard_gates inp limits profile earnings dividend).1 ≡ unknown_flags inp
  unfolding hard_gates
  hard_gates-flags inp limits profile earnings dividend h =
      ground (arith, context_gates-flags inp profile earnings dividend)
