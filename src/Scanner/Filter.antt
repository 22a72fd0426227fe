-- ===== src/Scanner/Filter.antt =====
-- Which candidates the filters of src/c10_scanner/rules.py pass.
use news_pipeline.Base.{
  ℕ, Bool, true, false, not, ◌&&◌, ◌||◌, ltb, leb, ◌≡◌, refl, Option, none, some, arith, default_to,
  is_none,
}
use news_pipeline.Num.{Num, IsFloat, ◌≤f◌, truthy}
use news_pipeline.Scanner.Types.{Metrics, ScanCfg}
use news_pipeline.Scanner.{
  is_down, minutes_since_extreme, is_under, is_short_of, is_above, abs_option, rel_volume_bar,
  is_known_below, filter_candidate,
}

abbrev pub is_fresh : Option ℕ → ℕ → Bool
is_fresh none limit = false
is_fresh (some n) limit = leb n limit

module _ {F : Type 0} ⦃num : Num F⦄ where
  open num use {is_lt, is_le}

  -- There is a value, and it is at least the limit; or at most.
  abbrev pub is_met : Option F → F → Bool
  is_met none limit = false
  is_met (some x) limit = not (is_lt x limit)

  abbrev pub stays_within : Option F → F → Bool
  stays_within none limit = false
  stays_within (some x) limit = not (is_lt limit x)

  -- Every condition on a candidate, on values that are there: a missing metric fails, but for the
  -- headroom to the price band and the date of the earnings.
  abbrev pub is_tradable : Metrics F → ScanCfg F → Bool → Option ℕ → Bool
  is_tradable m cfg is_etf earnings =
      not (cfg.exclude_etfs && is_etf)
      && is_met m.price cfg.min_price
      && (is_met m.adv20_dollars cfg.min_adv20_dollars
          && elim m.adv20_dollars [ none ↦ false | some x ↦ truthy x ])
      && (cfg.include_losers || not (is_down m))
      && is_met (abs_option m.move_pct) cfg.min_move_pct
      && is_met m.rel_volume (rel_volume_bar m cfg)
      && is_fresh (minutes_since_extreme m) cfg.max_minutes_since_hod
      && stays_within m.spread_bps cfg.max_spread_bps
      && (is_none m.luld_headroom_pct || is_met m.luld_headroom_pct cfg.min_luld_headroom_pct)
      && elim earnings [ none ↦ true | some n ↦ ltb cfg.earnings_blackout_sessions n ]

  is_under-is_met : (x : Option F) (limit : F) → is_under x limit ≡ not (is_met x limit)
  is_under-is_met none limit = refl
  is_under-is_met (some x) limit = ground arith

  is_short_of-is_met :
      (x : Option F) (limit : F)
      → is_short_of x limit ≡ not (is_met x limit && elim x [ none ↦ false | some y ↦ truthy y ])
  is_short_of-is_met none limit = refl
  is_short_of-is_met (some x) limit = ground arith

  is_above-stays_within : (x : Option F) (limit : F) → is_above x limit ≡ not (stays_within x limit)
  is_above-stays_within none limit = refl
  is_above-stays_within (some x) limit = ground arith

  is_known_below-is_met :
      (x : Option F) (limit : F) → is_known_below x limit ≡ not (is_none x || is_met x limit)
  is_known_below-is_met none limit = refl
  is_known_below-is_met (some x) limit = ground arith

  -- The relaxed bar for large companies is never above the base bar.
  rel_volume_bar_le :
      (law : IsFloat F) (m : Metrics F) (cfg : ScanCfg F)
      → rel_volume_bar m cfg ≤f cfg.min_rel_volume
  unfolding rel_volume_bar
  rel_volume_bar_le law m cfg =
      let relaxed = default_to cfg.min_rel_volume cfg.large_cap_min_rel_volume in
      ground (arith, law.le_refl cfg.min_rel_volume, law.le_of_lt relaxed cfg.min_rel_volume)

  -- A candidate passes the filters exactly where every condition holds on a value that is there.
  pub filter_candidate-pass :
      (m : Metrics F) (cfg : ScanCfg F) (is_etf : Bool) (earnings : Option ℕ)
      → is_none (filter_candidate m cfg is_etf earnings) ≡ is_tradable m cfg is_etf earnings
  unfolding filter_candidate
  filter_candidate-pass m cfg is_etf earnings = ground (
    arith,
    is_under-is_met m.price cfg.min_price,
    is_short_of-is_met m.adv20_dollars cfg.min_adv20_dollars,
    is_under-is_met (abs_option m.move_pct) cfg.min_move_pct,
    is_under-is_met m.rel_volume (rel_volume_bar m cfg),
    is_above-stays_within m.spread_bps cfg.max_spread_bps,
    is_known_below-is_met m.luld_headroom_pct cfg.min_luld_headroom_pct,
  )
