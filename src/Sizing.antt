-- ===== src/Sizing.antt =====
-- src/a3_risk/sizing.py: the entry vetoes and the sizing chain. The dict of journal numbers is left
-- out, but for the clips, which are a list of their own.
mod Types
pub mod Vetoes
pub mod Clips
pub use Types.*
use news_pipeline.Base.{
  ℕ, Bool, true, false, not, ◌&&◌, ◌||◌, Option, none, some, List, [], ◌∷◌, ◌++◌, leb,
  if◌then◌else◌, default_to,
}
use news_pipeline.Base.Int.{ℤ, pos, leb_ℤ, ltb_ℤ}
use news_pipeline.Num.{Num, zero_f, truthy, max_f, min_f, or_else}
use news_pipeline.Direction.{Side, is_long, entry_stop, open_risk}

abbrev same_horizon : Horizon → Horizon → Bool
same_horizon short_horizon short_horizon = true
same_horizon long_horizon long_horizon = true
same_horizon short_horizon long_horizon = false
same_horizon long_horizon short_horizon = false

-- `x <= limit` of an integer that may be unknown.
abbrev pub known_within : Option ℤ → ℤ → Bool
known_within none limit = false
known_within (some n) limit = leb_ℤ n limit

abbrev pub flag_if_unknown : Option ℤ → Flag → List Flag
flag_if_unknown none flag = flag ∷ []
flag_if_unknown (some n) flag = []

abbrev pub sector_flags : Option ℕ → List Flag
sector_flags none = sector_unknown ∷ []
sector_flags (some s) = []

module _ {F : Type 0} ⦃num : Num F⦄ where
  open num use {of_ℤ, lit, add, sub, mul, div, round, floor, is_lt, is_le}

  -- `limit_price_from_snapshot`
  unfoldable pub limit_price_from_snapshot : F → F → Side → F → F
  limit_price_from_snapshot ask spread_bps side bid =
      let concession = min_f (div (div spread_bps (of_ℤ (pos 2))) (of_ℤ (pos 10000))) (lit 10 4) in
      if is_long side
      then round (add ask (mul concession ask)) 2
      else (let ref = if truthy bid then bid else ask in round (sub ref (mul concession ref)) 2)

  -- `inp.atr_14 is None or inp.atr_14 <= 0`
  abbrev pub no_atr_value : Option F → Bool
  no_atr_value none = true
  no_atr_value (some atr) = is_le atr zero_f

  -- The vetoes after the operational ones, with the flags that they have raised by then.
  unfoldable pub context_gates : SizingInputs F → Profile F → ℤ → ℤ → Option VetoReason × List Flag
  context_gates inp profile earnings_sessions dividend_sessions =
      let flags = flag_if_unknown inp.earnings_next_sessions earnings_unknown in
      let short_flags =
        flags
        ++ (if is_long inp.side
            then []
            else flag_if_unknown inp.ex_dividend_next_sessions dividend_unknown) in
      if profile.earnings_blackout_exit && known_within inp.earnings_next_sessions earnings_sessions
      then (some earnings_blackout, flags)
      else if not (is_long inp.side) && known_within inp.ex_dividend_next_sessions dividend_sessions
      then (some ex_dividend, flags)
      else if no_atr_value inp.atr_14
      then (some no_atr, short_flags)
      else (none, short_flags)

  unfoldable pub hard_gates :
      SizingInputs F → LimitsCfg F → Profile F → ℤ → ℤ → Option VetoReason × List Flag
  unfolding context_gates
  hard_gates inp limits profile earnings_sessions dividend_sessions =
      if inp.kill_switch
      then (some kill_switch, [])
      else if inp.breaker
      then (some breaker, [])
      else if inp.block_entries
      then (some block_entries, [])
      else if inp.ticker_halted
      then (some halted, [])
      else if leb inp.max_trades_per_day inp.trades_today
      then (some max_trades, [])
      else if known_within inp.minutes_to_close limits.entry_blackout_final_min
      then (some entry_blackout, [])
      else if is_lt limits.spread_max_bps inp.spread_bps
      then (some wide_spread, [])
      else context_gates inp profile earnings_sessions dividend_sessions

  -- `scanner_capital_cfg`
  unfoldable pub scanner_capital_cfg : CapitalCfg F → ScannerLaneCfg F → CapitalCfg F
  scanner_capital_cfg cfg lane = record cfg {
    risk_per_trade_pct = mul cfg.risk_per_trade_pct (default_to (lit 5 1) lane.risk_multiplier);
    max_position_notional_pct =
        default_to cfg.max_position_notional_pct lane.max_position_notional_pct;
    max_sector_heat_pct =
        if default_to true lane.sector_clip then cfg.max_sector_heat_pct else none;
  }

  -- `news_capital_cfg`; the last argument says that the lane is news_short_dilution.
  unfoldable pub news_capital_cfg : CapitalCfg F → NewsLaneCfg F → Side → Bool → CapitalCfg F
  news_capital_cfg cfg lane side is_dilution =
      let one = of_ℤ (pos 1) in
      let mult =
        if is_long side
        then or_else lane.long_risk_multiplier one
        else if is_dilution
        then or_else lane.short_dilution_risk_multiplier one
        else one in
      record cfg { risk_per_trade_pct = mul cfg.risk_per_trade_pct mult }

  -- `open_heat.get(horizon, 0.0)` and `sum(open_heat.values())`
  unfoldable pub heat_of : Horizon → List (Horizon × F) → F
  heat_of h [] = zero_f
  heat_of h ((j, v) ∷ rest) = if same_horizon h j then v else heat_of h rest

  unfoldable pub sum_heat : F → List (Horizon × F) → F
  sum_heat acc [] = acc
  sum_heat acc ((j, v) ∷ rest) = sum_heat (add acc v) rest

  -- `max(cap - used, 0.0) / price`
  abbrev pub room : F → F → F → F
  room cap used price = div (max_f (sub cap used) zero_f) price

  abbrev adv_clip : Option F → F → List (Clip × F)
  adv_clip none participation = []
  adv_clip (some adv_20d) participation =
      if truthy adv_20d then (adv, mul participation adv_20d) ∷ [] else []

  abbrev sector_clip : Option ℕ → Option F → Option F → F → F → List (Clip × F)
  sector_clip none heat cap capital stop_distance = []
  sector_clip (some s) none cap capital stop_distance = []
  sector_clip (some s) (some heat) none capital stop_distance = []
  sector_clip (some s) (some heat) (some cap) capital stop_distance =
      (sector_heat, room (mul cap capital) heat stop_distance) ∷ []

  -- What the side spends: settled cash, or margin under the caps of the short book.
  unfoldable pub side_clips : SizingInputs F → ShortingCfg F → F → F → List (Clip × F)
  side_clips inp scfg limit_price stop_distance =
      if is_long inp.side
      then (settled_cash, div (max_f inp.settled_cash zero_f) limit_price) ∷ []
      else (buying_power, div (max_f inp.regt_buying_power zero_f) limit_price)
        ∷ (
          short_heat,
          room (mul (default_to (lit 15 3) scfg.max_short_heat_pct) inp.effective_capital)
              inp.open_short_heat stop_distance,
        )
        ∷ (
          gross_short,
          room (mul (default_to (lit 30 2) scfg.max_gross_short_notional_pct) inp.effective_capital)
              inp.gross_short_notional limit_price,
        )
        ∷ []

  unfoldable pub clips :
      SizingInputs F
      → CapitalCfg F
      → LimitsCfg F
      → ShortingCfg F
      → Horizon
      → F
      → F
      → List (Clip × F)
  unfolding side_clips heat_of sum_heat
  clips inp cfg limits scfg horizon limit_price stop_distance =
      let capital = inp.effective_capital in
      (notional, div (mul cfg.max_position_notional_pct capital) limit_price)
      ∷ (adv_clip inp.adv_20d limits.adv_participation_max
          ++ (side_clips inp scfg limit_price stop_distance
              ++ ((capital_headroom, room capital inp.deployed_notional limit_price)
                  ∷ (
                    lane_heat,
                    room (mul (cfg.heat_split horizon) capital) (heat_of horizon inp.open_heat)
                        stop_distance,
                  )
                  ∷ (
                    total_heat,
                    room (mul cfg.max_portfolio_heat_pct capital) (sum_heat zero_f inp.open_heat)
                        stop_distance,
                  )
                  ∷ sector_clip inp.sector inp.sector_heat cfg.max_sector_heat_pct capital
                      stop_distance)))

  -- `min(raw_qty, *clips.values())`
  unfoldable pub min_clips : F → List (Clip × F) → F
  min_clips acc [] = acc
  min_clips acc ((c, v) ∷ rest) = min_clips (min_f acc v) rest

  abbrev pub vetoed : VetoReason → List Flag → SizingResult F
  vetoed reason flags = record {
    verdict = veto;
    veto_reason = some reason;
    qty = pos 0;
    limit_price = zero_f;
    stop_distance = zero_f;
    initial_stop = zero_f;
    catastrophe_stop = zero_f;
    risk_budget = zero_f;
    actual_risk = zero_f;
    flags = flags;
  }

  -- The end of the chain: viability of the clipped quantity, and the stops.
  unfoldable pub finish :
      SizingInputs F → CapitalCfg F → Profile F → F → F → F → F → ℤ → List Flag → SizingResult F
  finish inp cfg profile atr risk_budget stop_distance limit_price qty flags =
      let actual_risk = mul (of_ℤ qty) stop_distance in
      if leb_ℤ qty (pos 0) || is_lt actual_risk (mul cfg.min_viable_risk_fraction risk_budget)
      then vetoed size_clipped flags
      else record {
        verdict = size;
        veto_reason = none;
        qty = qty;
        limit_price = limit_price;
        stop_distance = round stop_distance 4;
        initial_stop = entry_stop inp.side limit_price stop_distance;
        catastrophe_stop = entry_stop inp.side limit_price (mul profile.catastrophe_k atr);
        risk_budget = round risk_budget 2;
        actual_risk = round actual_risk 2;
        flags = flags;
      }

  -- The chain once the gates are silent. `none` is the exception of a division by zero: the first
  -- division by each divisor is the one that raises.
  unfoldable pub chain :
      SizingInputs F
      → CapitalCfg F
      → LimitsCfg F
      → Profile F
      → ShortingCfg F
      → Horizon
      → F
      → F
      → List Flag
      → Option (SizingResult F)
  unfolding min_clips finish
  chain inp cfg limits profile scfg horizon k_adj atr flags =
      let risk_budget = mul cfg.risk_per_trade_pct inp.effective_capital in
      let stop_distance = mul k_adj atr in
      let limit_price = limit_price_from_snapshot inp.ask inp.spread_bps inp.side inp.bid in
      let bounds = clips inp cfg limits scfg horizon limit_price stop_distance in
      let qty = floor (min_clips (div risk_budget stop_distance) bounds) in
      if truthy stop_distance && truthy limit_price
      then some (
          finish inp cfg profile atr risk_budget stop_distance limit_price qty
            (flags ++ sector_flags inp.sector))
      else none

  unfoldable pub size_entry :
      SizingInputs F
      → CapitalCfg F
      → LimitsCfg F
      → Profile F
      → Horizon
      → F
      → ℤ
      → ShortingCfg F
      → Option (SizingResult F)
  size_entry inp cfg limits profile horizon k_adj earnings_sessions scfg =
      let (reason, flags) =
        hard_gates inp limits profile earnings_sessions
          (default_to (pos 2) scfg.dividend_blackout_sessions) in
      elim reason [
        | some r ↦ some (vetoed r flags)
        | none ↦ elim inp.atr_14 [
          | none ↦ none
          | some atr ↦ chain inp cfg limits profile scfg horizon k_adj atr flags
        ]
      ]

  -- `open_risk_dollars`
  unfoldable pub open_risk_dollars : ℤ → F → F → Side → F
  open_risk_dollars qty_open avg_entry current_stop side =
      open_risk side avg_entry current_stop qty_open

-- `cluster_verdict`: whether the sector is full, outside mode 'off'.
unfoldable pub cluster_verdict : ℕ → ClusterMode → Option ℕ → Bool
cluster_verdict open_same_sector off max_per_sector = false
cluster_verdict open_same_sector shadow max_per_sector =
    leb (default_to 1 max_per_sector) open_same_sector
cluster_verdict open_same_sector veto_mode max_per_sector =
    leb (default_to 1 max_per_sector) open_same_sector
