-- ===== src/Gate.antt =====
-- src/c3_gate/rules.py: the confirmation gate. The dict of numbers that each verdict carries to the
-- journal is left out; the dict of thresholds is a record of the keys that the rules read.
mod Types
pub mod Quote
pub mod Shadow
pub mod Verdicts
pub mod Credibility
pub use Types.*
use news_pipeline.Base.{
  ℕ, ◌+◌, ◌-◌, ◌/◌, Bool, true, false, not, ◌&&◌, ◌||◌, Option, none, some, ltb, leb, ◌==◌,
  if◌then◌else◌, default_to, is_none,
}
use news_pipeline.Base.Int.{ℤ, pos, ltb_ℤ}
use news_pipeline.Num.{Num, zero_f, truthy, or_else}
use news_pipeline.Direction.{Side, Thesis, up, down, side_for, signed}

unfoldable pub bump_level : Level → Level
bump_level low = medium
bump_level medium = high
bump_level high = high

abbrev pub is_high : Level → Bool
is_high high = true
is_high medium = false
is_high low = false

abbrev pub is_up : Thesis → Bool
is_up up = true
is_up down = false

-- Before the market has been open for the blackout, or with the market closed.
abbrev pub in_open_window : Option ℤ → ℤ → Bool
in_open_window none blackout = true
in_open_window (some minutes) blackout = ltb_ℤ minutes blackout

-- `growth_credit`: an absent configuration and a step or cap of zero give no credit.
abbrev pub max_ℕ : ℕ → ℕ → ℕ
max_ℕ a b = if ltb a b then b else a

abbrev min_ℕ : ℕ → ℕ → ℕ
min_ℕ a b = if ltb b a then b else a

unfoldable pub growth_credit : ℕ → ℕ → Option GrowthCfg → ℕ
growth_credit independent_outlets cluster_items none = 0
growth_credit independent_outlets cluster_items (some g) =
    if not g.enabled
    then 0
    else if g.items_per_credit == 0 || g.max_credit == 0
    then 0
    else min_ℕ ((cluster_items - max_ℕ independent_outlets 1) / g.items_per_credit) g.max_credit

-- `lane_for`; the first two arguments say that the origin is the scanner and the horizon LONG.
unfoldable pub lane_for : Bool → Bool → Thesis → Option CatalystClass → Lane
lane_for from_scanner horizon_long direction cclass =
    if from_scanner
    then scanner_lane
    else if horizon_long
    then news_long
    else if not (is_up direction) && not (is_none cclass)
    then news_short_dilution
    else news_short

module _ {F : Type 0} where
  -- `credibility_required`
  unfoldable pub credibility_required : Level → ℕ → Level → GateCfg F → ℕ
  unfolding bump_level
  credibility_required impact tier_min source_risk cfg =
      if tier_min == 1
      then 1
      else cfg.required_outlets (if is_high source_risk then bump_level impact else impact) tier_min

  unfoldable pub credibility_with_class : ℕ → Option CatalystClass → GateCfg F → ℕ
  credibility_with_class required none cfg = required
  credibility_with_class required (some c) cfg =
      if cfg.exempt_class c then min_ℕ required 1 else required

module _ {F : Type 0} ⦃num : Num F⦄ where
  open num use {of_ℤ, sub, mul, div, is_lt, is_le}

  -- The Reg SHO test: an unknown move counts as restricted.
  abbrev pub ssr_blocks : ShortContext F → Option F → Bool
  ssr_blocks s none = s.ssr_veto
  ssr_blocks s (some pct) = s.ssr_veto && is_le pct s.ssr_trigger_pct

  unfoldable pub direction_gate : Thesis → Option (ShortContext F) → Option Reason
  direction_gate up short = none
  direction_gate down none = some long_only
  direction_gate down (some s) =
      if not s.enabled
      then some long_only
      else if not s.etb_ok
      then some short_unavailable
      else if ssr_blocks s s.pct_from_prior_close
      then some ssr_restricted
      else none

  -- `_bar_stale`
  unfoldable pub bar_stale : Option F → GateCfg F → Bool
  bar_stale none cfg = false
  bar_stale (some age) cfg =
      let max_age = or_else cfg.max_bar_age_secs zero_f in
      if is_le max_age zero_f then false else is_lt max_age age

  unfoldable pub impact_bucket : F → GateCfg F → Level
  impact_bucket magnitude cfg =
      if is_le cfg.impact_high_min magnitude
      then high
      else if is_le cfg.impact_medium_min magnitude
      then medium
      else low

  -- The move from one price to another, zero from a zero price.
  unfoldable pub move_from : F → F → F
  move_from start last = if truthy start then div (sub last start) start else zero_f

  -- `_dm(direction) * x`
  unfoldable pub thesis_signed : Thesis → F → F
  unfolding side_for signed
  thesis_signed direction x = signed (side_for direction) x

  unfoldable pub signed_move : ThesisFacts F → MarketState F → F
  unfolding thesis_signed move_from
  signed_move thesis state =
      thesis_signed thesis.direction (move_from state.prenews_price state.last_price)

  unfoldable pub is_credible : ThesisFacts F → ℕ → ℕ → ℕ → Option CatalystClass → GateCfg F → Bool
  unfolding credibility_required credibility_with_class impact_bucket growth_credit
  is_credible thesis outlets items tier_min cclass cfg =
      let required =
        credibility_with_class
          (credibility_required (impact_bucket thesis.magnitude_est cfg) tier_min thesis.source_risk
            cfg)
          cclass cfg in
      leb required (outlets + growth_credit outlets items cfg.growth)

  -- 3a. The intraday branch.
  unfoldable pub intraday_verdict : F → Option F → MarketState F → GateCfg F → GateVerdict
  intraday_verdict move vol_mult state cfg =
      if ltb_ℤ cfg.intraday_window_min state.minutes_since_publish
      then veto_for intraday gate_window
      else if is_le cfg.extended_pct move
      then veto_for intraday gate_extended
      else elim vol_mult [
        | none ↦ veto_for intraday marketdata_missing
        | some vol ↦
            if is_lt move cfg.intraday_move_pct || is_lt vol cfg.intraday_vol_mult
            then veto_for intraday gate_no_confirm
            else if bar_stale state.bar_age_secs cfg
            then veto_for intraday stale_marketdata
            else pass_for intraday
      ]

  unfoldable pub is_priced_in : ThesisFacts F → Option F → GateCfg F → Bool
  unfolding thesis_signed
  is_priced_in thesis none cfg = false
  is_priced_in thesis (some gap) cfg =
      is_le (mul cfg.handoff_gap_ratio thesis.magnitude_est) (thesis_signed thesis.direction gap)

  unfoldable pub is_unmoved : ThesisFacts F → F → GateCfg F → Bool
  is_unmoved thesis move cfg =
      let min_long = or_else cfg.handoff_min_move_pct_long zero_f in
      is_up thesis.direction && (is_lt zero_f min_long && is_lt move min_long)

  -- 3b. The open-handoff branch.
  unfoldable pub handoff_verdict : ThesisFacts F → F → MarketState F → GateCfg F → GateVerdict
  handoff_verdict thesis move state cfg =
      if in_open_window state.minutes_since_open cfg.open_blackout_min
      then veto_for open_handoff gate_open_window
      else if is_priced_in thesis state.gap_pct cfg
      then veto_for open_handoff priced_in
      else if is_le cfg.extended_pct move
      then veto_for open_handoff gate_extended
      else if is_unmoved thesis move cfg
      then veto_for open_handoff handoff_unmoved
      else pass_for open_handoff

  -- The branch that `news_in_session` names, past the direction gate and credibility.
  abbrev pub branch_rule : MarketState F → Rule
  branch_rule state = if state.news_in_session then intraday else open_handoff

  unfoldable pub evaluate :
      ThesisFacts F
      → MarketState F
      → GateCfg F
      → Option (ShortContext F)
      → Option CatalystClass
      → GateVerdict
  unfolding signed_move
  evaluate thesis state cfg short cclass =
      let move = signed_move thesis state in
      elim (direction_gate thesis.direction short) [
        | some reason ↦ veto_for (branch_rule state) reason
        | none ↦
            if not (
              is_credible thesis state.corroboration_outlets state.cluster_items state.tier_min
                cclass cfg)
            then veto_for (branch_rule state) credibility
            else if state.news_in_session
            then intraday_verdict move state.vol_mult state cfg
            else handoff_verdict thesis move state cfg
      ]
