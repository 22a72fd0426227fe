-- ===== src/Gate/Verdicts.antt =====
-- When the confirmation gate of src/c3_gate/rules.py passes, in one condition per branch.
use news_pipeline.Base.{
  Bool, true, false, not, ◌&&◌, ◌≡◌, Option, none, some, arith, if◌then◌else◌, is_none,
}
use news_pipeline.Base.Int.{leb_ℤ}
use news_pipeline.Num.{Num}
use news_pipeline.Direction.{Thesis, up, down}
use news_pipeline.Gate.{
  Verdict, pass, veto, would_trade, ThesisFacts, MarketState, ShortContext, GateCfg, CatalystClass,
  ssr_blocks, direction_gate, bar_stale, signed_move, is_credible, intraday_verdict, is_priced_in,
  in_open_window, is_unmoved, handoff_verdict, evaluate,
}

abbrev pub is_pass : Verdict → Bool
is_pass pass = true
is_pass veto = false
is_pass would_trade = false

module _ {F : Type 0} ⦃num : Num F⦄ where
  open num use {is_lt, is_le}

  -- A thesis may trade its direction: up always, down only on complete evidence of a short.
  abbrev pub may_trade : Thesis → Option (ShortContext F) → Bool
  may_trade up short = true
  may_trade down none = false
  may_trade down (some s) = s.enabled && (s.etb_ok && not (ssr_blocks s s.pct_from_prior_close))

  -- The direction gate fails closed: it is silent exactly if the direction may be traded.
  pub direction_gate-may_trade :
      (direction : Thesis) (short : Option (ShortContext F))
      → is_none (direction_gate direction short) ≡ may_trade direction short
  unfolding direction_gate
  direction_gate-may_trade up short = ground arith
  direction_gate-may_trade down none = ground arith
  direction_gate-may_trade down (some s) = ground arith

  -- The volume is known and, with the move, confirms.
  abbrev pub confirms : F → Option F → GateCfg F → Bool
  confirms move none cfg = false
  confirms move (some vol) cfg =
      not (is_lt move cfg.intraday_move_pct) && not (is_lt vol cfg.intraday_vol_mult)

  abbrev pub intraday_ok : F → MarketState F → GateCfg F → Bool
  intraday_ok move state cfg =
      leb_ℤ state.minutes_since_publish cfg.intraday_window_min
      && (not (is_le cfg.extended_pct move)
          && (confirms move state.vol_mult cfg && not (bar_stale state.bar_age_secs cfg)))

  abbrev pub handoff_ok : ThesisFacts F → F → MarketState F → GateCfg F → Bool
  handoff_ok thesis move state cfg =
      not (in_open_window state.minutes_since_open cfg.open_blackout_min)
      && (not (is_priced_in thesis state.gap_pct cfg)
          && (not (is_le cfg.extended_pct move) && not (is_unmoved thesis move cfg)))

  intraday-ok :
      (move : F) (vol : Option F) (state : MarketState F) (cfg : GateCfg F)
      → is_pass (intraday_verdict move vol state cfg).verdict
        ≡ intraday_ok move (record state { vol_mult = vol }) cfg
  unfolding intraday_verdict
  intraday-ok move none state cfg = ground arith
  intraday-ok move (some vol) state cfg = ground arith

  handoff-ok :
      (thesis : ThesisFacts F) (move : F) (state : MarketState F) (cfg : GateCfg F)
      → is_pass (handoff_verdict thesis move state cfg).verdict ≡ handoff_ok thesis move state cfg
  unfolding handoff_verdict
  handoff-ok thesis move state cfg = ground arith

  -- The gate passes exactly a credible thesis whose direction may be traded and that meets every
  -- condition of its branch: fresh, not extended, confirmed and backed by a bar that is not stale
  -- in session; past the opening blackout, not priced in, not extended and moved enough after it.
  pub evaluate-pass :
      (thesis : ThesisFacts F) (state : MarketState F) (cfg : GateCfg F)
      (short : Option (ShortContext F)) (cclass : Option CatalystClass)
      → let move = signed_move thesis state in
        is_pass (evaluate thesis state cfg short cclass).verdict ≡ (
          may_trade thesis.direction short
          && (is_credible thesis state.corroboration_outlets state.cluster_items state.tier_min
                cclass cfg
              && (if state.news_in_session
                  then intraday_ok move state cfg
                  else handoff_ok thesis move state cfg)))
  unfolding evaluate
  evaluate-pass thesis state cfg short cclass =
      let move = signed_move thesis state in
      ground (
        arith,
        direction_gate-may_trade thesis.direction short,
        intraday-ok move state.vol_mult state cfg,
        handoff-ok thesis move state cfg,
      )
