-- ===== src/Gate/Quote.antt =====
-- The two branches of src/c3_gate/rules.py that judge a live quote: the extended-hours shadow and
-- the scanner.
use news_pipeline.Base.{
  ℕ, Bool, true, false, not, ◌&&◌, ◌||◌, ◌≡◌, Option, none, some, arith, if◌then◌else◌, is_none,
  default_to,
}
use news_pipeline.Base.Int.{ℤ, pos}
use news_pipeline.Num.{Num, zero_f}
use news_pipeline.Direction.{Thesis}
use news_pipeline.Gate.{
  Verdict, pass, veto, would_trade, eh_shadow, scanner, credibility, gate_window, gate_extended,
  eh_liquidity, scanner_stale, scanner_structure, scanner_parabolic, scanner_liquidity, GateVerdict,
  veto_for, pass_for, ThesisFacts, ShortContext, GateCfg, direction_gate, move_from, thesis_signed,
  is_credible, is_up,
}
use news_pipeline.Gate.Verdicts.{is_pass, may_trade, direction_gate-may_trade}

pub record EhState (F : Type 0) : Type 0 where
  pub prenews_price : F
  pub last_price : F
  pub bid : Option F
  pub ask : Option F
  pub spread_bps : Option F
  pub minutes_since_publish : ℤ
  pub corroboration_outlets : ℕ
  pub tier_min : ℕ
  pub cluster_items : ℕ

-- `eh_shadow`
pub record EhCfg (F : Type 0) : Type 0 where
  pub window_min : Option F
  pub max_spread_bps : Option F

pub record ScannerState (F : Type 0) : Type 0 where
  pub last_price : F
  pub detect_price : F
  pub minutes_since_detect : F
  pub vwap : Option F
  pub range30_pos : Option F
  pub bar5_range_ratio : Option F
  pub spread_bps : Option F
  pub halted : Bool

pub record ScannerCfg (F : Type 0) : Type 0 where
  pub stale_max_min : F
  pub stale_run_pct : F
  pub require_above_vwap : Bool
  pub range30_min_pos : F
  pub parabolic_bar_ratio : F
  pub max_spread_bps : F

abbrev pub is_would_trade : Verdict → Bool
is_would_trade would_trade = true
is_would_trade pass = false
is_would_trade veto = false

module _ {F : Type 0} ⦃num : Num F⦄ where
  open num use {of_ℤ, lit, sub, is_lt, is_le}

  -- A measurement that is missing or above its limit.
  abbrev pub missing_or_above : Option F → F → Bool
  missing_or_above none limit = true
  missing_or_above (some x) limit = is_lt limit x

  abbrev pub missing_or_below : Option F → F → Bool
  missing_or_below none limit = true
  missing_or_below (some x) limit = is_lt x limit

  -- A missing, one-sided or inverted quote, or a price that is not positive.
  unfoldable pub no_market : Option F → Option F → F → Bool
  no_market none ask last = true
  no_market (some bid) none last = true
  no_market (some bid) (some ask) last = is_le bid zero_f || (is_le ask bid || is_le last zero_f)

  unfoldable pub evaluate_eh :
      ThesisFacts F → EhState F → EhCfg F → GateCfg F → Option (ShortContext F) → GateVerdict
  unfolding no_market
  evaluate_eh thesis s ecfg cfg short =
      let move = thesis_signed thesis.direction (move_from s.prenews_price s.last_price) in
      elim (direction_gate thesis.direction short) [
        | some reason ↦ veto_for eh_shadow reason
        | none ↦
            if not (is_credible thesis s.corroboration_outlets s.cluster_items s.tier_min none cfg)
            then veto_for eh_shadow credibility
            else if is_lt (default_to (of_ℤ (pos 30)) ecfg.window_min)
                (of_ℤ s.minutes_since_publish)
            then veto_for eh_shadow gate_window
            else if is_le cfg.extended_pct move
            then veto_for eh_shadow gate_extended
            else if no_market s.bid s.ask s.last_price || is_none s.spread_bps
            then veto_for eh_shadow eh_liquidity
            else if missing_or_above s.spread_bps (default_to (of_ℤ (pos 100)) ecfg.max_spread_bps)
            then veto_for eh_shadow eh_liquidity
            else record { verdict = would_trade; rule = eh_shadow; veto_reason = none }
      ]

  -- On the wrong side of VWAP for the thesis, or with none known.
  unfoldable pub against_vwap : Thesis → F → Option F → Bool
  against_vwap direction last none = true
  against_vwap direction last (some vwap) =
      if is_up direction then is_lt last vwap else is_lt vwap last

  -- The position in the range, measured from the end that the thesis wants.
  unfoldable pub range_position : Thesis → Option F → Option F
  range_position direction none = none
  range_position direction (some r) = some (if is_up direction then r else sub (of_ℤ (pos 1)) r)

  unfoldable pub evaluate_scanner :
      ThesisFacts F → ScannerState F → ScannerCfg F → Option (ShortContext F) → GateVerdict
  evaluate_scanner thesis s cfg short =
      let run = thesis_signed thesis.direction (move_from s.detect_price s.last_price) in
      elim (direction_gate thesis.direction short) [
        | some reason ↦ veto_for scanner reason
        | none ↦
            if is_lt cfg.stale_max_min s.minutes_since_detect || is_lt cfg.stale_run_pct run
            then veto_for scanner scanner_stale
            else if cfg.require_above_vwap && against_vwap thesis.direction s.last_price s.vwap
            then veto_for scanner scanner_structure
            else if missing_or_below (range_position thesis.direction s.range30_pos)
                cfg.range30_min_pos
            then veto_for scanner scanner_structure
            else if missing_or_above s.bar5_range_ratio cfg.parabolic_bar_ratio
            then veto_for scanner scanner_parabolic
            else if s.halted
            then veto_for scanner scanner_liquidity
            else if missing_or_above s.spread_bps cfg.max_spread_bps
            then veto_for scanner scanner_liquidity
            else pass_for scanner
      ]

  -- The scanner branch passes exactly if every check of the tape holds on a value that is there: a
  -- missing VWAP (where one is required), range, bar or spread never passes, nor does a halt.
  pub evaluate_scanner-pass :
      (thesis : ThesisFacts F) (s : ScannerState F) (cfg : ScannerCfg F)
      (short : Option (ShortContext F))
      → let run = thesis_signed thesis.direction (move_from s.detect_price s.last_price) in
        is_pass (evaluate_scanner thesis s cfg short).verdict ≡ (
          may_trade thesis.direction short
          && (not (is_lt cfg.stale_max_min s.minutes_since_detect || is_lt cfg.stale_run_pct run)
              && (not (cfg.require_above_vwap && against_vwap thesis.direction s.last_price s.vwap)
                  && (not (
                        missing_or_below
                          (range_position thesis.direction s.range30_pos)
                          cfg.range30_min_pos)
                      && (not (missing_or_above s.bar5_range_ratio cfg.parabolic_bar_ratio)
                          && (not s.halted
                              && not (missing_or_above s.spread_bps cfg.max_spread_bps)))))))
  unfolding evaluate_scanner
  evaluate_scanner-pass thesis s cfg short =
      ground (arith, direction_gate-may_trade thesis.direction short)

  -- The extended-hours branch never yields a PASS, so nothing on it can be executed, and yields
  -- WOULD_TRADE exactly for a tradeable, credible, fresh thesis that is not extended, on a two-sided
  -- quote whose spread is known and within the limit.
  pub evaluate_eh-would_trade :
      (thesis : ThesisFacts F) (s : EhState F) (ecfg : EhCfg F) (cfg : GateCfg F)
      (short : Option (ShortContext F))
      → let move = thesis_signed thesis.direction (move_from s.prenews_price s.last_price) in
        (is_pass (evaluate_eh thesis s ecfg cfg short).verdict ≡ false)
        × (is_would_trade (evaluate_eh thesis s ecfg cfg short).verdict ≡ (
            may_trade thesis.direction short
            && (is_credible thesis s.corroboration_outlets s.cluster_items s.tier_min none cfg
                && (not (
                      is_lt
                        (default_to (of_ℤ (pos 30)) ecfg.window_min)
                        (of_ℤ s.minutes_since_publish))
                    && (not (is_le cfg.extended_pct move)
                        && (not (no_market s.bid s.ask s.last_price)
                            && not (
                                missing_or_above s.spread_bps
                                  (default_to (of_ℤ (pos 100)) ecfg.max_spread_bps))))))))
  unfolding evaluate_eh
  evaluate_eh-would_trade thesis s ecfg cfg short =
      ground (arith, direction_gate-may_trade thesis.direction short)
