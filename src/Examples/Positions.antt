-- ===== src/Examples/Positions.antt =====
-- The theorems on stops, exits and the engine, at the shared position.
use news_pipeline.Base.{
  ◌/◌, ◌≤◌, ◌≡◌, ◌⊎◌, true, false, none, some, List, [], ◌∷◌, map, length, any, All,
}
use news_pipeline.Num.{or_else}
use news_pipeline.Num.Fixed.{Fixed, fixed_num}
use news_pipeline.Direction.{long, watermark}
use news_pipeline.Exits.{
  trail, no_layer, set_stop, ExitAction, policy_state, side_of, evaluate_on_bar,
}
use news_pipeline.Exits.Priority.{closes, total_qty, must_exit, exit_layer, evaluate_exits}
use news_pipeline.Exits.Ratchet.{IsTightening, has_improved, exits_or_writes, evaluate-IsTightening}
use news_pipeline.Engine.{tighten_fire, to_breakeven, step}
use news_pipeline.Engine.Stops.{IsNoLooser, step-IsNoLooser}
use news_pipeline.Engine.ScaleOut.{Minute}
use news_pipeline.Examples.Samples.{
  cents, policy, position, rising, falling, reaching, fills, tick_of, no_fires,
}

-- What the rising bar's ratchet does: the stop to 11.10.
abbrev ratcheted : ExitAction Fixed
ratcheted = record {
  kind = set_stop;
  layer = no_layer;
  qty = 0;
  new_stop = some (cents 1110);
  new_basis = some trail;
  event_type = none;
  new_hwm = some (cents 1160);
  trigger_price = none;
}

-- Two bars at the target.
abbrev two_minutes : List (Minute Fixed)
two_minutes =
    record { row = position; broker = fills; tick = tick_of reaching [] }
    ∷ record { row = position; broker = fills; tick = tick_of reaching [] }
    ∷ []

evaluate_exits_example :
    let acts = evaluate_on_bar position falling 0 no_fires none in
    ((must_exit position falling 0 no_fires none ≡ true)
      × (length acts ≡ 1)
      × (map (λ a. a.layer) acts ≡ exit_layer position falling no_fires ∷ [])
      × (any closes acts ≡ true)
      × (total_qty acts ≡ 10))
    ⊎ ((must_exit position falling 0 no_fires none ≡ false)
        × (any closes acts ≡ false)
        × (total_qty acts ≤ 10 / 2))
evaluate_exits_example = evaluate_exits position falling 0 no_fires none

evaluate-IsTightening_example :
    All
      (IsTightening long (cents 900) (cents 1160))
      (evaluate_on_bar position rising 0 no_fires none)
    × ((has_improved long (cents 1160) (or_else policy.hwm position.avg_entry) ≡ false)
        ⊎ (any exits_or_writes (evaluate_on_bar position rising 0 no_fires none) ≡ true))
unfolding policy_state watermark side_of
evaluate-IsTightening_example = evaluate-IsTightening position rising 0 no_fires none

step-IsNoLooser_example :
    IsNoLooser long
      (cents 900)
      (some (cents 900))
      (step fills position (tick_of rising (tighten_fire to_breakeven ∷ []))).0.policy.current_stop
unfolding side_of
step-IsNoLooser_example =
    step-IsNoLooser fills position (tick_of rising (tighten_fire to_breakeven ∷ []))
