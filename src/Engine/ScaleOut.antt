-- ===== src/Engine/ScaleOut.antt =====
-- The once-only scale-out: over any run of bars at most one is filled.
use news_pipeline.Base.{ℕ, ◌+◌, ◌≤◌, Bool, true, false, List, [], ◌∷◌, ◌++◌}
use news_pipeline.Num.{Num}
use news_pipeline.Exits.{Kind, exit, scale_out, set_stop, event, ExitAction, Policy, Position}
use news_pipeline.Engine.{
  Outcome, filled, reinstated, catastrophe_filled, Applied, sent, stop_set, reviewed, guarded,
  EngineState, Tick, step,
}

abbrev filled_one : Applied → ℕ
filled_one (sent scale_out layer filled) = 1
filled_one (sent scale_out layer reinstated) = 0
filled_one (sent scale_out layer catastrophe_filled) = 0
filled_one (sent exit layer o) = 0
filled_one (sent set_stop layer o) = 0
filled_one (sent event layer o) = 0
filled_one stop_set = 0
filled_one reviewed = 0
filled_one guarded = 0

-- How many scale-outs the log reports as filled.
abbrev pub filled_scale_outs : List Applied → ℕ
filled_scale_outs [] = 0
filled_scale_outs (e ∷ log) = filled_one e + filled_scale_outs log

abbrev flag : Bool → ℕ
flag true = 1
flag false = 0

abbrev is_scale_out : Kind → ℕ
is_scale_out scale_out = 1
is_scale_out exit = 0
is_scale_out set_stop = 0
is_scale_out event = 0

module _ {F : Type 0} where
  abbrev scale_outs : List (ExitAction F) → ℕ
  scale_outs [] = 0
  scale_outs (a ∷ as') = is_scale_out a.kind + scale_outs as'

  -- With room for the scale-outs that the actions hold, each filled one raises the flag.
  abbrev Accounts : ℕ → (EngineState F → EngineState F × List Applied) → Type 0
  Accounts n f =
      (s : EngineState F)
      → n + flag s.policy.scale_out_done ≤ 1
      → filled_scale_outs (f s).1 + flag s.policy.scale_out_done
        ≤ flag (f s).0.policy.scale_out_done

-- A minute of the position: its row as it stands then, the broker's answers and the bar.
pub record Minute (F : Type 0) : Type 0 where
  pub row : Position F
  pub broker : ExitAction F → Outcome
  pub tick : Tick F

module _ {F : Type 0} ⦃num : Num F⦄ where
  -- The stored policy is carried from minute to minute; the other columns are read afresh.
  unfoldable pub run : Policy F → List (Minute F) → Policy F × List Applied
  run policy [] = (policy, [])
  run policy (m ∷ ms) =
      let (s, log) = step m.broker (record (m.row) { exit_policy = policy }) m.tick in
      let (final, later) = run s.policy ms in (final, log ++ later)
