-- ===== src/Examples/Looks.antt =====
-- The theorem on the gate's schedule, at news of 10:00:12 and a window of half an hour.
use news_pipeline.Base.{ℕ, ◌≡◌, refl, Bool, false, some, [], ◌∷◌, is_none, ltb, arith}
use news_pipeline.Recheck.{RecheckCfg, bars_mature_ts, evaluations}
use news_pipeline.Recheck.Schedule.{evaluations-Returns}

abbrev gate_cfg : RecheckCfg
gate_cfg = record {
  min_confirm_bars = 3;
  fast_confirm_bars = 1;
  fast_urgency = 2 ∷ [];
  intraday_window_secs = 1800;
  confirm_final_margin_secs = 45;
  confirm_recheck_secs = 600;
}

-- The verdict may change until 10:25.
abbrev open_until : ℕ → Bool
open_until t = ltb t 37500

-- Not mature at 10:00:30, then three looks.
looks : evaluations 9 gate_cfg 3 36012 open_until 36030 ≡ some (36241 ∷ 36841 ∷ 37441 ∷ 37767 ∷ [])
unfolding evaluations bars_mature_ts
looks = refl

evaluations-Returns_example : is_none (evaluations 1783 gate_cfg 3 36012 open_until 36030) ≡ false
unfolding bars_mature_ts
evaluations-Returns_example =
    evaluations-Returns 1783 gate_cfg 3 36012 open_until 36030 37812 (omega arith) (omega arith)
      (omega arith) (omega arith)
