-- ===== src/Examples/Plans.antt =====
-- The theorems on the thesis plan, at one thesis with two names of which one is held.
use news_pipeline.Base.{
  ℕ, zero, suc, ◌+◌, ◌-◌, ◌≤◌, ◌≡◌, refl, true, false, ◌&&◌, ◌||◌, ◌==◌, none, some, List, [], ◌∷◌,
  All, any, length, arith,
}
use news_pipeline.Base.Int.{pos}
use news_pipeline.Num.{◌≤f◌}
use news_pipeline.Num.Fixed.{Fixed, fx, fixed_num}
use news_pipeline.Num.Fixed.Laws.{Fixed-IsFloat}
use news_pipeline.Thesis.Measures.{DailyBar, ThesisCfg}
use news_pipeline.Thesis.{UpThesis, PlanFacts, initial_count, entry_plan}
use news_pipeline.Thesis.Caps.{IsChosen, IsDistinct, of_thesis, entry_plan-IsPlanned}
use news_pipeline.Thesis.Management.{
  ThesisPolicy, ManageCfg, Night, dead_thesis, active_thesis, live_stop, calls_exit, manage_nights,
  manage_nights-IsNoLooser,
}

abbrev thesis_cfg : ThesisCfg Fixed
thesis_cfg = record {
  max_above_sma20_pct = fx (pos 1000);
  max_5session_gain_pct = fx (pos 1500);
  min_price = fx (pos 30000);
  min_adv_dollars = fx (pos 200000000000);
  risk_pct = fx (pos 25);
  min_viable_risk = fx (pos 2000000);
  stop_k = fx (pos 20000);
  chase_buffer_pct = fx (pos 200);
  reclaim_buffer_pct = fx (pos 0);
  max_open_positions = 4;
  max_new_per_day = 2;
  max_per_thesis = 2;
}

abbrev quiet_bar : DailyBar Fixed
quiet_bar = record {
  high = fx (pos 102500);
  low = fx (pos 97500);
  close = fx (pos 100000);
  volume = fx (pos 50000000000);
}

abbrev same_bars : ℕ → List (DailyBar Fixed)
same_bars zero = []
same_bars (suc n) = quiet_bar ∷ same_bars n

abbrev plan_facts : PlanFacts Fixed
plan_facts = record {
  is_held = λ t. t == 7;
  is_pending = λ t. false;
  in_cooloff = λ t. false;
  level = λ t. none;
  bars = λ t. some (same_bars 22);
  effective = fx (pos 1000000000);
  open_decisions = 40 ∷ [];
}

abbrev one_thesis : List UpThesis
one_thesis =
    record {
      thesis_id = 3;
      decision_id = 40;
      beneficiaries = some 7 ∷ none ∷ some 8 ∷ some 8 ∷ some 9 ∷ [];
    }
    ∷ []

-- One position of the thesis is open, so that one more may be.
plan_of_one :
    (entry_plan thesis_cfg plan_facts one_thesis).planned
    ≡ record { ticker = 8; thesis_id = 3; qty = pos 250; limit = fx (pos 102000) } ∷ []
unfolding entry_plan
plan_of_one = refl

entry_plan-IsPlanned_example :
    let plan = entry_plan thesis_cfg plan_facts one_thesis in
    (length plan.planned ≤ 2)
    × (length plan.planned ≤ 4 - 1)
    × All (IsChosen thesis_cfg plan_facts) plan.planned
    × IsDistinct thesis_cfg plan_facts plan.planned
    × (initial_count one_thesis (40 ∷ []) 3 + of_thesis thesis_cfg plan_facts 3 plan.planned ≤ 2)
unfolding initial_count
entry_plan-IsPlanned_example =
    entry_plan-IsPlanned thesis_cfg plan_facts one_thesis 3 2 (omega arith) (omega arith)

abbrev manage_cfg : ManageCfg
manage_cfg = record {
  exit_dead_theses = true;
  exit_on_review_verdicts = 3;
  dead_exit_at_open = true;
}

abbrev held_policy : ThesisPolicy Fixed
held_policy = record { initial_stop = fx (pos 90000); current_stop = none; exit_at_open = false }

abbrev nights : List (Night Fixed)
nights =
    record { status = active_thesis; verdicts = []; mark = fx (pos 100000) }
    ∷ record { status = dead_thesis; verdicts = []; mark = fx (pos 95000) }
    ∷ []

manage_nights-IsNoLooser_example :
    (live_stop held_policy ≤f live_stop (manage_nights manage_cfg nights held_policy))
    × ((manage_nights manage_cfg nights held_policy).exit_at_open
        ≡ (false || (any (calls_exit manage_cfg) nights && true)))
manage_nights-IsNoLooser_example =
    manage_nights-IsNoLooser Fixed-IsFloat manage_cfg nights held_policy (refl, (refl, tt))
