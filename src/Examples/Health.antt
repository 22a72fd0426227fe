-- ===== src/Examples/Health.antt =====
-- The theorems on the dead-man monitor, at two components.
use news_pipeline.Base.{ℕ, refl, true, false, Option, none, some, List, [], ◌∷◌}
use news_pipeline.Num.Fixed.{Fixed, fixed_num}
use news_pipeline.Deadman.{Watched, ControlFlags}
use news_pipeline.Deadman.Ownership.{
  monitor_pass, control_run, IsOperatorBlock, control_run-IsOperatorBlock,
}
use news_pipeline.Examples.Samples.{cents}

-- Quotes block entries after five minutes and suspend exits after ten; triage only alerts.
abbrev components : List (Watched Fixed)
components =
    record {
      component = 1;
      is_marketdata = true;
      thresholds = record {
        alert_min = cents 200;
        critical_min = some (cents 600);
        block_entries_min = some (cents 500);
        exit_engine_suspend_min = some (cents 1000);
      };
    }
    ∷ record {
      component = 2;
      is_marketdata = false;
      thresholds = record {
        alert_min = cents 300;
        critical_min = none;
        block_entries_min = none;
        exit_engine_suspend_min = none;
      };
    }
    ∷ []

abbrev late : ℕ → Option Fixed
late c = some (cents 700)

abbrev fresh : ℕ → Option Fixed
fresh c = some (cents 100)

abbrev unblocked : ControlFlags
unblocked = record { block_entries = false; deadman_block = false; exit_engine_suspended = false }

abbrev by_operator : ControlFlags
by_operator = record { block_entries = true; deadman_block = false; exit_engine_suspended = false }

control_run-IsOperatorBlock_example : IsOperatorBlock (
    control_run
      (monitor_pass components late true ∷ monitor_pass components fresh true ∷ [])
      by_operator)
control_run-IsOperatorBlock_example =
    control_run-IsOperatorBlock
      (monitor_pass components late true ∷ monitor_pass components fresh true ∷ []) by_operator
      (tt, (tt, tt)) (refl, refl)
