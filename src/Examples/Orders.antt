-- ===== src/Examples/Orders.antt =====
-- The theorems on exits at the broker, for the shared position with its catastrophe stop in place.
use news_pipeline.Base.{◌+◌, ◌≡◌, refl, true, none, some, [], arith}
use news_pipeline.Num.Fixed.{Fixed, fixed_num}
use news_pipeline.Exits.{target}
use news_pipeline.Engine.{filled}
use news_pipeline.Mechanics.{
  filled_status, other_status, taken, Order, Desk, Answers, ended, execute_exit,
}
use news_pipeline.Mechanics.Protection.{
  HasFault, IsSettled, execute_exit-IsSettled, execute_exit-raced,
}
use news_pipeline.Examples.Samples.{cents, position}

abbrev working : Order Fixed
working = record { status = other_status; filled_qty = 0; filled_avg_price = cents 0 }

abbrev desk : Desk Fixed
desk = record { rows = []; sold = 0; named_stop = some (cents 850); guarded = some 10; held = 10 }

abbrev unfilled : Answers Fixed
unfilled = record {
  stop_cancelled = some true;
  stop_order = none;
  submission = taken;
  polls = λ n. some working;
  exit_cancelled = true;
  final = some working;
  stop_placed = true;
}

execute_exit-IsSettled_example :
    IsSettled target
      (HasFault unfilled)
      (some (cents 850))
      desk
      (execute_exit position 5 target 45 1 unfilled desk)
execute_exit-IsSettled_example =
    execute_exit-IsSettled position 5 target 45 1 unfilled desk (omega arith) refl (refl, refl)

-- Half of the position, sold at 12.05 between the last poll and the cancel.
abbrev half_sold : Order Fixed
half_sold = record { status = filled_status; filled_qty = 5; filled_avg_price = cents 1205 }

abbrev racing : Answers Fixed
racing = record unfilled { final = some half_sold }

execute_exit-raced_example :
    (after : Desk Fixed) × (execute_exit position 5 target 45 1 racing desk
      ≡ some (ended filled after))
    × (after.sold ≡ desk.sold + 5)
    × (after.guarded ≡ none)
execute_exit-raced_example =
    execute_exit-raced position 5 target 45 1 racing desk (cents 850) half_sold (omega arith) refl
      refl refl (λ i. refl) refl refl refl
