-- ===== src/Examples/Accounts.antt =====
-- The theorems on the reconciliation, at a broker with two positions.
use news_pipeline.Base.{ℕ, ◌≡◌, ◌⊎◌, refl, true, false, Option, none, some, List, [], ◌∷◌}
use news_pipeline.Base.Int.{pos, ◌-ℤ◌}
use news_pipeline.Num.Fixed.{Fixed, fixed_num}
use news_pipeline.Direction.{Side, pnl}
use news_pipeline.Mechanics.{Order, filled_status}
use news_pipeline.Reconcile.{
  BrokerPosition, PositionRow, Journal, api_ok, reconcile, settle_row, row_of,
}
use news_pipeline.Reconcile.Refill.{settle_row-counted_twice}
use news_pipeline.Reconcile.Distinct.{has_distinct}
use news_pipeline.Reconcile.Converge.{IsAgreed, reconcile_twice-IsAgreed}
use news_pipeline.Examples.Samples.{cents}

-- A long of ten that the journal has as a short, and a short that it does not know.
abbrev at_broker : List (BrokerPosition Fixed)
at_broker =
    record { ticker = 7; qty = 10; avg_entry = cents 1000; side = Side.long }
    ∷ record { ticker = 8; qty = 5; avg_entry = cents 2000; side = Side.short }
    ∷ []

abbrev row : PositionRow Fixed
row = record {
  position_id = 1;
  ticker = 7;
  qty_open = pos 30;
  avg_entry = cents 1000;
  initial_stop = cents 1100;
  r_unit = cents 100;
  side = some Side.short;
  realized_pnl = cents 0;
  is_open = true;
}

abbrev journal : Journal Fixed
journal = record { rows = row ∷ []; next_id = 2 }

abbrev no_stop : ℕ → Option (Order Fixed)
no_stop id = none

-- A stop order that took twenty shares of thirty.
abbrev part_filled : Order Fixed
part_filled = record { status = filled_status; filled_qty = 20; filled_avg_price = cents 1110 }

abbrev stop_filled : ℕ → Option (Order Fixed)
stop_filled id = some part_filled

reconcile_twice-IsAgreed_example :
    let after = (reconcile at_broker no_stop (reconcile at_broker no_stop journal).0).0.rows in
    IsAgreed at_broker after × ((has_distinct journal.rows ≡ false) ⊎ (has_distinct after ≡ true))
unfolding news_pipeline.Reconcile.catastrophe_fill
reconcile_twice-IsAgreed_example = reconcile_twice-IsAgreed at_broker no_stop no_stop journal refl

abbrev matching : Journal Fixed
matching = record {
  rows = record row { qty_open = pos 10; side = some Side.long } ∷ [];
  next_id = 2;
}

abbrev one_long : List (BrokerPosition Fixed)
one_long = record { ticker = 7; qty = 10; avg_entry = cents 1000; side = Side.long } ∷ []

settle_row-counted_twice_example :
    let once = row_of (settle_row [] stop_filled row) in
    let twice = row_of (settle_row [] stop_filled once) in
    let gain = pnl Side.short (cents 1000) (cents 1110) (pos 20) in
    (once.is_open ≡ true)
    × (twice.realized_pnl ≡ fixed_num.add (fixed_num.add (cents 0) gain) gain)
    × (twice.qty_open ≡ (pos 30 -ℤ pos 20) -ℤ pos 20)
unfolding news_pipeline.Reconcile.catastrophe_fill
settle_row-counted_twice_example =
    settle_row-counted_twice [] stop_filled part_filled row refl refl refl refl
