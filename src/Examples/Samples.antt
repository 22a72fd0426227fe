-- ===== src/Examples/Samples.antt =====
-- The positions, bars and configurations that the examples share, in decimal fixed point.
use news_pipeline.Base.{ℕ, ◌*◌, false, none, some, List, []}
use news_pipeline.Base.Int.{pos}
use news_pipeline.Num.Fixed.{Fixed, fx, fixed_num}
use news_pipeline.Direction.{Side, Bar}
use news_pipeline.Exits.{initial, scale_out_50, no_window, ExitAction, Policy, Position}
use news_pipeline.Engine.{Outcome, filled, FireAction, Tick}

-- A price in cents.
abbrev pub cents : ℕ → Fixed
cents n = fx (pos (n * 100))

-- Ten dollars in, stop at nine, one dollar of risk a share, trailing one ATR (0.50) from one R.
abbrev pub policy : Policy Fixed
policy = record {
  current_stop = some (cents 900);
  initial_stop = cents 900;
  stop_basis = some initial;
  hwm = none;
  scale_out_done = false;
  target_fraction = cents 50;
  realization_action = scale_out_50;
  magnitude_est = some (cents 40);
  side = some Side.long;
  time_stop = no_window;
  atr_value = none;
  atr_14 = cents 50;
  trail_cfg = some (record { activate_at_r = cents 100; k = cents 100 });
  breakeven_at_r = cents 100;
  profit_lock = none;
}

abbrev pub position : Position Fixed
position = record {
  exit_policy = policy;
  avg_entry = cents 1000;
  r_unit = cents 100;
  qty_open = 10;
  side = some Side.long;
}

-- A bar that closes at 11.50 after a high of 11.60: 1.5 R, short of the target at 12.00.
abbrev pub rising : Bar Fixed
rising = record { low = cents 1100; high = cents 1160; close = cents 1150 }

-- A bar through the stop.
abbrev pub falling : Bar Fixed
falling = record { low = cents 890; high = cents 950; close = cents 895 }

abbrev pub reaching : Bar Fixed
reaching = record { low = cents 1150; high = cents 1210; close = cents 1205 }

abbrev pub fills : ExitAction Fixed → Outcome
fills a = filled

abbrev pub tick_of : Bar Fixed → List (FireAction Fixed) → Tick Fixed
tick_of bar fires = record { bar = bar; session_age = 0; minutes_open = none; fires = fires }

abbrev pub no_fires : List ℕ
no_fires = []
