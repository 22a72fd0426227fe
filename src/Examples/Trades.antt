-- ===== src/Examples/Trades.antt =====
-- The theorems on the book of trades, at four trades.
use news_pipeline.Base.{true, ℕ, ◌/◌, ◌≤◌, ◌≡◌, refl, some, none, List, [], ◌∷◌, length, arith}
use news_pipeline.Base.Int.{pos}
use news_pipeline.Num.Fixed.{Fixed, fx, fixed_num}
use news_pipeline.Book.{Bucket, SymbolBook, new_bucket, add_trades, price_at}
use news_pipeline.Book.Reads.{last_close, add_trades-price_at}
use news_pipeline.Burst.{BurstCfg, burst_event, up_burst}
use news_pipeline.Burst.Spaced.{BurstPass, IsSpaced, burst_run, burst_run-IsSpaced}
use news_pipeline.Examples.Samples.{cents}

abbrev empty : SymbolBook Fixed
empty = record { keep = 2; buckets = []; last = none }

abbrev tape : List (ℕ × Fixed × Fixed)
tape =
    (100, cents 1000, cents 200)
    ∷ (103, cents 1010, cents 100)
    ∷ (106, cents 1005, cents 300)
    ∷ (121, cents 1020, cents 100)
    ∷ []

add_trades-price_at_example :
    let after = add_trades tape empty in
    (length after.buckets ≤ 2)
    × ((ts : ℕ) → price_at ts after.buckets ≡ last_close (ts / 5) none after.buckets)
add_trades-price_at_example =
    add_trades-price_at tape empty 90 (omega arith)
      (omega arith, (omega arith, (omega arith, (omega arith, tt)))) refl

-- Buckets of seconds 50 and 60; a trade of second 55 comes late.
abbrev with_gap : SymbolBook Fixed
with_gap = record {
  keep = 540;
  buckets = new_bucket 10 (cents 1000) ∷ new_bucket 12 (cents 1020) ∷ [];
  last = some (60, cents 1020);
}

abbrev traded : ℕ → Fixed → Fixed → Bucket Fixed
traded key price volume = record (new_bucket key price) { volume = volume; trades = 1 }

-- A jump of one percent on a hundred times the volume.
abbrev jump_book : SymbolBook Fixed
jump_book = record {
  keep = 540;
  buckets =
      traded 2 (cents 1000) (cents 100)
      ∷ traded 8 (cents 1000) (cents 100)
      ∷ traded 12 (cents 1000) (cents 100)
      ∷ traded 24 (cents 1010) (cents 10000)
      ∷ [];
  last = some (120, cents 1010);
}

abbrev burst_cfg : BurstCfg Fixed
burst_cfg = record {
  stale_secs = 30;
  cooldown_secs = 900;
  ret_60s = fx (pos 40);
  ret_120s = fx (pos 60);
  vol_window_secs = 60;
  baseline_secs = 60;
  min_baseline_buckets = 3;
  baseline_rth_only = true;
  vol_mult_min = cents 400;
  extreme_secs = 1800;
  require_extreme = true;
}

abbrev jump_passes : List (BurstPass Fixed)
jump_passes =
    record { now = 125; open_ts = 0; book = jump_book }
    ∷ record { now = 127; open_ts = 0; book = jump_book }
    ∷ []

jump_fires_once :
    burst_run burst_cfg jump_passes none ≡ burst_event up_burst 125 (cents 1010) true ∷ []
unfolding burst_run
jump_fires_once = refl

burst_run-IsSpaced_example : IsSpaced 900 none (burst_run burst_cfg jump_passes none)
burst_run-IsSpaced_example = burst_run-IsSpaced burst_cfg jump_passes none
