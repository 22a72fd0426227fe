-- ===== src/Direction.antt =====
-- src/common/direction.py: the arithmetic that depends on whether a position is long or short.
pub mod Laws
use news_pipeline.Base.{ℕ, Bool, true, false, Option, none, some, if◌then◌else◌}
use news_pipeline.Base.Int.{ℤ, pos, negsuc}
use news_pipeline.Num.{Num, zero_f, max_f, min_f}

-- `Side`
pub data Side : Type 0 where
  long short : Side

-- The values of `ENTRY_INTENT` and `EXIT_INTENT`.
pub data Intent : Type 0 where
  buy sell sell_short buy_to_cover : Intent

pub data BrokerSide : Type 0 where
  broker_buy broker_sell : BrokerSide

-- `thesis["direction"]`
pub data Thesis : Type 0 where
  up down : Thesis

unfoldable pub entry_intent : Side → Intent
entry_intent long = buy
entry_intent short = sell_short

unfoldable pub exit_intent : Side → Intent
exit_intent long = sell
exit_intent short = buy_to_cover

unfoldable pub broker_side : Intent → BrokerSide
broker_side buy = broker_buy
broker_side sell = broker_sell
broker_side sell_short = broker_sell
broker_side buy_to_cover = broker_buy

unfoldable pub side_for : Thesis → Side
side_for up = long
side_for down = short

abbrev pub is_long : Side → Bool
is_long long = true
is_long short = false

unfoldable pub dir_mult : Side → ℤ
dir_mult long = pos 1
dir_mult short = negsuc 0

-- A bar's prices.
pub record Bar (F : Type 0) : Type 0 where
  pub low : F
  pub high : F
  pub close : F

module _ {F : Type 0} ⦃num : Num F⦄ where
  open num use {of_ℤ, lit, add, sub, mul, div, round, is_lt, is_le}

  unfoldable pub signed : Side → F → F
  unfolding dir_mult
  signed side x = mul (of_ℤ (dir_mult side)) x

  unfoldable pub entry_stop : Side → F → F → F
  unfolding signed
  entry_stop side limit_price distance = round (sub limit_price (signed side distance)) 2

  unfoldable pub r_unit : Side → F → F → F
  unfolding signed
  r_unit side avg_entry initial_stop = round (signed side (sub avg_entry initial_stop)) 4

  unfoldable pub pnl : Side → F → F → ℤ → F
  unfolding signed
  pnl side avg_entry price qty = round (mul (signed side (sub price avg_entry)) (of_ℤ qty)) 4

  unfoldable pub r_progress : Side → F → F → F → F
  unfolding signed
  r_progress side avg_entry unit price = div (signed side (sub price avg_entry)) unit

  unfoldable pub move_fraction : Side → F → F → F
  unfolding signed
  move_fraction side avg_entry mark = div (signed side (sub mark avg_entry)) avg_entry

  unfoldable pub realization_target : Side → F → F → F → F
  unfolding signed
  realization_target side avg_entry fraction magnitude =
      round (mul avg_entry (add (of_ℤ (pos 1)) (mul (signed side fraction) magnitude))) 4

  unfoldable pub target_hit : Side → Bar F → F → Bool
  target_hit side bar target = if is_long side then is_le target bar.high else is_le bar.low target

  unfoldable pub stop_hit : Side → Bar F → F → Bool
  stop_hit side bar stop = if is_long side then is_le bar.low stop else is_le stop bar.high

  unfoldable pub is_tighter : Side → F → F → Bool
  is_tighter side proposed current =
      if is_long side then is_lt current proposed else is_lt proposed current

  abbrev pub winning_edge : Side → Bar F → F
  winning_edge side bar = if is_long side then bar.high else bar.low

  unfoldable pub watermark : Side → Option F → Bar F → F
  watermark side none bar = winning_edge side bar
  watermark side (some current) bar =
      let edge = winning_edge side bar in
      if is_long side then max_f current edge else min_f current edge

  unfoldable pub trail_from : Side → F → F → F
  trail_from side mark_water distance =
      round (add mark_water (mul (of_ℤ (if is_long side then negsuc 0 else pos 1)) distance)) 2

  unfoldable pub marketable_exit : Side → F → F → F
  marketable_exit side ref_price slip =
      let mult = if is_long side then sub (of_ℤ (pos 1)) slip else add (of_ℤ (pos 1)) slip in
      round (mul ref_price mult) 2

  unfoldable pub open_risk : Side → F → F → ℤ → F
  unfolding signed
  open_risk side avg_entry current_stop qty_open =
      mul (max_f (signed side (sub avg_entry current_stop)) zero_f) (of_ℤ qty_open)
