-- ===== src/Thesis/Measures.antt =====
-- The rules of src/c11_thesis/service.py on one candidate, with the measures of src/common/marketdata.py
-- that they read. Bars are newest first.
use news_pipeline.Base.{
  ℕ, zero, suc, Bool, true, false, not, ◌||◌, ltb, Option, none, some, List, [], ◌∷◌, length,
  is_empty, if◌then◌else◌,
}
use news_pipeline.Base.Int.{ℤ, pos, leb_ℤ}
use news_pipeline.Num.{Num, zero_f, truthy, max_f, abs_f}

-- A daily bar
pub record DailyBar (F : Type 0) : Type 0 where
  pub high : F
  pub low : F
  pub close : F
  pub volume : F

-- The keys of config/thesis_entry.yaml and of the profile `thesis_v1` that the plan reads.
pub record ThesisCfg (F : Type 0) : Type 0 where
  pub max_above_sma20_pct : F
  pub max_5session_gain_pct : F
  pub min_price : F
  pub min_adv_dollars : F
  pub risk_pct : F
  pub min_viable_risk : F
  pub stop_k : F
  pub chase_buffer_pct : F
  pub reclaim_buffer_pct : F
  pub max_open_positions : ℕ
  pub max_new_per_day : ℕ
  pub max_per_thesis : ℕ

-- `skip_reason`
pub data ThesisSkip : Type 0 where
  cooloff data_unavailable reentry_wait illiquid extended min_risk : ThesisSkip

abbrev pub first_bars : {A : Type 0} → ℕ → List A → List A
first_bars zero xs = []
first_bars (suc n) [] = []
first_bars (suc n) (x ∷ xs) = x ∷ first_bars n xs

module _ {F : Type 0} ⦃num : Num F⦄ where
  open num use {add, sub, mul, div, floor_div, round, floor, of_ℤ, lit, is_lt, is_le}

  -- `sum` of a list that is newest first
  abbrev pub sum_f : List F → F
  sum_f [] = zero_f
  sum_f (x ∷ xs) = add (sum_f xs) x

  abbrev pub map_bars : (DailyBar F → F) → List (DailyBar F) → List F
  map_bars f [] = []
  map_bars f (b ∷ bs) = f b ∷ map_bars f bs

  abbrev pub true_range : DailyBar F → DailyBar F → F
  true_range prev cur =
      max_f (max_f (sub cur.high cur.low) (abs_f (sub cur.high prev.close)))
        (abs_f (sub cur.low prev.close))

  abbrev pub true_ranges : ℕ → List (DailyBar F) → List F
  true_ranges zero bs = []
  true_ranges (suc n) [] = []
  true_ranges (suc n) (cur ∷ []) = []
  true_ranges (suc n) (cur ∷ prev ∷ bs) = true_range prev cur ∷ true_ranges n (prev ∷ bs)

  -- `atr14`
  unfoldable pub atr14 : List (DailyBar F) → Option F
  atr14 daily =
      if ltb (length daily) 15
      then none
      else some (round (div (sum_f (true_ranges 14 daily)) (of_ℤ (pos 14))) 4)

  -- `adv20`
  unfoldable pub adv20 : List (DailyBar F) → Option F
  adv20 daily =
      if ltb (length daily) 20
      then none
      else some (div (sum_f (map_bars (λ b. b.volume) (first_bars 20 daily))) (of_ℤ (pos 20)))

  -- `sma` of at least n closes
  abbrev pub mean20 : List F → F
  mean20 closes = div (sum_f (first_bars 20 closes)) (of_ℤ (pos 20))

  -- `(x - base) / base if base else 0.0`
  abbrev pub gain_over : F → F → F
  gain_over x base = if truthy base then div (sub x base) base else zero_f

  abbrev pub is_run_up : ThesisCfg F → F → List F → Bool
  is_run_up cfg last (c1 ∷ c2 ∷ c3 ∷ c4 ∷ c5 ∷ rest) =
      is_lt cfg.max_5session_gain_pct (gain_over last c5)
  is_run_up cfg last closes = true

  -- `extended_verdict`: whether to skip.
  unfoldable pub extended_verdict : ThesisCfg F → List (DailyBar F) → Bool
  extended_verdict cfg [] = true
  extended_verdict cfg (b ∷ bs) =
      let closes = b.close ∷ map_bars (λ x. x.close) bs in
      if ltb (length closes) 21
      then true
      else is_lt cfg.max_above_sma20_pct (gain_over b.close (mean20 closes))
        || is_run_up cfg b.close (map_bars (λ x. x.close) bs)

  abbrev pub adv_dollars : Option F → F → F
  adv_dollars none last = zero_f
  adv_dollars (some adv) last = if truthy adv then mul adv last else zero_f

  abbrev pub last_daily_close : List (DailyBar F) → F
  last_daily_close [] = zero_f
  last_daily_close (b ∷ bs) = b.close

  -- `liquidity_verdict`: whether to skip.
  unfoldable pub liquidity_verdict : ThesisCfg F → List (DailyBar F) → Bool
  unfolding adv20
  liquidity_verdict cfg daily =
      is_lt (last_daily_close daily) cfg.min_price
      || is_lt (adv_dollars (adv20 daily) (last_daily_close daily)) cfg.min_adv_dollars

  -- `reentry_verdict`: whether the last close has reclaimed the level of a forced exit.
  unfoldable pub reentry_verdict : ThesisCfg F → F → Option F → Bool
  reentry_verdict cfg last none = true
  reentry_verdict cfg last (some level) =
      is_lt (mul level (add (of_ℤ (pos 1)) cfg.reclaim_buffer_pct)) last

  -- `size_position`: the quantity, zero where the budget cannot buy a viable stop.
  unfoldable pub size_position : ThesisCfg F → F → F → ℤ
  size_position cfg effective atr =
      let stop_dist = mul cfg.stop_k atr in
      let qty = floor (floor_div (mul effective cfg.risk_pct) stop_dist) in
      if is_le stop_dist zero_f
      then pos 0
      else if not (leb_ℤ (pos 1) qty)
      then pos 0
      else if is_lt (mul (of_ℤ qty) stop_dist) cfg.min_viable_risk
      then pos 0
      else qty

  -- The skips of the bars that were read, before the sizing; `level` is that of a forced exit.
  abbrev pub bars_skip : ThesisCfg F → Option F → List (DailyBar F) → Option F → Option ThesisSkip
  bars_skip cfg level daily none = some data_unavailable
  bars_skip cfg level daily (some atr) =
      if is_empty daily || not (truthy atr)
      then some data_unavailable
      else if not (reentry_verdict cfg (last_daily_close daily) level)
      then some reentry_wait
      else if liquidity_verdict cfg daily
      then some illiquid
      else if extended_verdict cfg daily
      then some extended
      else none

  -- The `try` block; bars that could not be read are `none`.
  unfoldable pub candidate_skip :
      ThesisCfg F → Bool → Option (List (DailyBar F)) → Option F → Option ThesisSkip
  unfolding atr14 liquidity_verdict extended_verdict reentry_verdict
  candidate_skip cfg true bars level = some cooloff
  candidate_skip cfg false none level = some data_unavailable
  candidate_skip cfg false (some daily) level = bars_skip cfg level daily (atr14 daily)
