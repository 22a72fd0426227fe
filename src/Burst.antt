-- ===== src/Burst.antt =====
-- src/c12_burst/detect.py over the book of src/c12_burst/book.py: when a burst of one symbol is an event.
-- Times are whole seconds; the session's open is an argument, since the time zones are not part of the
-- repository.
pub mod Spaced
use news_pipeline.Base.{
  ℕ, zero, suc, ◌+◌, ◌-◌, ◌*◌, ◌/◌, ◌%◌, Bool, true, false, not, ◌&&◌, ◌||◌, ◌==◌, ltb, leb, Option,
  none, some, List, [], ◌∷◌, length, is_empty, is_none, if◌then◌else◌,
}
use news_pipeline.Base.Int.{pos}
use news_pipeline.Num.{Num, zero_f, max_f, min_f, abs_f}
use news_pipeline.Book.{Bucket, SymbolBook, since, ret}

-- The keys of the configuration.
pub record BurstCfg (F : Type 0) : Type 0 where
  pub stale_secs : ℕ
  pub cooldown_secs : ℕ
  pub ret_60s : F
  pub ret_120s : F
  pub vol_window_secs : ℕ
  pub baseline_secs : ℕ
  pub min_baseline_buckets : ℕ
  pub baseline_rth_only : Bool
  pub vol_mult_min : F
  pub extreme_secs : ℕ
  pub require_extreme : Bool

pub data BurstDirection : Type 0 where
  up_burst down_burst : BurstDirection

-- `Event`, without the symbol, the rule's name and the measures that it reports.
pub record BurstEvent (F : Type 0) : Type 0 where
  pub ts : ℕ
  pub direction : BurstDirection
  pub price : F
  pub new_extreme : Bool

abbrev middle : {A : Type 0} → ℕ → List A → Option A
middle n [] = none
middle zero (x ∷ xs) = some x
middle (suc n) (x ∷ xs) = middle n xs

-- `now - last_fire.get(symbol, -1e12) < cooldown`
abbrev pub is_cooling : ℕ → ℕ → Option ℕ → Bool
is_cooling cooldown now none = false
is_cooling cooldown now (some fired) = ltb now (fired + cooldown)

module _ {F : Type 0} ⦃num : Num F⦄ where
  open num use {add, sub, mul, div, is_lt, is_le, of_ℤ}

  unfoldable pub insert_f : F → List F → List F
  insert_f x [] = x ∷ []
  insert_f x (y ∷ ys) = if is_le x y then x ∷ y ∷ ys else y ∷ insert_f x ys

  unfoldable pub sort_f : List F → List F
  unfolding insert_f
  sort_f [] = []
  sort_f (x ∷ xs) = insert_f x (sort_f xs)

  abbrev or_zero : Option F → F
  or_zero none = zero_f
  or_zero (some x) = x

  -- `median` of a list that is not empty.
  unfoldable pub median : List F → F
  unfolding sort_f
  median xs =
      let sorted = sort_f xs in
      let n = length xs in
      let upper = or_zero (middle (n / 2) sorted) in
      if n % 2 == 1
      then upper
      else div (add (or_zero (middle (n / 2 - 1) sorted)) upper) (of_ℤ (pos 2))

  abbrev pub volumes : List (Bucket F) → List F
  volumes [] = []
  volumes (b ∷ bs) = b.volume ∷ volumes bs

  -- `sum` from the left
  abbrev pub sum_from : F → List F → F
  sum_from acc [] = acc
  sum_from acc (x ∷ xs) = sum_from (add acc x) xs

  -- `baseline_from_ts is None or b.ts >= baseline_from_ts`
  abbrev pub is_from : Option ℕ → Bucket F → Bool
  is_from none b = true
  is_from (some from) b = leb from (b.key * 5)

  abbrev pub baseline_of : Option ℕ → List (Bucket F) → List (Bucket F)
  baseline_of from [] = []
  baseline_of from (b ∷ bs) =
      let rest = baseline_of from bs in
      if is_lt zero_f b.volume && is_from from b then b ∷ rest else rest

  -- `vol_mult`
  unfoldable pub vol_mult : BurstCfg F → Option ℕ → ℕ → SymbolBook F → Option F
  unfolding since median
  vol_mult cfg from now book =
      let recent = since now cfg.vol_window_secs book.buckets in
      let base =
        volumes
          (baseline_of from (since (now - cfg.vol_window_secs) cfg.baseline_secs book.buckets)) in
      let per_bucket = median base in
      if is_empty recent || ltb (length base) cfg.min_baseline_buckets || is_le per_bucket zero_f
      then none
      else some (
          div (sum_from zero_f (volumes recent))
            (mul per_bucket (div (of_ℤ (pos cfg.vol_window_secs)) (of_ℤ (pos 5)))))

  -- `bs[:-1]` where the last bucket is the one of the time.
  abbrev pub without_current : ℕ → List (Bucket F) → List (Bucket F)
  without_current key [] = []
  without_current key (b ∷ []) = if b.key == key then [] else b ∷ []
  without_current key (b ∷ c ∷ bs) = b ∷ without_current key (c ∷ bs)

  abbrev pub high_low : F → F → List (Bucket F) → F × F
  high_low hi lo [] = (hi, lo)
  high_low hi lo (b ∷ bs) = high_low (max_f hi b.high) (min_f lo b.low) bs

  abbrev pub range_of : List (Bucket F) → Option (F × F)
  range_of [] = none
  range_of (b ∷ bs) = some (high_low b.high b.low bs)

  -- `extreme`
  unfoldable pub extreme : ℕ → ℕ → SymbolBook F → Option (F × F)
  unfolding since
  extreme now secs book = range_of (without_current (now / 5) (since now secs book.buckets))

  -- `r is not None and abs(r) >= threshold`
  abbrev pub reaches : F → Option F → Bool
  reaches threshold none = false
  reaches threshold (some r) = is_le threshold (abs_f r)

  abbrev pub sign_of : Option F → BurstDirection
  sign_of none = down_burst
  sign_of (some r) = if is_lt zero_f r then up_burst else down_burst

  -- The direction, from the returns of one minute and of two.
  abbrev pub burst_direction : BurstCfg F → Option F → Option F → Option BurstDirection
  burst_direction cfg r60 r120 =
      if reaches cfg.ret_60s r60
      then some (sign_of r60)
      else if reaches cfg.ret_120s r120
      then some (sign_of r120)
      else none

  abbrev pub is_new_extreme : BurstDirection → F → Option (F × F) → Bool
  is_new_extreme direction price none = false
  is_new_extreme up_burst price (some (hi, lo)) = is_le hi price
  is_new_extreme down_burst price (some (hi, lo)) = is_le price lo

  abbrev pub is_loud : BurstCfg F → Option F → Bool
  is_loud cfg none = false
  is_loud cfg (some vm) = not (is_lt vm cfg.vol_mult_min)

  abbrev pub burst_event : BurstDirection → ℕ → F → Bool → BurstEvent F
  burst_event direction now price new_ext = record {
    ts = now;
    direction = direction;
    price = price;
    new_extreme = new_ext;
  }

  -- The end of `evaluate`, from the direction.
  unfoldable pub burst_at :
      BurstCfg F → Option ℕ → ℕ → F → SymbolBook F → Option BurstDirection → Option (BurstEvent F)
  unfolding vol_mult extreme
  burst_at cfg open_ts now price book none = none
  burst_at cfg open_ts now price book (some direction) =
      let new_ext = is_new_extreme direction price (extreme now cfg.extreme_secs book) in
      if not (is_loud cfg (vol_mult cfg open_ts now book))
      then none
      else if cfg.require_extreme && not new_ext
      then none
      else some (burst_event direction now price new_ext)

  abbrev pub burst_of :
      BurstCfg F → ℕ → ℕ → SymbolBook F → Option ℕ → Option (ℕ × F) → Option (BurstEvent F)
  burst_of cfg open_ts now book last_fire none = none
  burst_of cfg open_ts now book last_fire (some (last_ts, price)) =
      if ltb cfg.stale_secs (now - last_ts) || is_cooling cfg.cooldown_secs now last_fire
      then none
      else burst_at cfg (if cfg.baseline_rth_only then some open_ts else none) now price book
          (burst_direction cfg (ret now 60 book) (ret now 120 book))

  -- `evaluate`, where the last event of the symbol was at `last_fire`.
  unfoldable pub evaluate_burst :
      BurstCfg F → ℕ → ℕ → SymbolBook F → Option ℕ → Option (BurstEvent F)
  unfolding ret burst_at
  evaluate_burst cfg open_ts now book last_fire = burst_of cfg open_ts now book last_fire book.last

abbrev pub fired_after : {F : Type 0} → Option (BurstEvent F) → Option ℕ → Option ℕ
fired_after none last_fire = last_fire
fired_after (some e) last_fire = some e.ts
