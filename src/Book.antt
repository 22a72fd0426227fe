-- ===== src/Book.antt =====
-- src/c12_burst/book.py: the rolling buckets of one symbol's trades. A key counts five-second buckets, so
-- a time is a number of seconds; the flooring of the epoch is the division.
pub mod Keys
pub mod Order
pub mod Reads
use news_pipeline.Base.{
  ℕ, suc, ◌+◌, ◌-◌, ◌/◌, Bool, true, false, not, ◌&&◌, ◌==◌, ltb, leb, Option, none, some, List, [],
  ◌∷◌, ◌++◌, ◌*◌, map, length, if◌then◌else◌, is_none,
}
use news_pipeline.Base.Int.{pos}
use news_pipeline.Num.{Num, zero_f, truthy, max_f, min_f}

-- `Bucket`
pub record Bucket (F : Type 0) : Type 0 where
  pub key : ℕ
  pub first_price : F
  pub high : F
  pub low : F
  pub close : F
  pub volume : F
  pub trades : ℕ

-- `SymbolBook`: its buckets in the order of the dictionary, and the last price with its time.
pub record SymbolBook (F : Type 0) : Type 0 where
  pub keep : ℕ
  pub buckets : List (Bucket F)
  pub last : Option (ℕ × F)

-- Where the key that was put last is not the new one and the new one is older.
abbrev pub is_out_of_order : ℕ → Option ℕ → Bool
is_out_of_order key none = false
is_out_of_order key (some k) = not (k == key) && ltb key k

module _ {F : Type 0} where
  -- `self.buckets.get(key)`
  abbrev pub bucket_at : ℕ → List (Bucket F) → Option (Bucket F)
  bucket_at k [] = none
  bucket_at k (b ∷ bs) = if b.key == k then some b else bucket_at k bs

  -- `popitem(last=False)` where there are more than `keep`
  abbrev pub pop_first : List (Bucket F) → List (Bucket F)
  pop_first [] = []
  pop_first (b ∷ bs) = bs

  abbrev pub trim : ℕ → List (Bucket F) → List (Bucket F)
  trim keep bs = if ltb keep (length bs) then pop_first bs else bs

  -- The last key of a dictionary is at least `k`'s, or there is none.
  abbrev pub last_key : List (Bucket F) → Option ℕ
  last_key [] = none
  last_key (b ∷ []) = some b.key
  last_key (b ∷ c ∷ bs) = last_key (c ∷ bs)

  -- `sorted` by the keys, which are all different.
  unfoldable pub insert_sorted : Bucket F → List (Bucket F) → List (Bucket F)
  insert_sorted b [] = b ∷ []
  insert_sorted b (c ∷ cs) = if ltb b.key c.key then b ∷ c ∷ cs else c ∷ insert_sorted b cs

  unfoldable pub sort_keys : List (Bucket F) → List (Bucket F)
  unfolding insert_sorted
  sort_keys [] = []
  sort_keys (b ∷ bs) = insert_sorted b (sort_keys bs)

  -- The buckets with a bucket for a new key.
  unfoldable pub with_bucket : ℕ → Bucket F → List (Bucket F) → List (Bucket F)
  unfolding sort_keys
  with_bucket keep b bs =
      let kept = trim keep (bs ++ b ∷ []) in
      if ltb 1 (length kept) && is_out_of_order b.key (last_key kept) then sort_keys kept else kept

  -- The loop of `price_at`, with the best close so far.
  unfoldable pub price_from : ℕ → Option F → List (Bucket F) → Option F
  price_from k best [] = best
  price_from k best (b ∷ bs) = if leb b.key k then price_from k (some b.close) bs else best

  -- `price_at`
  unfoldable pub price_at : ℕ → List (Bucket F) → Option F
  unfolding price_from
  price_at ts bs = price_from (ts / 5) none bs

  -- `_since`
  unfoldable pub since : ℕ → ℕ → List (Bucket F) → List (Bucket F)
  since now secs [] = []
  since now secs (b ∷ bs) =
      let rest = since now secs bs in
      if ltb ((now - secs) / 5) b.key && leb b.key (now / 5) then b ∷ rest else rest

  -- `entry_after`: the open and the start of the first bucket that is late enough.
  unfoldable pub entry_after : ℕ → ℕ → List (Bucket F) → Option (F × ℕ)
  entry_after t0 delay_secs [] = none
  entry_after t0 delay_secs (b ∷ bs) =
      let rest = entry_after t0 delay_secs bs in
      if leb ((t0 + delay_secs) / 5) b.key then some (b.first_price, b.key * 5) else rest

module _ {F : Type 0} ⦃num : Num F⦄ where
  open num use {add, sub, div, is_lt, is_le, of_ℤ}

  abbrev pub touch : F → F → Bucket F → Bucket F
  touch price size b = record b {
    high = max_f b.high price;
    low = min_f b.low price;
    close = price;
    volume = add b.volume size;
    trades = suc b.trades;
  }

  abbrev pub touch_key : ℕ → F → F → Bucket F → Bucket F
  touch_key k price size b = if b.key == k then touch price size b else b

  abbrev pub new_bucket : ℕ → F → Bucket F
  new_bucket k price = record {
    key = k;
    first_price = price;
    high = price;
    low = price;
    close = price;
    volume = zero_f;
    trades = 0;
  }

  abbrev pub newer_price : ℕ → F → Option (ℕ × F) → Option (ℕ × F)
  newer_price ts price none = some (ts, price)
  newer_price ts price (some (last_ts, last_price)) =
      if leb last_ts ts then some (ts, price) else some (last_ts, last_price)

  abbrev pub bucketed : ℕ → ℕ → F → List (Bucket F) → List (Bucket F)
  bucketed keep k price bs =
      if is_none (bucket_at k bs) then with_bucket keep (new_bucket k price) bs else bs

  -- `add_trade`
  unfoldable pub add_trade : ℕ → F → F → SymbolBook F → SymbolBook F
  unfolding with_bucket
  add_trade ts price size book = if is_le price zero_f then book else record book {
    buckets = map (touch_key (ts / 5) price size) (bucketed book.keep (ts / 5) price book.buckets);
    last = newer_price ts price book.last;
  }

  unfoldable pub add_trades : List (ℕ × F × F) → SymbolBook F → SymbolBook F
  unfolding add_trade
  add_trades [] book = book
  add_trades ((ts, price, size) ∷ trades) book = add_trades trades (add_trade ts price size book)

  abbrev over_price : F → Option F → Option F
  over_price last_price none = none
  over_price last_price (some then_price) =
      if truthy then_price then some (sub (div last_price then_price) (of_ℤ (pos 1))) else none

  -- `ret`
  unfoldable pub ret : ℕ → ℕ → SymbolBook F → Option F
  unfolding price_at
  ret now secs book = elim book.last [
    | none ↦ none
    | some p ↦ over_price p.1 (price_at (now - secs) book.buckets)
  ]
