-- ===== src/Book/Reads.antt =====
-- What `price_at` of src/c12_burst/book.py finds.
use news_pipeline.Base.{
  ℕ, ◌/◌, ◌<◌, ◌≤◌, true, false, ◌≡◌, ◌∙◌, refl, Option, none, some, List, [], ◌∷◌, ◌++◌, ltb, leb,
  map, length, length-append, any, arith, if◌then◌else◌, is_none, Bool-cases, inl, inr, All, sym,
  subst, ◌==◌, ap,
}
use news_pipeline.Num.{Num, zero_f}
use news_pipeline.Book.{
  Bucket, SymbolBook, bucket_at, touch_key, new_bucket, bucketed, add_trade, add_trades, price_from,
  price_at,
}
use news_pipeline.Book.Order.{IsInOrder, IsOrdered, add_trades-IsOrdered}
use news_pipeline.Book.Keys.{IsAscending, with_bucket-appends}

module _ {F : Type 0} where
  -- The close of the last bucket in the list whose key is at most `k`, by a look at all of them.
  abbrev pub last_close : ℕ → Option F → List (Bucket F) → Option F
  last_close k best [] = best
  last_close k best (b ∷ bs) = last_close k (if leb b.key k then some b.close else best) bs

  last_close-above :
      (k : ℕ) (best : Option F) (n : ℕ) (bs : List (Bucket F))
      → k < n
      → All (λ c. n < Bucket.key c) bs
      → last_close k best bs ≡ best
  last_close-above k best n [] above h = refl
  last_close-above k best n (b ∷ bs) above h =
      let late : leb b.key k ≡ false = ground (arith, above, h.0) in
      rw late (last_close-above k best n bs above h.1)

  price_from-ascending :
      (k : ℕ) (best : Option F) (bs : List (Bucket F))
      → IsAscending bs
      → price_from k best bs ≡ last_close k best bs
  unfolding price_from
  price_from-ascending k best [] h = refl
  price_from-ascending k best (b ∷ bs) h = elim (Bool-cases (leb b.key k)) [
    | inl early ↦ rw early (price_from-ascending k (some b.close) bs h.1)
    | inr late ↦ rw late (sym (last_close-above k best b.key bs (ground (arith, late)) h.0))
  ]

  -- On ascending keys the price at a time is the close of the last bucket that is not after it, though
  -- the loop stops at the first that is.
  pub price_at-ascending :
      (ts : ℕ) (bs : List (Bucket F))
      → IsAscending bs
      → price_at ts bs ≡ last_close (ts / 5) none bs
  unfolding price_at
  price_at-ascending ts bs h = price_from-ascending (ts / 5) none bs h

  price_from-append :
      (k : ℕ) (best : Option F) (bs : List (Bucket F)) (b : Bucket F)
      → any (λ c. ltb k (Bucket.key c)) bs ≡ true
      → price_from k best (bs ++ b ∷ []) ≡ price_from k best bs
  unfolding price_from
  price_from-append k best [] b newer = absurd (ground (arith, newer))
  price_from-append k best (c ∷ bs) b newer = elim (Bool-cases (leb c.key k)) [
    | inl early ↦ rw early (price_from-append k (some c.close) bs b (ground (arith, early, newer)))
    | inr late ↦ rw late refl
  ]

module _ {F : Type 0} ⦃num : Num F⦄ where
  touched-absent :
      (k : ℕ) (price size : F) (bs : List (Bucket F))
      → is_none (bucket_at k bs) ≡ true
      → (b : Bucket F)
      → map (touch_key k price size) (bs ++ b ∷ []) ≡ bs ++ touch_key k price size b ∷ []
  touched-absent k price size [] new b = refl
  touched-absent k price size (c ∷ bs) new b = elim (Bool-cases (c.key == k)) [
    | inl own ↦ absurd (ground (arith, own, new))
    | inr other ↦ rw other (ap (λ cs. c ∷ cs) (touched-absent k price size bs (rw other at new) b))
  ]

  bucketed-late :
      (keep k : ℕ) (price : F) (bs : List (Bucket F))
      → length bs < keep
      → is_none (bucket_at k bs) ≡ true
      → bucketed keep k price bs ≡ bs ++ new_bucket k price ∷ []
  bucketed-late keep k price bs room new =
      let b = new_bucket k price in
      let fits : ltb keep (length (bs ++ b ∷ [])) ≡ false =
        ground (arith, room, length-append bs (b ∷ [])) in
      rw new (with_bucket-appends keep b bs (omega (arith, room)) ∙ rw fits refl)

  -- A trade that opens a bucket behind newer ones changes no price at a time before a newer bucket,
  -- its own included, where the book has room: the bucket comes last, and the loop stops before it.
  pub price_at-late :
      (at_ts ts : ℕ) (price size : F) (book : SymbolBook F)
      → length book.buckets < book.keep
      → is_none (bucket_at (ts / 5) book.buckets) ≡ true
      → any (λ c. ltb (at_ts / 5) (Bucket.key c)) book.buckets ≡ true
      → price_at at_ts (add_trade ts price size book).buckets ≡ price_at at_ts book.buckets
  unfolding price_at add_trade
  price_at-late at_ts ts price size book room new newer =
      let k = ts / 5 in
      let b = new_bucket k price in
      let late =
        ap (map (touch_key k price size)) (bucketed-late book.keep k price book.buckets room new)
        ∙ touched-absent k price size book.buckets new b in
      elim (Bool-cases (num.is_le price zero_f)) [
        | inl worthless ↦ rw worthless refl
        | inr priced ↦ rw priced (
            ap (price_from (at_ts / 5) none) late
            ∙ price_from-append (at_ts / 5) none book.buckets (touch_key k price size b) newer)
      ]

  -- After any trades that come in the order of their times a book that starts empty holds no more
  -- buckets than it keeps, which is at least one, and the price at any time is the close of the last
  -- bucket that is not after it.
  pub add_trades-price_at :
      (trades : List (ℕ × F × F)) (book : SymbolBook F) (from : ℕ)
      → 1 ≤ book.keep
      → IsInOrder from trades
      → book.buckets ≡ []
      → let after = add_trades trades book in
        (length after.buckets ≤ book.keep)
        × ((ts : ℕ) → price_at ts after.buckets ≡ last_close (ts / 5) none after.buckets)
  add_trades-price_at trades book from room ordered empty =
      let start : IsOrdered book.keep (from / 5) book.buckets =
        subst (IsOrdered book.keep (from / 5)) (sym empty) (tt, tt, omega arith) in
      let (last, (ascending, up_to, fits)) =
        add_trades-IsOrdered trades book from room ordered start in
      (fits, λ ts. price_at-ascending ts (add_trades trades book).buckets ascending)
