-- ===== src/Book/Order.antt =====
-- Trades that come in the order of their times, in src/c12_burst/book.py.
use news_pipeline.Base.{
  ℕ, ◌/◌, ◌≤◌, true, ◌≡◌, refl, List, [], ◌∷◌, ◌++◌, length, arith, is_none, Bool-cases, inl, inr,
  div_mono, sym, subst,
}
use news_pipeline.Num.{Num, zero_f}
use news_pipeline.Book.{
  Bucket, SymbolBook, bucket_at, with_bucket, new_bucket, bucketed, add_trade, add_trades,
}
use news_pipeline.Book.Keys.{
  IsAscending, IsUpTo, with_bucket-appends, append-All, append-IsAscending, trim-IsAscending,
  trim-IsUpTo, length-trim, new_key-below, weaken-IsUpTo, touched-All, touched-IsAscending,
  length-touched,
}

module _ {F : Type 0} where
  -- Ascending keys, none above the bound, and no more buckets than are kept.
  abbrev pub IsOrdered : ℕ → ℕ → List (Bucket F) → Type 0
  IsOrdered keep bound bs = IsAscending bs × IsUpTo bound bs × (length bs ≤ keep)

  -- The trades come in the order of their times, the first not before the bound.
  abbrev pub IsInOrder : ℕ → List (ℕ × F × F) → Type 0
  IsInOrder from [] = Unit
  IsInOrder from ((ts, price, size) ∷ trades) = (from ≤ ts) × IsInOrder ts trades

  with_bucket-IsOrdered :
      (keep bound : ℕ) (b : Bucket F) (bs : List (Bucket F))
      → 1 ≤ keep
      → bound ≤ b.key
      → is_none (bucket_at b.key bs) ≡ true
      → IsOrdered keep bound bs
      → IsOrdered keep b.key (with_bucket keep b bs)
  with_bucket-IsOrdered keep bound b bs room later new (ascending, up_to, fits) =
      subst (IsOrdered keep b.key) (sym (with_bucket-appends keep b bs room)) (
        trim-IsAscending keep (bs ++ b ∷ [])
            (append-IsAscending bs b ascending (new_key-below bound b.key bs later up_to new)),
        trim-IsUpTo keep b.key (bs ++ b ∷ []) (
            append-All (λ c. Bucket.key c ≤ b.key) bs b (weaken-IsUpTo bound b.key bs later up_to)
              (omega arith)),
        length-trim keep bs b fits,
      )

module _ {F : Type 0} ⦃num : Num F⦄ where
  bucketed-IsOrdered :
      (keep bound k : ℕ) (price : F) (bs : List (Bucket F))
      → 1 ≤ keep
      → bound ≤ k
      → IsOrdered keep bound bs
      → IsOrdered keep k (bucketed keep k price bs)
  bucketed-IsOrdered keep bound k price bs room later h =
      elim (Bool-cases (is_none (bucket_at k bs))) [
        | inl new ↦
            rw new (with_bucket-IsOrdered keep bound (new_bucket k price) bs room later new h)
        | inr there ↦ rw there (h.0, weaken-IsUpTo bound k bs later h.1, h.2)
      ]

  add_trade-IsOrdered :
      (ts : ℕ) (price size : F) (book : SymbolBook F) (bound : ℕ)
      → 1 ≤ book.keep
      → bound ≤ ts / 5
      → IsOrdered book.keep bound book.buckets
      → IsOrdered book.keep (ts / 5) (add_trade ts price size book).buckets
        × ((add_trade ts price size book).keep ≡ book.keep)
  unfolding add_trade
  add_trade-IsOrdered ts price size book bound room later h =
      let k = ts / 5 in
      let bs = bucketed book.keep k price book.buckets in
      let (ascending, up_to, fits) =
        bucketed-IsOrdered book.keep bound k price book.buckets room later h in
      elim (Bool-cases (num.is_le price zero_f)) [
        | inl worthless ↦
            rw worthless ((h.0, weaken-IsUpTo bound k book.buckets later h.1, h.2), refl)
        | inr priced ↦ rw priced (
          (
            touched-IsAscending k price size bs ascending,
            touched-All (λ n. n ≤ k) k price size bs up_to,
            subst (λ n. n ≤ book.keep) (sym (length-touched k price size bs)) fits,
          ),
          refl,
        )
      ]

  -- Trades that come in the order of their times leave the keys of the buckets ascending, and no more
  -- buckets than the book keeps, which is at least one.
  pub add_trades-IsOrdered :
      (trades : List (ℕ × F × F)) (book : SymbolBook F) (from : ℕ)
      → 1 ≤ book.keep
      → IsInOrder from trades
      → IsOrdered book.keep (from / 5) book.buckets
      → (last : ℕ) × IsOrdered book.keep last (add_trades trades book).buckets
  unfolding add_trades
  add_trades-IsOrdered [] book from room ordered h = (from / 5, h)
  add_trades-IsOrdered ((ts, price, size) ∷ trades) book from room ordered h =
      let after = add_trade ts price size book in
      let (step, kept) =
        add_trade-IsOrdered ts price size book (from / 5) room (div_mono from ts 5 ordered.0) h in
      subst (λ n. (last : ℕ) × IsOrdered n last (add_trades trades after).buckets) kept
        (add_trades-IsOrdered trades after ts (subst (λ n. 1 ≤ n) (sym kept) room) ordered.1
          (subst (λ n. IsOrdered n (ts / 5) after.buckets) (sym kept) step))
