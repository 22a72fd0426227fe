-- ===== src/Book/Keys.antt =====
-- The keys of the buckets of src/c12_burst/book.py.
use news_pipeline.Base.{
  ℕ, suc, ◌<◌, ◌≤◌, Bool, true, false, ◌&&◌, ◌==◌, ltb, ◌≡◌, refl, some, List, [], ◌∷◌, ◌++◌, map,
  length, arith, is_none, Bool-cases, inl, inr, All, length-append, ap, sym, subst,
}
use news_pipeline.Num.{Num}
use news_pipeline.Book.{Bucket, bucket_at, trim, last_key, is_out_of_order, with_bucket, touch_key}

in_order : (key : ℕ) → is_out_of_order key (some key) ≡ false
in_order key = ground arith

and_false : (b : Bool) → (b && false) ≡ false
and_false true = refl
and_false false = refl

module _ {F : Type 0} where
  abbrev pub keys : List (Bucket F) → List ℕ
  keys [] = []
  keys (b ∷ bs) = b.key ∷ keys bs

  pub last_key-append : (bs : List (Bucket F)) (b : Bucket F) → last_key (bs ++ b ∷ []) ≡ some b.key
  last_key-append [] b = refl
  last_key-append (c ∷ []) b = refl
  last_key-append (c ∷ d ∷ bs) b = last_key-append (d ∷ bs) b

  pub trim-last_key :
      (keep : ℕ) (b : Bucket F) (bs : List (Bucket F))
      → 1 ≤ keep
      → last_key (trim keep (bs ++ b ∷ [])) ≡ some b.key
  trim-last_key keep b [] room = ground (arith, room)
  trim-last_key keep b (c ∷ bs) room = elim (Bool-cases (ltb keep (length (c ∷ bs ++ b ∷ [])))) [
    | inl full ↦ rw full (last_key-append bs b)
    | inr fits ↦ rw fits (last_key-append (c ∷ bs) b)
  ]

  -- The bucket for a new key comes last, whatever the key: the branch that sorts is never taken.
  pub with_bucket-appends :
      (keep : ℕ) (b : Bucket F) (bs : List (Bucket F))
      → 1 ≤ keep
      → with_bucket keep b bs ≡ trim keep (bs ++ b ∷ [])
  unfolding with_bucket
  with_bucket-appends keep b bs room =
      let kept = trim keep (bs ++ b ∷ []) in
      let never : (ltb 1 (length kept) && is_out_of_order b.key (last_key kept)) ≡ false =
        rw (trim-last_key keep b bs room, in_order b.key) (and_false (ltb 1 (length kept))) in
      rw never refl

  -- Every key is below those that follow.
  abbrev pub IsAscending : List (Bucket F) → Type 0
  IsAscending [] = Unit
  IsAscending (b ∷ bs) = All (λ c. b.key < Bucket.key c) bs × IsAscending bs

  abbrev pub IsUpTo : ℕ → List (Bucket F) → Type 0
  IsUpTo k = All (λ b. Bucket.key b ≤ k)

  pub append-All :
      (P : Bucket F → Type 0) (bs : List (Bucket F)) (b : Bucket F)
      → All P bs
      → P b
      → All P (bs ++ b ∷ [])
  append-All P [] b h hb = (hb, tt)
  append-All P (c ∷ bs) b h hb = (h.0, append-All P bs b h.1 hb)

  pub append-IsAscending :
      (bs : List (Bucket F)) (b : Bucket F)
      → IsAscending bs
      → All (λ c. Bucket.key c < b.key) bs
      → IsAscending (bs ++ b ∷ [])
  append-IsAscending [] b h below = (tt, tt)
  append-IsAscending (c ∷ bs) b h below =
      (append-All (λ d. c.key < Bucket.key d) bs b h.0 below.0, append-IsAscending bs b h.1 below.1)

  pub trim-IsAscending :
      (keep : ℕ) (bs : List (Bucket F)) → IsAscending bs → IsAscending (trim keep bs)
  trim-IsAscending keep [] h = ground arith
  trim-IsAscending keep (b ∷ bs) h = elim (Bool-cases (ltb keep (length (b ∷ bs)))) [
    | inl full ↦ rw full h.1
    | inr fits ↦ rw fits h
  ]

  pub trim-IsUpTo : (keep k : ℕ) (bs : List (Bucket F)) → IsUpTo k bs → IsUpTo k (trim keep bs)
  trim-IsUpTo keep k [] h = ground arith
  trim-IsUpTo keep k (b ∷ bs) h = elim (Bool-cases (ltb keep (length (b ∷ bs)))) [
    | inl full ↦ rw full h.1
    | inr fits ↦ rw fits h
  ]

  pub length-trim :
      (keep : ℕ) (bs : List (Bucket F)) (b : Bucket F)
      → length bs ≤ keep
      → length (trim keep (bs ++ b ∷ [])) ≤ keep
  length-trim keep [] b h = ground (arith, h)
  length-trim keep (c ∷ bs) b h = ground (arith, h, length-append bs (b ∷ []))

  -- Keys up to `k` without `k` are below it, and below anything after.
  pub new_key-below :
      (bound k : ℕ) (bs : List (Bucket F))
      → bound ≤ k
      → IsUpTo bound bs
      → is_none (bucket_at k bs) ≡ true
      → All (λ c. Bucket.key c < k) bs
  new_key-below bound k [] later h new = tt
  new_key-below bound k (b ∷ bs) later h new = elim (Bool-cases (b.key == k)) [
    | inl same ↦ absurd (ground (arith, same, new))
    | inr other ↦
        (ground (arith, other, later, h.0), new_key-below bound k bs later h.1 (rw other at new))
  ]

  pub weaken-IsUpTo :
      (bound k : ℕ) (bs : List (Bucket F)) → bound ≤ k → IsUpTo bound bs → IsUpTo k bs
  weaken-IsUpTo bound k [] later h = tt
  weaken-IsUpTo bound k (b ∷ bs) later h =
      (omega (arith, later, h.0), weaken-IsUpTo bound k bs later h.1)

module _ {F : Type 0} ⦃num : Num F⦄ where
  pub touch_key-key :
      (k : ℕ) (price size : F) (b : Bucket F) → Bucket.key (touch_key k price size b) ≡ b.key
  touch_key-key k price size b = elim (Bool-cases (b.key == k)) [
    | inl own ↦ rw own refl
    | inr other ↦ rw other refl
  ]

  pub touched-All :
      (P : ℕ → Type 0) (k : ℕ) (price size : F) (bs : List (Bucket F))
      → All (λ b. P (Bucket.key b)) bs
      → All (λ b. P (Bucket.key b)) (map (touch_key k price size) bs)
  touched-All P k price size [] h = tt
  touched-All P k price size (b ∷ bs) h =
      (subst P (sym (touch_key-key k price size b)) h.0, touched-All P k price size bs h.1)

  pub touched-IsAscending :
      (k : ℕ) (price size : F) (bs : List (Bucket F))
      → IsAscending bs
      → IsAscending (map (touch_key k price size) bs)
  touched-IsAscending k price size [] h = tt
  touched-IsAscending k price size (b ∷ bs) h = (
    subst (λ n. All (λ c. n < Bucket.key c) (map (touch_key k price size) bs))
        (sym (touch_key-key k price size b)) (touched-All (λ n. b.key < n) k price size bs h.0),
    touched-IsAscending k price size bs h.1,
  )

  pub length-touched :
      (k : ℕ) (price size : F) (bs : List (Bucket F))
      → length (map (touch_key k price size) bs) ≡ length bs
  length-touched k price size [] = refl
  length-touched k price size (b ∷ bs) = ap (λ n. suc n) (length-touched k price size bs)
