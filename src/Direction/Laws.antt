-- ===== src/Direction/Laws.antt =====
-- What the directional arithmetic of src/common/direction.py guarantees for both sides.
use news_pipeline.Base.{
  Bool, true, false, some, ◌≡◌, refl, ◌≢◌, ◌⊎◌, inl, inr, arith, Bool-cases, if◌then◌else◌,
}
use news_pipeline.Base.Int.{ℤ}
use news_pipeline.Num.{Num, IsFloat, ◌≤f◌, ◌<f◌, zero_f}
use news_pipeline.Direction.{
  Side, long, short, Bar, entry_intent, exit_intent, broker_side, winning_edge, stop_hit,
  is_tighter, watermark, signed, open_risk, dir_mult,
}

-- A closing order crosses the broker on the other side than the opening order of either book, and no
-- intent both opens and closes.
pub intents_oppose :
    (side : Side)
    → (broker_side (entry_intent side) ≢ broker_side (exit_intent side))
      × (entry_intent side ≢ exit_intent Side.long)
      × (entry_intent side ≢ exit_intent Side.short)
unfolding broker_side entry_intent exit_intent
intents_oppose long = (λ e. cc, λ e. cc, λ e. cc)
intents_oppose short = (λ e. cc, λ e. cc, λ e. cc)

module _ {F : Type 0} ⦃num : Num F⦄ where
  open num use {is_le}

  abbrev pub AtLeastAsGood : Side → F → F → Type 0
  AtLeastAsGood long new old = old ≤f new
  AtLeastAsGood short new old = new ≤f old

  -- Whether the stop still lies on the losing side of the entry, or on it.
  abbrev pub stop_behind_entry : Side → F → F → Bool
  stop_behind_entry long avg_entry stop = is_le stop avg_entry
  stop_behind_entry short avg_entry stop = is_le avg_entry stop

module _ {F : Type 0} ⦃num : Num F⦄ (law : IsFloat F) where
  open num use {is_lt, is_le, sub, mul, neg, of_ℤ}

  pub lt_irrefl : (a : F) → is_lt a a ≡ false
  lt_irrefl a = ground (arith, law.lt_not_ge a a, law.le_refl a)

  pub lt_trans : (a b c : F) → a <f b → b <f c → a <f c
  lt_trans a b c p q =
      ground (arith, law.lt_not_ge a c, law.lt_not_ge b c, law.le_of_lt a b p, law.le_trans c a b)

  -- Tightening is a strict order: no stop is tighter than itself, and ratchets compose.
  pub is_tighter_strict :
      (side : Side) (a b c : F)
      → is_tighter side a b ≡ true
      → is_tighter side b c ≡ true
      → (is_tighter side a c ≡ true) × (is_tighter side a a ≡ false)
  unfolding is_tighter
  is_tighter_strict long a b c p q = (lt_trans c b a q p, lt_irrefl a)
  is_tighter_strict short a b c p q = (lt_trans a b c p q, lt_irrefl a)

  -- A bar that touches a stop touches every tighter one.
  pub stop_hit-tighter :
      (side : Side) (bar : Bar F) (current proposed : F)
      → stop_hit side bar current ≡ true
      → is_tighter side proposed current ≡ true
      → stop_hit side bar proposed ≡ true
  unfolding stop_hit is_tighter
  stop_hit-tighter long bar current proposed h t =
      law.le_trans bar.low current proposed h (law.le_of_lt current proposed t)
  stop_hit-tighter short bar current proposed h t =
      law.le_trans proposed current bar.high (law.le_of_lt proposed current t) h

  pub le_of_not_lt : (a b : F) → is_lt a b ≡ false → b ≤f a
  le_of_not_lt a b h = ground (arith, law.lt_not_ge a b)

  -- The watermark is the old one or the bar's winning edge, and no worse than either of them.
  pub watermark_best :
      (side : Side) (current : F) (bar : Bar F)
      → AtLeastAsGood side (watermark side (some current) bar) current
        × AtLeastAsGood side (watermark side (some current) bar) (winning_edge side bar)
        × ((watermark side (some current) bar ≡ current)
            ⊎ (watermark side (some current) bar ≡ winning_edge side bar))
  unfolding watermark
  watermark_best long current bar = elim (Bool-cases (is_lt current bar.high)) [
    | inl above ↦ rw above (law.le_of_lt current bar.high above, law.le_refl bar.high, inr refl)
    | inr below ↦ rw below (law.le_refl current, le_of_not_lt current bar.high below, inl refl)
  ]
  watermark_best short current bar = elim (Bool-cases (is_lt bar.low current)) [
    | inl beneath ↦ rw beneath (law.le_of_lt bar.low current beneath, law.le_refl bar.low, inr refl)
    | inr above ↦ rw above (law.le_refl current, le_of_not_lt bar.low current above, inl refl)
  ]

  signed-sub :
      (side : Side) (e s : F) → is_le zero_f (signed side (sub e s)) ≡ stop_behind_entry side e s
  unfolding signed dir_mult
  signed-sub long e s = rw law.mul_one (law.sub_sign e s)
  signed-sub short e s = rw law.mul_minus_one (law.neg_sub e s)

  -- Per share, the heat of either book is the distance to a stop behind the entry, zero for a stop
  -- through it, and never negative.
  pub open_risk_lem :
      (side : Side) (e s : F) (qty : ℤ)
      → let per_share = if stop_behind_entry side e s then signed side (sub e s) else zero_f in
        (open_risk side e s qty ≡ mul per_share (of_ℤ qty)) × (zero_f ≤f per_share)
  unfolding open_risk
  open_risk_lem side e s qty = elim (Bool-cases (stop_behind_entry side e s)) [
    | inl behind ↦ ground (arith, signed-sub side e s, law.lt_not_ge (signed side (sub e s)) zero_f)
    | inr through ↦ ground (
      arith,
      signed-sub side e s,
      law.lt_not_ge (signed side (sub e s)) zero_f,
      law.le_refl zero_f,
    )
  ]
