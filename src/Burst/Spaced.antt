-- ===== src/Burst/Spaced.antt =====
-- How often src/c12_burst/detect.py fires.
use news_pipeline.Base.{
  ℕ, ◌+◌, ◌-◌, ◌≤◌, true, false, not, ◌&&◌, ◌||◌, ltb, ◌≡◌, refl, Option, none, some, List, [], ◌∷◌,
  ◌++◌, arith, if◌then◌else◌, Bool-cases, inl, inr,
}
use news_pipeline.Num.{Num}
use news_pipeline.Book.{SymbolBook, ret}
use news_pipeline.Burst.{
  BurstCfg, BurstDirection, BurstEvent, burst_direction, burst_at, is_loud, is_new_extreme,
  vol_mult, extreme, is_cooling, burst_of, evaluate_burst, fired_after,
}

-- A pass of the detector over the book that a symbol has then.
pub record BurstPass (F : Type 0) : Type 0 where
  pub now : ℕ
  pub open_ts : ℕ
  pub book : SymbolBook F

-- The event comes no sooner than the cooldown after the one before.
abbrev pub IsCooled : ℕ → Option ℕ → ℕ → Type 0
IsCooled cooldown none ts = Unit
IsCooled cooldown (some fired) ts = fired + cooldown ≤ ts

abbrev pub IsSpaced : {F : Type 0} → ℕ → Option ℕ → List (BurstEvent F) → Type 0
IsSpaced cooldown last_fire [] = Unit
IsSpaced cooldown last_fire (e ∷ es) =
    IsCooled cooldown last_fire e.ts × IsSpaced cooldown (some e.ts) es

abbrev pub event_list : {F : Type 0} → Option (BurstEvent F) → List (BurstEvent F)
event_list none = []
event_list (some e) = e ∷ []

not_cooling-IsCooled :
    (cooldown now : ℕ) (last_fire : Option ℕ)
    → is_cooling cooldown now last_fire ≡ false
    → IsCooled cooldown last_fire now
not_cooling-IsCooled cooldown now none h = tt
not_cooling-IsCooled cooldown now (some fired) h = ground (arith, h)

module _ {F : Type 0} ⦃num : Num F⦄ (cfg : BurstCfg F) where
  -- The events of passes.
  unfoldable pub burst_run : List (BurstPass F) → Option ℕ → List (BurstEvent F)
  unfolding evaluate_burst
  burst_run [] last_fire = []
  burst_run (p ∷ ps) last_fire =
      let event = evaluate_burst cfg p.open_ts p.now p.book last_fire in
      event_list event ++ burst_run ps (fired_after event last_fire)

  -- What an event says of its pass.
  abbrev pub IsLoudEvent : ℕ → ℕ → SymbolBook F → BurstEvent F → Type 0
  IsLoudEvent open_ts now book e =
      (e.ts ≡ now)
      × (burst_direction cfg (ret now 60 book) (ret now 120 book) ≡ some e.direction)
      × (is_loud cfg (vol_mult cfg (if cfg.baseline_rth_only then some open_ts else none) now book)
          ≡ true)
      × (e.new_extreme ≡ is_new_extreme e.direction e.price (extreme now cfg.extreme_secs book))
      × ((not cfg.require_extreme || e.new_extreme) ≡ true)

  IsOutcome : ℕ → ℕ → SymbolBook F → Option ℕ → Option (BurstEvent F) → Type 0
  IsOutcome open_ts now book last_fire none = Unit
  IsOutcome open_ts now book last_fire (some e) =
      IsLoudEvent open_ts now book e × IsCooled cfg.cooldown_secs last_fire e.ts

  burst_at-IsOutcome :
      (open_ts now : ℕ) (price : F) (book : SymbolBook F) (last_fire : Option ℕ)
      (direction : Option BurstDirection)
      → burst_direction cfg (ret now 60 book) (ret now 120 book) ≡ direction
      → IsCooled cfg.cooldown_secs last_fire now
      → IsOutcome open_ts now book last_fire (
          burst_at cfg
            (if cfg.baseline_rth_only then some open_ts else none)
            now
            price
            book
            direction)
  unfolding burst_at IsOutcome
  burst_at-IsOutcome open_ts now price book last_fire none towards cool = tt
  burst_at-IsOutcome open_ts now price book last_fire (some d) towards cool =
      let from : Option ℕ = if cfg.baseline_rth_only then some open_ts else none in
      let new_ext = is_new_extreme d price (extreme now cfg.extreme_secs book) in
      elim (Bool-cases (is_loud cfg (vol_mult cfg from now book))) [
        | inr quiet ↦ rw quiet tt
        | inl loud ↦ elim (Bool-cases (cfg.require_extreme && not new_ext)) [
          | inl inside ↦ rw (loud, inside) tt
          | inr outside ↦
              rw (loud, outside) ((refl, towards, loud, refl, ground (arith, outside)), cool)
        ]
      ]

  burst_of-IsOutcome :
      (open_ts now : ℕ) (book : SymbolBook F) (last_fire : Option ℕ) (last : Option (ℕ × F))
      → IsOutcome open_ts now book last_fire (burst_of cfg open_ts now book last_fire last)
  burst_of-IsOutcome open_ts now book last_fire none = unfold IsOutcome in tt
  burst_of-IsOutcome open_ts now book last_fire (some (last_ts, price)) =
      elim (Bool-cases
        (ltb cfg.stale_secs (now - last_ts) || is_cooling cfg.cooldown_secs now last_fire)) [
          | inl waits ↦ rw waits (unfold IsOutcome in tt)
          | inr ready ↦ rw ready (
              burst_at-IsOutcome open_ts now price book last_fire
                (burst_direction cfg (ret now 60 book) (ret now 120 book)) refl
                (not_cooling-IsCooled cfg.cooldown_secs now last_fire (ground (arith, ready))))
        ]

  -- An event tells of its pass: the time, a direction that the returns have, the volume, and a new
  -- extreme where one is asked for; and it comes no sooner than the cooldown after the last one.
  evaluate_burst-IsOutcome :
      (open_ts now : ℕ) (book : SymbolBook F) (last_fire : Option ℕ)
      → IsOutcome open_ts now book last_fire (evaluate_burst cfg open_ts now book last_fire)
  unfolding evaluate_burst
  evaluate_burst-IsOutcome open_ts now book last_fire =
      burst_of-IsOutcome open_ts now book last_fire book.last

  event-IsSpaced :
      (open_ts now : ℕ) (book : SymbolBook F) (last_fire : Option ℕ) (event : Option (BurstEvent F))
      (rest : List (BurstEvent F))
      → IsOutcome open_ts now book last_fire event
      → IsSpaced cfg.cooldown_secs (fired_after event last_fire) rest
      → IsSpaced cfg.cooldown_secs last_fire (event_list event ++ rest)
  unfolding IsOutcome
  event-IsSpaced open_ts now book last_fire none rest h spaced = spaced
  event-IsSpaced open_ts now book last_fire (some e) rest h spaced = (h.1, spaced)

  -- Whatever trades the book of a symbol has taken at each pass, its events are at least a cooldown
  -- apart, and the first is a cooldown after the one before the passes.
  pub burst_run-IsSpaced :
      (ps : List (BurstPass F)) (last_fire : Option ℕ)
      → IsSpaced cfg.cooldown_secs last_fire (burst_run ps last_fire)
  unfolding burst_run
  burst_run-IsSpaced [] last_fire = tt
  burst_run-IsSpaced (p ∷ ps) last_fire =
      let event = evaluate_burst cfg p.open_ts p.now p.book last_fire in
      event-IsSpaced p.open_ts p.now p.book last_fire event
        (burst_run ps (fired_after event last_fire))
        (evaluate_burst-IsOutcome p.open_ts p.now p.book last_fire)
        (burst_run-IsSpaced ps (fired_after event last_fire))
