-- ===== src/Invalidation/Monitor.antt =====
-- What a monitor of src/common/invalidation_dsl.py does over many bars.
use news_pipeline.Base.{
  ℕ, ◌+◌, ◌≤◌, Bool, true, false, not, ◌≡◌, Option, List, [], ◌∷◌, is_none, arith, length,
  if◌then◌else◌,
}
use news_pipeline.Num.{Num}
use news_pipeline.Invalidation.{MipBar, CompiledPredicate, on_bar, peek}

-- A bar with the day's open as it is known then.
pub record Moment (F : Type 0) : Type 0 where
  pub bar : MipBar F
  pub opening : Option F

flag_le : (b : Bool) → (if b then 1 else 0) ≤ 1
flag_le true = omega arith
flag_le false = omega arith

module _ {F : Type 0} ⦃num : Num F⦄ where
  -- The provisional look at a bar foretells what the bar does, where a fire needs a streak.
  pub peek-on_bar :
      (p : CompiledPredicate F) (bar : MipBar F) (opening : Option F)
      → 1 ≤ p.persist_bars
      → peek p bar opening ≡ not (is_none (on_bar p bar opening).1)
  unfolding peek on_bar
  peek-on_bar p bar opening h = ground arith

  -- The bars of a session, in order, with the number of fires.
  unfoldable pub watch : CompiledPredicate F → List (Moment F) → CompiledPredicate F × ℕ
  watch p [] = (p, 0)
  watch p (m ∷ ms) =
      let (p', fire) = on_bar p m.bar m.opening in
      let (final, later) = watch p' ms in (final, (if is_none fire then 0 else 1) + later)

  on_bar-fired :
      (p : CompiledPredicate F) (bar : MipBar F) (opening : Option F)
      → (if is_none (on_bar p bar opening).1 then 0 else 1) + (if p.fired then 1 else 0)
        ≤ (if (on_bar p bar opening).0.fired then 1 else 0)
  unfolding on_bar
  on_bar-fired p bar opening = ground arith

  watch-fired :
      (p : CompiledPredicate F) (ms : List (Moment F))
      → (watch p ms).1 + (if p.fired then 1 else 0) ≤ (if (watch p ms).0.fired then 1 else 0)
  unfolding watch
  watch-fired p [] = omega arith
  watch-fired p (m ∷ ms) =
      omega (arith, on_bar-fired p m.bar m.opening, watch-fired (on_bar p m.bar m.opening).0 ms)

  on_bar-streak :
      (p : CompiledPredicate F) (bar : MipBar F) (opening : Option F)
      → let (p', fire) = on_bar p bar opening in
        (p'.streak ≤ p.streak + 1)
        × (p'.persist_bars ≡ p.persist_bars)
        × ((if is_none fire then 0 else p.persist_bars) ≤ p.streak + 1)
  unfolding on_bar
  on_bar-streak p bar opening = ground arith

  -- Over any bars a monitor fires at most once, and not again once it has fired.
  pub watch-one_fire :
      (p : CompiledPredicate F) (ms : List (Moment F)) → (watch p ms).1 ≤ (if p.fired then 0 else 1)
  watch-one_fire p ms = ground (arith, watch-fired p ms, flag_le (watch p ms).0.fired)

  -- A fire needs as many bars as the condition must persist, less the streak that it starts with.
  pub watch-persists :
      (p : CompiledPredicate F) (ms : List (Moment F))
      → 1 ≤ (watch p ms).1
      → p.persist_bars ≤ p.streak + length ms
  unfolding watch
  watch-persists p [] h = absurd (omega arith)
  watch-persists p (m ∷ ms) h =
      ground
        (arith, on_bar-streak p m.bar m.opening, watch-persists (on_bar p m.bar m.opening).0 ms)
