-- ===== src/Invalidation/Mixed.antt =====
-- Conditions of src/common/invalidation_dsl.py at another timeframe than the bar's.
use news_pipeline.Base.{
  true, false, ◌≡◌, Option, none, some, List, [], ◌∷◌, arith, is_none, map, ◌≤◌, refl,
}
use news_pipeline.Num.{Num}
use news_pipeline.Invalidation.Monitor.{watch}
use news_pipeline.Invalidation.{
  CompiledCond, MipBar, CompiledPredicate, same_tf, eval, eval_all, check, on_bar, lazy_day_open,
}

module _ {F : Type 0} ⦃num : Num F⦄ where
  -- Whether a bar fires a predicate of two timeframes does not depend on the condition at the other
  -- timeframe, once that has been evaluated: neither its level nor its last value is looked at.
  pub on_bar-ignores_other :
      (p : CompiledPredicate F) (c d d' : CompiledCond F) (bar : MipBar F) (opening : Option F)
      → same_tf c.tf bar.tf ≡ true
      → same_tf d.tf bar.tf ≡ false
      → same_tf d'.tf bar.tf ≡ false
      → is_none d.prev ≡ false
      → is_none d'.prev ≡ false
      → (on_bar (record p { conds = c ∷ d ∷ [] }) bar opening).1
        ≡ (on_bar (record p { conds = c ∷ d' ∷ [] }) bar opening).1
  unfolding on_bar check eval_all
  on_bar-ignores_other p c d d' bar opening at off off' seen seen' = ground arith

module _ {F : Type 0} ⦃num : Num F⦄ where
  -- A predicate of one condition on the day's open.
  abbrev pub IsOpeningOnly : CompiledCond F → CompiledPredicate F → Type 0
  IsOpeningOnly c p = (p.conds ≡ c ∷ []) × (c.lazy_ref ≡ some lazy_day_open) × (1 ≤ p.persist_bars)

  on_bar-IsOpeningOnly :
      (c : CompiledCond F) (p : CompiledPredicate F) (bar : MipBar F)
      → IsOpeningOnly c p
      → IsOpeningOnly c (on_bar p bar none).0 × ((on_bar p bar none).1 ≡ none)
  unfolding on_bar check eval_all eval
  on_bar-IsOpeningOnly c p bar (conds, lazy, bars) = ground arith

  -- A monitor whose only condition is on the day's open never fires on bars that come without it.
  pub watch-opening_only :
      (c : CompiledCond F) (p : CompiledPredicate F) (bars : List (MipBar F))
      → IsOpeningOnly c p
      → (watch p (map (λ b. record { bar = b; opening = none }) bars)).1 ≡ 0
  unfolding watch
  watch-opening_only c p [] h = refl
  watch-opening_only c p (b ∷ bars) h =
      let (kept, silent) = on_bar-IsOpeningOnly c p b h in
      rw silent (omega (arith, watch-opening_only c (on_bar p b none).0 bars kept))
