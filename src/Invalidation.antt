-- ===== src/Invalidation.antt =====
-- src/common/invalidation_dsl.py: the monitors of machine invalidations, bar by bar.
mod Types
pub mod Compile
pub mod Monitor
pub mod Mixed
pub use Types.*
use news_pipeline.Base.{
  ℕ, zero, suc, ◌+◌, Bool, true, false, not, ◌&&◌, Option, none, some, List, [], ◌∷◌, leb, all, any,
  is_none, if◌then◌else◌,
}
use news_pipeline.Num.{Num}
use news_pipeline.Engine.{FireAction}

abbrev pub same_tf : Tf → Tf → Bool
same_tf one_min one_min = true
same_tf five_min five_min = true
same_tf fifteen_min fifteen_min = true
same_tf session session = true
same_tf _ _ = false

module _ {F : Type 0} ⦃num : Num F⦄ where
  open num use {sub, div, is_lt, is_le}

  -- The measured value of a condition at a bar.
  unfoldable pub measure : CompiledCond F → MipBar F → F
  measure c bar = elim c.metric [
    | drawdown_r ↦ div (sub c.entry_price bar.low) c.r_unit
    | volume_ratio ↦ bar.volume_ratio
    | close ↦ bar.close
    | last ↦ bar.close
    | low ↦ bar.low
    | high ↦ bar.high
    | vwap ↦ bar.vwap
  ]

  unfoldable pub target_of : Option Lazy → Option F → MipBar F → Option F → Option F
  target_of none value bar opening = value
  target_of (some lazy_vwap) value bar opening = some bar.vwap
  target_of (some lazy_day_open) value bar opening = opening

  abbrev crosses : (F → F → Bool) → Option F → F → Bool
  crosses was none target = false
  crosses was (some p) target = was p target

  unfoldable pub holds : Op → Option F → F → F → Bool
  holds lt prev m target = is_lt m target
  holds le prev m target = is_le m target
  holds gt prev m target = is_lt target m
  holds ge prev m target = is_le target m
  holds cross_below prev m target = crosses (λ p t. is_le t p) prev target && is_lt m target
  holds cross_above prev m target = crosses is_le prev target && is_lt target m

  -- `CompiledCond.eval`: with no target the condition fails and remembers nothing.
  unfoldable pub eval_with : CompiledCond F → F → Option F → Bool × CompiledCond F
  unfolding holds
  eval_with c m none = (false, c)
  eval_with c m (some target) = (holds c.op c.prev m target, record c { prev = some m })

  unfoldable pub eval : CompiledCond F → MipBar F → Option F → Bool × CompiledCond F
  unfolding measure target_of eval_with
  eval c bar opening = eval_with c (measure c bar) (target_of c.lazy_ref c.value bar opening)

  -- `all(c.eval(bar, day_open) for c in relevant)`, which stops at the first failure; the conditions
  -- of other timeframes are passed over.
  unfoldable pub eval_all :
      Bool → List (CompiledCond F) → MipBar F → Option F → Bool × List (CompiledCond F)
  eval_all so_far [] bar opening = (so_far, [])
  eval_all so_far (c ∷ cs) bar opening =
      let here = so_far && same_tf c.tf bar.tf in
      let (held, after) = eval c bar opening in
      let (result, rest) = eval_all (if here then held else so_far) cs bar opening in
      (result, (if here then after else c) ∷ rest)

  -- Some condition is at the bar's timeframe; every condition at another has a last value.
  abbrev pub is_relevant : List (CompiledCond F) → Tf → Bool
  is_relevant cs tf = any (λ c. same_tf c.tf tf) cs

  abbrev pub others_seen : List (CompiledCond F) → Tf → Bool
  others_seen cs tf = all (λ c. if same_tf c.tf tf then true else not (is_none c.prev)) cs

  -- The test of `on_bar` and `peek`, with the conditions as they are left.
  unfoldable pub check : List (CompiledCond F) → MipBar F → Option F → Bool × List (CompiledCond F)
  check cs bar opening =
      let (held, after) = eval_all true cs bar opening in (held && others_seen after bar.tf, after)

  unfoldable pub on_bar :
      CompiledPredicate F → MipBar F → Option F → CompiledPredicate F × Option (FireAction F)
  on_bar p bar opening =
      if p.fired
      then (p, none)
      else if not (is_relevant p.conds bar.tf)
      then (p, none)
      else (let (held, after) = check p.conds bar opening in
          let streak = if held then p.streak + 1 else 0 in
          let fires = leb p.persist_bars streak in
          (
            record p { conds = after; streak = streak; fired = fires },
            if fires then some p.action else none,
          ))

  unfoldable pub peek : CompiledPredicate F → MipBar F → Option F → Bool
  peek p bar opening =
      if p.fired
      then false
      else if not (is_relevant p.conds bar.tf)
      then false
      else (check p.conds bar opening).0 && leb p.persist_bars (p.streak + 1)
