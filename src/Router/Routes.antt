-- ===== src/Router/Routes.antt =====
-- Which queues a routing decision of src/router/rules.py reaches.
use news_pipeline.Base.{Bool, true, false, not, ◌&&◌, ◌≡◌, List, is_empty, arith, All, any, is_none}
use news_pipeline.Base.Int.{pos, ◌≤ℤ◌}
use news_pipeline.Num.{Num}
use news_pipeline.Router.{
  QueueName, guard_queue, thesis_queue, analyst_queue, overnight_queue, Route, Triage, Facts,
  Levers, route,
}

abbrev same_queue : QueueName → QueueName → Bool
same_queue guard_queue guard_queue = true
same_queue thesis_queue thesis_queue = true
same_queue analyst_queue analyst_queue = true
same_queue overnight_queue overnight_queue = true
same_queue _ _ = false

-- Whether a list of routes has one to the queue.
abbrev pub reaches : QueueName → List Route → Bool
reaches q = any (λ r. same_queue q r.queue)

-- An untagged route to the queue.
abbrev pub reaches_live : QueueName → List Route → Bool
reaches_live q = any (λ r. same_queue q r.queue && is_none r.origin)

module _ {F : Type 0} ⦃num : Num F⦄ where
  open num use {is_lt}

  abbrev pub is_material : Triage F → Levers F → Bool
  is_material t l = t.material && not (is_lt t.confidence l.min_confidence)

  -- The guard hears of a signal exactly if it touches an open position, whatever the verdict.
  pub route-guard :
      (t : Triage F) (facts : Facts) (l : Levers F)
      → reaches guard_queue (route t facts l).routes ≡ not (is_empty facts.position_ids)
  unfolding route
  route-guard t facts l = ground arith

  -- The live analyst route is taken exactly by material signals with a ticker in market hours; the
  -- overnight route exactly by those outside them.
  pub route-session :
      (t : Triage F) (facts : Facts) (l : Levers F)
      → (reaches_live analyst_queue (route t facts l).routes
          ≡ (is_material t l && (not (is_empty t.tickers) && facts.market_open)))
        × (reaches overnight_queue (route t facts l).routes
            ≡ (is_material t l && (not (is_empty t.tickers) && not facts.market_open)))
  unfolding route
  route-session t facts l = ground arith

  -- No route has a negative priority.
  pub route-priority_nonneg :
      (t : Triage F) (facts : Facts) (l : Levers F)
      → All (λ r. pos 0 ≤ℤ r.priority) (route t facts l).routes
  unfolding route
  route-priority_nonneg t facts l = ground arith
