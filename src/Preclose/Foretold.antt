-- ===== src/Preclose/Foretold.antt =====
-- What the look of src/c4_exec/engine.py before the close says about the pass after it.
use news_pipeline.Base.{
  ◌≤◌, Bool, true, false, not, ◌&&◌, ◌||◌, ◌≡◌, refl, ◌∙◌, Option, none, some, List, [], ◌∷◌, all,
  is_none, is_empty, arith, if◌then◌else◌, Bool-cases, inl, inr, All,
}
use news_pipeline.Num.{Num}
use news_pipeline.Engine.{FireAction, exit_fires}
use news_pipeline.Invalidation.{
  AnySpec, MipError, Checked, accepted, raised, Metric, close, low, high, last, vwap, volume_ratio,
  drawdown_r, ArmContext, MipBar, CompiledCond, CompiledPredicate, Lazy, lazy_vwap, lazy_day_open,
  session, same_tf, measure, target_of, eval_with, eval, eval_all, check, on_bar, peek, is_relevant,
}
use news_pipeline.Preclose.{
  with_fire, SessionBar, session_bar, collapsed, run_monitors, first_hit, preclose_hit,
  is_candidate, arm_one, arm_all,
}
use news_pipeline.Invalidation.Compile.{is_exit_action, compile_predicate}
use news_pipeline.Invalidation.Compile.Sound.{compile_predicate_sound}

-- The metrics that look at the extremes of a bar.
abbrev pub reads_range : Metric → Bool
reads_range close = false
reads_range last = false
reads_range vwap = false
reads_range volume_ratio = false
reads_range low = true
reads_range high = true
reads_range drawdown_r = true

module _ {F : Type 0} ⦃num : Num F⦄ where
  abbrev pub reads_close : CompiledCond F → Bool
  reads_close c = not (same_tf c.tf session && reads_range c.metric)

  -- An exit predicate whose conditions on the session do not look at the extremes.
  abbrev pub at_close : CompiledPredicate F → Bool
  at_close p = not (is_exit_action p.action) || all reads_close p.conds

  measure-collapsed :
      (c : CompiledCond F) (b : SessionBar F)
      → reads_range c.metric ≡ false
      → measure c (session_bar (collapsed b)) ≡ measure c (session_bar b)
  unfolding measure
  measure-collapsed c b h = ground arith

  target-collapsed :
      (lazy : Option Lazy) (value : Option F) (b : SessionBar F)
      → target_of lazy value (session_bar (collapsed b)) none
        ≡ target_of lazy value (session_bar b) none
  unfolding target_of
  target-collapsed none value b = refl
  target-collapsed (some lazy_vwap) value b = refl
  target-collapsed (some lazy_day_open) value b = refl

  eval-collapsed :
      (c : CompiledCond F) (b : SessionBar F)
      → reads_range c.metric ≡ false
      → eval c (session_bar (collapsed b)) none ≡ eval c (session_bar b) none
  unfolding eval
  eval-collapsed c b h = rw (measure-collapsed c b h, target-collapsed c.lazy_ref c.value b) refl

  eval_all-collapsed :
      (so_far : Bool) (cs : List (CompiledCond F)) (b : SessionBar F)
      → all reads_close cs ≡ true
      → eval_all so_far cs (session_bar (collapsed b)) none
        ≡ eval_all so_far cs (session_bar b) none
  unfolding eval_all
  eval_all-collapsed so_far [] b h = refl
  eval_all-collapsed so_far (c ∷ cs) b h = elim (Bool-cases (same_tf c.tf session)) [
    | inl at ↦ rw (eval-collapsed c b (ground (arith, h, at))) (
        rw
          (eval_all-collapsed
            (if so_far && same_tf c.tf session then (eval c (session_bar b) none).0 else so_far) cs
            b (ground (arith, h)))
          refl)
    | inr off ↦ ground (arith, off, eval_all-collapsed so_far cs b (ground (arith, h)))
  ]

  peek-collapsed :
      (p : CompiledPredicate F) (b : SessionBar F)
      → all reads_close p.conds ≡ true
      → peek p (session_bar (collapsed b)) none ≡ peek p (session_bar b) none
  unfolding peek check
  peek-collapsed p b h = rw (eval_all-collapsed true p.conds b h) refl

  -- A monitor whose fires need a streak fires where the look at the bar says so.
  on_bar_fires :
      (p : CompiledPredicate F) (bar : MipBar F) (opening : Option F)
      → 1 ≤ p.persist_bars
      → (on_bar p bar opening).1 ≡ (if peek p bar opening then some p.action else none)
  unfolding peek on_bar
  on_bar_fires p bar opening h = ground arith

  peek-is_relevant :
      (p : CompiledPredicate F) (bar : MipBar F) (opening : Option F)
      → (is_relevant p.conds bar.tf && peek p bar opening) ≡ peek p bar opening
  unfolding peek
  peek-is_relevant p bar opening = ground arith

  exit_fires-with_fire :
      (f : Bool) (action : FireAction F) (fires : List (FireAction F))
      → not (is_empty (exit_fires (with_fire (if f then some action else none) fires)))
        ≡ (is_exit_action action && f || not (is_empty (exit_fires fires)))
  unfolding exit_fires
  exit_fires-with_fire f action fires = ground arith

  pub IsPersistent : CompiledPredicate F → Type 0
  IsPersistent p = 1 ≤ p.persist_bars

  candidate-peek :
      (p : CompiledPredicate F) (b : SessionBar F)
      → at_close p ≡ true
      → (is_exit_action p.action && peek p (session_bar (collapsed b)) none)
        ≡ (is_candidate p && peek p (session_bar b) none)
  candidate-peek p b h = elim (Bool-cases (is_exit_action p.action)) [
    | inr other ↦ rw other refl
    | inl exits ↦
        let same = peek-collapsed p b (ground (arith, h, exits)) in
        ground (arith, exits, same, peek-is_relevant p (session_bar b) none)
  ]

  hit-fires :
      (ps : List (CompiledPredicate F)) (b : SessionBar F)
      → All IsPersistent ps
      → all at_close ps ≡ true
      → not (is_none (first_hit (session_bar b) ps))
        ≡ not (is_empty (exit_fires (run_monitors ps (session_bar (collapsed b))).1))
  unfolding first_hit run_monitors IsPersistent exit_fires
  hit-fires [] b lasting h = refl
  hit-fires (p ∷ ps) b (bars, lasting) h =
      let closing = session_bar (collapsed b) in
      let rest = (run_monitors ps closing).1 in
      rw (on_bar_fires p closing none bars) (
        rw (exit_fires-with_fire (peek p closing none) p.action rest) (
          ground (
            arith,
            candidate-peek p b (ground (arith, h)),
            hit-fires ps b lasting (ground (arith, h)),
          )))

  -- The minutes of a day.
  unfoldable pub see_bars :
      List (CompiledPredicate F) → List (MipBar F) → List (CompiledPredicate F)
  see_bars ps [] = ps
  see_bars ps (bar ∷ bars) = see_bars (run_monitors ps bar).0 bars

  arm_one-IsPersistent :
      (spec : AnySpec F) (ctx : ArmContext F) (rest : List (CompiledPredicate F) × List MipError)
      (result : Checked (CompiledPredicate F))
      → compile_predicate spec ctx ≡ result
      → All IsPersistent rest.0
      → All IsPersistent (arm_one result rest).0
  arm_one-IsPersistent spec ctx rest (raised code) e h = h
  arm_one-IsPersistent spec ctx rest (accepted p) e h =
      (unfold IsPersistent in (compile_predicate_sound spec ctx p e).3, h)

  pub arm_all-IsPersistent :
      (ctx : ArmContext F) (specs : List (AnySpec F)) → All IsPersistent (arm_all ctx specs).0
  unfolding arm_all
  arm_all-IsPersistent ctx [] = tt
  arm_all-IsPersistent ctx (spec ∷ specs) =
      arm_one-IsPersistent spec ctx (arm_all ctx specs) (compile_predicate spec ctx) refl
        (arm_all-IsPersistent ctx specs)

  -- What a bar leaves of a monitor.
  on_bar-keeps :
      (p : CompiledPredicate F) (bar : MipBar F) (opening : Option F)
      → ((on_bar p bar opening).0.persist_bars ≡ p.persist_bars)
        × ((on_bar p bar opening).0.action ≡ p.action)
  unfolding on_bar
  on_bar-keeps p bar opening = ground arith

  run_monitors-IsPersistent :
      (ps : List (CompiledPredicate F)) (bar : MipBar F)
      → All IsPersistent ps
      → All IsPersistent (run_monitors ps bar).0
  unfolding run_monitors IsPersistent
  run_monitors-IsPersistent [] bar h = tt
  run_monitors-IsPersistent (p ∷ ps) bar (bars, lasting) =
      (rw ((on_bar-keeps p bar none).0) bars, run_monitors-IsPersistent ps bar lasting)

  reads_close-eval :
      (c : CompiledCond F) (bar : MipBar F) (opening : Option F)
      → reads_close (eval c bar opening).1 ≡ reads_close c
  unfolding eval eval_with
  reads_close-eval c bar opening = ground arith

  reads_close-eval_all :
      (so_far : Bool) (cs : List (CompiledCond F)) (bar : MipBar F) (opening : Option F)
      → all reads_close (eval_all so_far cs bar opening).1 ≡ all reads_close cs
  unfolding eval_all
  reads_close-eval_all so_far [] bar opening = refl
  reads_close-eval_all so_far (c ∷ cs) bar opening =
      let here = so_far && same_tf c.tf bar.tf in
      let next = if here then (eval c bar opening).0 else so_far in
      ground (arith, reads_close-eval c bar opening, reads_close-eval_all next cs bar opening)

  at_close-on_bar :
      (p : CompiledPredicate F) (bar : MipBar F) (opening : Option F)
      → at_close (on_bar p bar opening).0 ≡ at_close p
  unfolding on_bar check
  at_close-on_bar p bar opening = ground (arith, reads_close-eval_all true p.conds bar opening)

  at_close-run_monitors :
      (ps : List (CompiledPredicate F)) (bar : MipBar F)
      → all at_close (run_monitors ps bar).0 ≡ all at_close ps
  unfolding run_monitors
  at_close-run_monitors [] bar = refl
  at_close-run_monitors (p ∷ ps) bar =
      rw (at_close-on_bar p bar none, at_close-run_monitors ps bar) refl

  pub foretold_after :
      (ps : List (CompiledPredicate F)) (bars : List (MipBar F)) (b : SessionBar F)
      → All IsPersistent ps
      → all at_close ps ≡ true
      → not (is_none (preclose_hit (see_bars ps bars) (some b)))
        ≡ not
            (is_empty (exit_fires (run_monitors (see_bars ps bars) (session_bar (collapsed b))).1))
  unfolding see_bars preclose_hit
  foretold_after ps [] b lasting h = hit-fires ps b lasting h
  foretold_after ps (bar ∷ bars) b lasting h =
      foretold_after (run_monitors ps bar).0 bars b (run_monitors-IsPersistent ps bar lasting)
        (at_close-run_monitors ps bar ∙ h)
