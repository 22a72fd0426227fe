-- ===== src/Examples/Monitors.antt =====
-- The theorems on machine invalidations, at a monitor of two bars.
use news_pipeline.Base.{
  any, ◌⊎◌, is_empty, ◌≤◌, ◌≡◌, refl, true, false, none, some, List, [], ◌∷◌, length, All,
}
use news_pipeline.Num.Fixed.{Fixed, fixed_num}
use news_pipeline.Engine.{exit_fire, guard_fire}
use news_pipeline.Invalidation.{
  check, eval_all, eval, measure, target_of, eval_with, holds, close, fifteen_min, session, lt,
  cross_below, prenews_price, ref, Spec, AnySpec, std, low, close_below_prenews, custom, ArmContext,
  lazy_day_open, CompiledCond, CompiledPredicate, MipBar, on_bar, peek,
}
use news_pipeline.Invalidation.Compile.{
  stdlib, action_ok, expand, validate, resolve, lookup_ref, compile_cond, compile_conds,
  compile_predicate,
}
use news_pipeline.Invalidation.Compile.Sound.{AreAbove, IsArmed, compile_predicate_sound}
use news_pipeline.Invalidation.Monitor.{Moment, watch, watch-one_fire}
use news_pipeline.Exits.{invalidation}
use news_pipeline.Exits.Priority.{closes}
use news_pipeline.Engine.{exit_fires, step_actions}
use news_pipeline.Mechanics.{rejected, Desk, Answers, execute_exit}
use news_pipeline.Preclose.{
  first_hit, SessionBar, no_exit, collapsed, session_bar, arm_context, arm_all, run_monitors,
  preclose_hit, preclose_position, after_exit, closing_tick,
}
use news_pipeline.Preclose.Foretold.{see_bars}
use news_pipeline.Preclose.Closes.{preclose_position-closes}
use news_pipeline.Examples.Samples.{cents, position}

-- Exit after two fifteen-minute closes below the pre-news price.
abbrev spec : Spec Fixed
spec = record {
  conds = record { metric = close; tf = fifteen_min; op = lt; value = ref prenews_price none } ∷ [];
  persist = 2;
  action = exit_fire;
}

abbrev context : ArmContext Fixed
context = record {
  entry_price = cents 1000;
  initial_stop = cents 900;
  r_unit = cents 100;
  prenews_price = some (cents 950);
  prior_day_low = none;
  prior_day_high = none;
  day_open = none;
  mark = some (cents 1000);
}

abbrev below : CompiledCond Fixed
below = record {
  metric = close;
  tf = fifteen_min;
  op = lt;
  value = some (cents 950);
  lazy_ref = none;
  entry_price = cents 1000;
  r_unit = cents 100;
  prev = none;
}

abbrev armed : CompiledPredicate Fixed
armed = record {
  conds = below ∷ [];
  persist_bars = 2;
  action = exit_fire;
  streak = 0;
  fired = false;
}

abbrev low_bar : MipBar Fixed
low_bar = record {
  tf = fifteen_min;
  high = cents 960;
  low = cents 930;
  close = cents 940;
  vwap = cents 945;
  volume_ratio = cents 100;
}

abbrev two_bars : List (Moment Fixed)
two_bars = record { bar = low_bar; opening = none } ∷ record { bar = low_bar; opening = none } ∷ []

-- A condition of the session, as it stood above its level, and as it stands below another.
abbrev above_session : CompiledCond Fixed
above_session = record below { tf = session; prev = some (cents 1100) }

abbrev below_session : CompiledCond Fixed
below_session = record below { tf = session; value = some (cents 2000); prev = some (cents 900) }

abbrev on_open : CompiledCond Fixed
on_open = record below { op = cross_below; value = none; lazy_ref = some lazy_day_open }

abbrev open_monitor : CompiledPredicate Fixed
open_monitor = record armed { conds = on_open ∷ []; persist_bars = 1; action = guard_fire }

-- The session so far: it has been at 9.30 and trades at 9.40, below the price before the news.
abbrev weak_session : SessionBar Fixed
weak_session = record {
  high = cents 1010;
  low = cents 930;
  close = cents 940;
  vwap = none;
  volume_ratio = none;
}

abbrev standard : List (AnySpec Fixed)
standard = std close_below_prenews [] ∷ []

abbrev held_context : ArmContext Fixed
held_context = arm_context position (cents 900) (some (cents 950)) (some (cents 1000))

abbrev bare_desk : Desk Fixed
bare_desk = record { rows = []; sold = 0; named_stop = none; guarded = none; held = 10 }

abbrev refused : Answers Fixed
refused = record {
  stop_cancelled = some true;
  stop_order = none;
  submission = rejected;
  polls = λ n. none;
  exit_cancelled = true;
  final = none;
  stop_placed = true;
}

-- An exit on the low of the session, which the pass before the close sees and the pass after it does
-- not.
abbrev on_low : CompiledPredicate Fixed
on_low = record armed { conds = record below { metric = low; tf = session } ∷ []; persist_bars = 1 }

abbrev recovered : SessionBar Fixed
recovered = record weak_session { close = cents 1000 }

low-seen_before :
    (preclose_hit (on_low ∷ []) (some recovered) ≡ some on_low)
    × (is_empty (run_monitors (on_low ∷ []) (session_bar (collapsed recovered))).1 ≡ true)
unfolding preclose_hit first_hit peek run_monitors on_bar check eval_all eval measure target_of
    eval_with holds
low-seen_before = (refl, refl)

preclose_position-closes_example :
    let ps = see_bars (arm_all held_context standard).0 (low_bar ∷ []) in
    let looked =
      preclose_position position held_context standard 45 1 refused
        (some weak_session)
        (record { monitors = some ps; desk = bare_desk }) in
    let closing = closing_tick weak_session 0 none ps in
    ((exit_fires closing.fires ≡ [])
      × (looked ≡ some (record { monitors = some ps; desk = bare_desk }, no_exit)))
    ⊎ ((is_empty (exit_fires closing.fires) ≡ false)
        × (any closes (step_actions position closing) ≡ true)
        × (looked
            ≡ after_exit ps
                (execute_exit position position.qty_open invalidation 45 1 refused bare_desk)))
unfolding arm_all compile_predicate validate expand compile_conds compile_cond resolve lookup_ref
    stdlib
preclose_position-closes_example =
    preclose_position-closes position held_context standard (low_bar ∷ []) weak_session bare_desk 45
      1 refused 0 none refl

compile_predicate_sound_example :
    All (IsArmed context) armed.conds
    × (1 ≤ length armed.conds)
    × (length armed.conds ≤ 3)
    × (1 ≤ armed.persist_bars)
    × (armed.persist_bars ≤ 10)
    × (action_ok armed.action ≡ true)
    × (AreAbove context.mark armed.action armed.conds)
    × (armed.streak ≡ 0)
    × (armed.fired ≡ false)
unfolding compile_predicate validate expand compile_conds compile_cond resolve lookup_ref
compile_predicate_sound_example = compile_predicate_sound (custom spec) context armed refl

watch-one_fire_example : (watch armed two_bars).1 ≤ 1
watch-one_fire_example = watch-one_fire armed two_bars
