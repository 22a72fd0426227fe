-- ===== src/Preclose.antt =====
-- src/c4_exec/engine.py: the arming of a position's monitors, the bars that they see, and the two looks
-- at the bar of the session: `preclose_invalidation_pass` before the close and `session_close_pass`
-- after it. What the broker answers and what the data source gives are arguments.
pub mod Foretold
pub mod Closes
use news_pipeline.Base.{
  ℕ, Bool, true, false, not, ◌&&◌, Option, none, some, List, [], ◌∷◌, any, if◌then◌else◌,
  default_to,
}
use news_pipeline.Base.Int.{pos}
use news_pipeline.Num.{Num}
use news_pipeline.Direction.{Bar}
use news_pipeline.Exits.{Position, ExitAction, invalidation}
use news_pipeline.Engine.{
  Outcome, filled, reinstated, catastrophe_filled, FireAction, Tick, EngineState, Applied, step,
}
use news_pipeline.Invalidation.{
  AnySpec, MipError, Checked, accepted, raised, ArmContext, MipBar, CompiledPredicate, session,
  same_tf, on_bar, peek,
}
use news_pipeline.Invalidation.Compile.{compile_predicate, is_exit_action}
use news_pipeline.Mechanics.{Answers, Desk, ExitEnd, ended, raised_at, execute_exit}

-- The session's bar as the data source gives it; `vwap` and `volume_ratio` may be missing.
pub record SessionBar (F : Type 0) : Type 0 where
  pub high : F
  pub low : F
  pub close : F
  pub vwap : Option F
  pub volume_ratio : Option F

-- The monitors that the engine holds for a position, where it has armed them, and its desk.
pub record Held (F : Type 0) : Type 0 where
  pub monitors : Option (List (CompiledPredicate F))
  pub desk : Desk F

-- What the look at one position does: it sends no exit, one with its outcome, or one that raises.
pub data Look : Type 0 where
  no_exit : Look
  sent : Outcome → Look
  look_raised : Look

abbrev pub with_fire :
    {F : Type 0} → Option (FireAction F) → List (FireAction F) → List (FireAction F)
with_fire none fires = fires
with_fire (some action) fires = action ∷ fires

module _ {F : Type 0} ⦃num : Num F⦄ where
  open num use {of_ℤ}

  -- The context of `arm`: the levels of the prior day and the day's open are never set.
  abbrev pub arm_context : Position F → F → Option F → Option F → ArmContext F
  arm_context p initial_stop prenews last_price = record {
    entry_price = p.avg_entry;
    initial_stop = initial_stop;
    r_unit = p.r_unit;
    prenews_price = prenews;
    prior_day_low = none;
    prior_day_high = none;
    day_open = none;
    mark = last_price;
  }

  -- The loop of `arm`: what compiles is kept, and each error is an event.
  abbrev pub arm_one :
      Checked (CompiledPredicate F)
      → List (CompiledPredicate F) × List MipError
      → List (CompiledPredicate F) × List MipError
  arm_one (raised code) (ps, failures) = (ps, code ∷ failures)
  arm_one (accepted p) (ps, failures) = (p ∷ ps, failures)

  unfoldable pub arm_all :
      ArmContext F → List (AnySpec F) → List (CompiledPredicate F) × List MipError
  arm_all ctx [] = ([], [])
  arm_all ctx (spec ∷ specs) = arm_one (compile_predicate spec ctx) (arm_all ctx specs)

  -- `arm`, which compiles once for each position.
  abbrev pub arm :
      ArmContext F
      → List (AnySpec F)
      → Option (List (CompiledPredicate F))
      → List (CompiledPredicate F)
  arm ctx specs none = (arm_all ctx specs).0
  arm ctx specs (some ps) = ps

  -- The loop of `step` over the monitors: how they are left, and the actions of the fires.
  unfoldable pub run_monitors :
      List (CompiledPredicate F) → MipBar F → List (CompiledPredicate F) × List (FireAction F)
  run_monitors [] bar = ([], [])
  run_monitors (p ∷ ps) bar =
      let (p', fire) = on_bar p bar none in
      let (ps', fires) = run_monitors ps bar in (p' ∷ ps', with_fire fire fires)

  -- The bar that the monitors see, with the defaults of both passes.
  abbrev pub session_bar : SessionBar F → MipBar F
  session_bar b = record {
    tf = session;
    high = b.high;
    low = b.low;
    close = b.close;
    vwap = default_to b.close b.vwap;
    volume_ratio = default_to (of_ℤ (pos 1)) b.volume_ratio;
  }

  -- `{**b, "high": b["close"], "low": b["close"], "tf": "session"}`
  abbrev pub collapsed : SessionBar F → SessionBar F
  collapsed b = record b { high = b.close; low = b.close }

  -- The exit predicates with a condition on the session.
  abbrev pub is_candidate : CompiledPredicate F → Bool
  is_candidate p = is_exit_action p.action && any (λ c. same_tf c.tf session) p.conds

  -- `next((p for p in candidates if p.peek(mip_bar)), None)`
  unfoldable pub first_hit : MipBar F → List (CompiledPredicate F) → Option (CompiledPredicate F)
  first_hit bar [] = none
  first_hit bar (p ∷ ps) =
      let rest = first_hit bar ps in if is_candidate p && peek p bar none then some p else rest

  unfoldable pub preclose_hit :
      List (CompiledPredicate F) → Option (SessionBar F) → Option (CompiledPredicate F)
  unfolding first_hit
  preclose_hit ps none = none
  preclose_hit ps (some b) = first_hit (session_bar b) ps

  -- The monitors go with the shares; an exception leaves the pass.
  abbrev pub after_exit : List (CompiledPredicate F) → Option (ExitEnd F) → Option (Held F × Look)
  after_exit ps none = none
  after_exit ps (some (raised_at desk)) =
      some (record { monitors = some ps; desk = desk }, look_raised)
  after_exit ps (some (ended filled desk)) =
      some (record { monitors = none; desk = desk }, sent filled)
  after_exit ps (some (ended catastrophe_filled desk)) =
      some (record { monitors = none; desk = desk }, sent catastrophe_filled)
  after_exit ps (some (ended reinstated desk)) =
      some (record { monitors = some ps; desk = desk }, sent reinstated)

  abbrev pub preclose_exit :
      Position F
      → ℕ
      → ℕ
      → Answers F
      → List (CompiledPredicate F)
      → Desk F
      → Option (CompiledPredicate F)
      → Option (Held F × Look)
  preclose_exit p max_secs sleep a ps desk none =
      some (record { monitors = some ps; desk = desk }, no_exit)
  preclose_exit p max_secs sleep a ps desk (some hit) =
      after_exit ps (execute_exit p p.qty_open invalidation max_secs sleep a desk)

  -- One position of `preclose_invalidation_pass`.
  unfoldable pub preclose_position :
      Position F
      → ArmContext F
      → List (AnySpec F)
      → ℕ
      → ℕ
      → Answers F
      → Option (SessionBar F)
      → Held F
      → Option (Held F × Look)
  unfolding preclose_hit
  preclose_position p ctx specs max_secs sleep a bar held =
      let ps = arm ctx specs held.monitors in
      preclose_exit p max_secs sleep a ps held.desk (preclose_hit ps bar)

  -- The tick of `session_close_pass` for `step`.
  abbrev pub closing_tick : SessionBar F → ℕ → Option F → List (CompiledPredicate F) → Tick F
  closing_tick b age minutes ps = record {
    bar = record { low = b.close; high = b.close; close = b.close };
    session_age = age;
    minutes_open = minutes;
    fires = (run_monitors ps (session_bar (collapsed b))).1;
  }

  -- One position of `session_close_pass`, with what `_apply` leaves and does.
  abbrev pub session_close :
      (ExitAction F → Outcome)
      → Position F
      → ℕ
      → Option F
      → List (CompiledPredicate F)
      → Option (SessionBar F)
      → Option (EngineState F × List Applied)
  session_close broker p age minutes ps none = none
  session_close broker p age minutes ps (some b) =
      some (step broker p (closing_tick b age minutes ps))
