-- ===== src/Invalidation/Compile.antt =====
-- `validate` and `compile_predicate` of src/common/invalidation_dsl.py.
pub mod Sound
use news_pipeline.Base.{
  ℕ, ◌≤◌, Bool, true, false, not, ◌&&◌, ◌||◌, ◌≡◌, refl, Option, none, some, List, [], ◌∷◌, leb,
  all, any, length, is_none, default_to, arith, if◌then◌else◌, All,
}
use news_pipeline.Base.Int.{pos}
use news_pipeline.Num.{Num, zero_f, abs_f}
use news_pipeline.Engine.{
  TightenTo, to_breakeven, to_atr, FireAction, exit_fire, tighten_fire, guard_fire,
}
use news_pipeline.Invalidation.{
  Metric, close, low, high, last, vwap, volume_ratio, drawdown_r, Tf, one_min, five_min,
  fifteen_min, session, Op, lt, le, gt, ge, cross_below, cross_above, Ref, prenews_price,
  entry_price, initial_stop, prior_day_low, prior_day_high, day_open, vwap_ref, Value, literal, ref,
  Cond, Spec, Std, close_below_prenews, session_close_below_prior_low, close_above_prenews,
  session_close_above_prior_high, vwap_loss_on_volume, give_back_from_entry, break_of_day_open,
  Param, vol_mult, r_param, AnySpec, std, custom, MipError, schema, unresolvable_ref, absurd_level,
  immediate_fire, Checked, accepted, raised, ◌>>=◌, ◌>>◌, require, ArmContext, Lazy, lazy_vwap,
  lazy_day_open, CompiledCond, CompiledPredicate, same_tf,
}

abbrev pub is_price_metric : Metric → Bool
is_price_metric close = true
is_price_metric low = true
is_price_metric high = true
is_price_metric last = true
is_price_metric vwap = false
is_price_metric volume_ratio = false
is_price_metric drawdown_r = false

abbrev pub is_close_metric : Metric → Bool
is_close_metric close = true
is_close_metric last = true
is_close_metric low = false
is_close_metric high = false
is_close_metric vwap = false
is_close_metric volume_ratio = false
is_close_metric drawdown_r = false

abbrev pub is_below : Op → Bool
is_below lt = true
is_below le = true
is_below gt = false
is_below ge = false
is_below cross_below = false
is_below cross_above = false

-- Whether a standard predicate has the parameter.
abbrev has_param : Std → Param → Bool
has_param vwap_loss_on_volume vol_mult = true
has_param give_back_from_entry r_param = true
has_param _ _ = false

module _ {F : Type 0} ⦃num : Num F⦄ where
  open num use {of_ℤ, lit, add, sub, mul, neg, is_lt, is_le}

  abbrev cond_at : Metric → Tf → Op → Value F → Cond F
  cond_at m tf op v = record { metric = m; tf = tf; op = op; value = v }

  abbrev exit_on : Cond F → Spec F
  exit_on c = record { conds = c ∷ []; persist = 1; action = exit_fire }

  -- `STDLIB`, with the parameters that a call may set, by their `_params` paths.
  unfoldable pub stdlib : Std → F → F → Spec F
  stdlib close_below_prenews v r = exit_on (cond_at close session lt (ref prenews_price none))
  stdlib session_close_below_prior_low v r =
      exit_on (cond_at close session lt (ref prior_day_low none))
  stdlib close_above_prenews v r = exit_on (cond_at close session gt (ref prenews_price none))
  stdlib session_close_above_prior_high v r =
      exit_on (cond_at close session gt (ref prior_day_high none))
  stdlib vwap_loss_on_volume v r = record {
    conds =
        cond_at close fifteen_min lt (ref vwap_ref none)
        ∷ cond_at volume_ratio fifteen_min gt (literal v)
        ∷ [];
    persist = 2;
    action = tighten_fire to_breakeven;
  }
  stdlib give_back_from_entry v r = record {
    conds = cond_at drawdown_r five_min ge (literal r) ∷ [];
    persist = 1;
    action = guard_fire;
  }
  stdlib break_of_day_open v r = record {
    conds = cond_at close fifteen_min cross_below (ref day_open none) ∷ [];
    persist = 1;
    action = guard_fire;
  }

  -- The value that a call's parameters leave for one name, the last one that is set.
  abbrev param_or : F → Param → List (Param × F) → F
  param_or d vol_mult [] = d
  param_or d vol_mult ((vol_mult, v) ∷ ps) = param_or v vol_mult ps
  param_or d vol_mult ((r_param, v) ∷ ps) = param_or d vol_mult ps
  param_or d r_param [] = d
  param_or d r_param ((r_param, v) ∷ ps) = param_or v r_param ps
  param_or d r_param ((vol_mult, v) ∷ ps) = param_or d r_param ps

  unfoldable pub expand : AnySpec F → Checked (Spec F)
  unfolding stdlib
  expand (custom spec) = accepted spec
  expand (std name params) = do
    require (all (λ q. has_param name q.0) params) schema
    accepted
        (stdlib name (param_or (lit 15 1) vol_mult params) (param_or (lit 75 2) r_param params))

  -- `_validate_cond`: what is left of it is the range of an offset.
  abbrev pub offset_ok : Option F → Bool
  offset_ok none = true
  offset_ok (some off) = is_le (neg (lit 2 1)) off && is_le off (lit 2 1)

  abbrev pub cond_ok : Value F → Bool
  cond_ok (literal v) = true
  cond_ok (ref r off) = offset_ok off

  abbrev pub action_ok : FireAction F → Bool
  action_ok exit_fire = true
  action_ok guard_fire = true
  action_ok (tighten_fire to_breakeven) = true
  action_ok (tighten_fire (to_atr k)) = is_lt zero_f k && is_le k (of_ℤ (pos 3))

  unfoldable pub validate : AnySpec F → Checked (Spec F)
  unfolding expand
  validate any_spec = do
    spec ← expand any_spec
    require (leb 1 (length spec.conds) && leb (length spec.conds) 3) schema
    require (all (λ c. cond_ok c.value) spec.conds) schema
    require (leb 1 spec.persist && leb spec.persist 10) schema
    require (action_ok spec.action) schema
    accepted spec

  -- `getattr(ctx, ref, None)`
  unfoldable pub lookup_ref : ArmContext F → Ref → Option F
  lookup_ref ctx prenews_price = ctx.prenews_price
  lookup_ref ctx entry_price = some ctx.entry_price
  lookup_ref ctx initial_stop = some ctx.initial_stop
  lookup_ref ctx prior_day_low = ctx.prior_day_low
  lookup_ref ctx prior_day_high = ctx.prior_day_high
  lookup_ref ctx day_open = ctx.day_open
  lookup_ref ctx vwap_ref = none

  abbrev with_offset : Option F → Option F → Checked (Option F × Option Lazy)
  with_offset none off = raised unresolvable_ref
  with_offset (some raw) off =
      accepted (some (mul raw (add (of_ℤ (pos 1)) (default_to zero_f off))), none)

  -- `_resolve`
  unfoldable pub resolve : Value F → ArmContext F → Checked (Option F × Option Lazy)
  unfolding lookup_ref
  resolve (literal v) ctx = accepted (some v, none)
  resolve (ref vwap_ref off) ctx = accepted (none, some lazy_vwap)
  resolve (ref day_open off) ctx = elim ctx.day_open [
    | none ↦ accepted (none, some lazy_day_open)
    | some v ↦ with_offset (some v) off
  ]
  resolve (ref prenews_price off) ctx = with_offset (lookup_ref ctx prenews_price) off
  resolve (ref entry_price off) ctx = with_offset (lookup_ref ctx entry_price) off
  resolve (ref initial_stop off) ctx = with_offset (lookup_ref ctx initial_stop) off
  resolve (ref prior_day_low off) ctx = with_offset (lookup_ref ctx prior_day_low) off
  resolve (ref prior_day_high off) ctx = with_offset (lookup_ref ctx prior_day_high) off

  -- A price level is positive and within half of the entry price.
  abbrev pub plausible : Metric → Option F → F → Bool
  plausible m none entry = true
  plausible m (some v) entry =
      if is_price_metric m
      then not (is_le v zero_f || is_lt (mul (lit 5 1) entry) (abs_f (sub v entry)))
      else true

  unfoldable pub compile_cond : ArmContext F → Cond F → Checked (CompiledCond F)
  unfolding resolve
  compile_cond ctx c = do
    resolved ← resolve c.value ctx
    require (plausible c.metric resolved.0 ctx.entry_price) absurd_level
    accepted (record {
      metric = c.metric;
      tf = c.tf;
      op = c.op;
      value = resolved.0;
      lazy_ref = resolved.1;
      entry_price = ctx.entry_price;
      r_unit = ctx.r_unit;
      prev = none;
    })

  unfoldable pub compile_conds : ArmContext F → List (Cond F) → Checked (List (CompiledCond F))
  unfolding compile_cond
  compile_conds ctx [] = accepted []
  compile_conds ctx (c ∷ cs) = do
    compiled ← compile_cond ctx c
    rest ← compile_conds ctx cs
    accepted (compiled ∷ rest)

  abbrev pub is_exit_action : FireAction F → Bool
  is_exit_action exit_fire = true
  is_exit_action guard_fire = false
  is_exit_action (tighten_fire to) = false

  -- A literal close level that the mark has already passed.
  abbrev pub already_passed : F → Metric → Op → Option F → Bool
  already_passed mark m op none = false
  already_passed mark m op (some v) = is_close_metric m && (is_below op && is_le mark v)

  abbrev pub fires_at_once : Option F → FireAction F → List (CompiledCond F) → Bool
  fires_at_once none action cs = false
  fires_at_once (some mark) action cs =
      is_exit_action action && any (λ c. already_passed mark c.metric c.op c.value) cs

  unfoldable pub compile_predicate : AnySpec F → ArmContext F → Checked (CompiledPredicate F)
  unfolding validate compile_conds
  compile_predicate any_spec ctx = do
    spec ← validate any_spec
    conds ← compile_conds ctx spec.conds
    require (not (fires_at_once ctx.mark spec.action conds)) immediate_fire
    accepted (record {
      conds = conds;
      persist_bars = if all (λ c. same_tf c.tf session) conds then 1 else spec.persist;
      action = spec.action;
      streak = 0;
      fired = false;
    })
