-- ===== src/Invalidation/Compile/Sound.antt =====
-- What a predicate that compiles is known to satisfy.
use news_pipeline.Base.{
  ℕ, suc, ◌≤◌, Bool, true, false, not, ◌&&◌, ◌≡◌, refl, none, Option, some, List, [], ◌∷◌, leb, all,
  any, length, arith, if◌then◌else◌, All, ap, ◌⊎◌, inl, inr, Bool-cases,
}
use news_pipeline.Num.{Num}
use news_pipeline.Engine.{FireAction, exit_fire, guard_fire, tighten_fire}
use news_pipeline.Invalidation.{
  Metric, Op, Cond, Spec, AnySpec, accepted, bind_accepted, require-accepted, schema, absurd_level,
  immediate_fire, ArmContext, CompiledCond, CompiledPredicate, same_tf, session,
}
use news_pipeline.Invalidation.Compile.{
  expand, validate, cond_ok, action_ok, plausible, compile_cond, compile_conds, fires_at_once,
  compile_predicate, resolve, is_close_metric, is_below, already_passed,
}

accepted-injective : {A : Type 0} {a b : A} → accepted a ≡ accepted b → a ≡ b
accepted-injective h = cc

not-true : (b : Bool) → not b ≡ true → b ≡ false
not-true b h = ground arith

range-le : (lo n hi : ℕ) → (leb lo n && leb n hi) ≡ true → (lo ≤ n) × (n ≤ hi)
range-le lo n hi h = ground arith

persist-range :
    (b : Bool) (n : ℕ) → 1 ≤ n → n ≤ 10 → (1 ≤ (if b then 1 else n)) × ((if b then 1 else n) ≤ 10)
persist-range b n h k = ground arith

module _ {F : Type 0} ⦃num : Num F⦄ where
  open num use {is_le}

  -- A legal specification: one to three conditions with offsets in range, one to ten bars, and an
  -- action whose trail factor is in range.
  abbrev pub IsLegal : Spec F → Type 0
  IsLegal spec =
      (1 ≤ length spec.conds)
      × (length spec.conds ≤ 3)
      × (all (λ c. cond_ok c.value) spec.conds ≡ true)
      × (1 ≤ spec.persist)
      × (spec.persist ≤ 10)
      × (action_ok spec.action ≡ true)

  validate-IsLegal :
      (any_spec : AnySpec F) (spec : Spec F) → validate any_spec ≡ accepted spec → IsLegal spec
  unfolding validate
  validate-IsLegal any_spec spec h =
      let (base, e, k) = bind_accepted (expand any_spec) _ h in
      let (count, k1) =
        require-accepted (leb 1 (length base.conds) && leb (length base.conds) 3) schema _ k in
      let (values, k2) = require-accepted (all (λ c. cond_ok c.value) base.conds) schema _ k1 in
      let (bars, k3) = require-accepted (leb 1 base.persist && leb base.persist 10) schema _ k2 in
      let (action, k4) = require-accepted (action_ok base.action) schema _ k3 in
      let e' : base ≡ spec = accepted-injective k4 in
      rw (← e') (
        (range-le 1 (length base.conds) 3 count).0,
        (range-le 1 (length base.conds) 3 count).1,
        values,
        (range-le 1 base.persist 10 bars).0,
        (range-le 1 base.persist 10 bars).1,
        action,
      )

  -- A compiled condition: its level is plausible, it starts with no memory, and it is armed at the
  -- entry of the position.
  abbrev pub IsArmed : ArmContext F → CompiledCond F → Type 0
  IsArmed ctx c =
      (plausible c.metric c.value ctx.entry_price ≡ true)
      × (c.prev ≡ none)
      × (c.entry_price ≡ ctx.entry_price)

  compile_cond-IsArmed :
      (ctx : ArmContext F) (c : Cond F) (c' : CompiledCond F)
      → compile_cond ctx c ≡ accepted c'
      → IsArmed ctx c'
  unfolding compile_cond
  compile_cond-IsArmed ctx c c' h =
      let (resolved, e, k) = bind_accepted (resolve c.value ctx) _ h in
      let (level, k1) =
        require-accepted (plausible c.metric resolved.0 ctx.entry_price) absurd_level _ k in
      let e' : _ ≡ c' = accepted-injective k1 in rw (← e') (level, refl, refl)

  compile_conds-IsArmed :
      (ctx : ArmContext F) (cs : List (Cond F)) (cs' : List (CompiledCond F))
      → compile_conds ctx cs ≡ accepted cs'
      → All (IsArmed ctx) cs' × (length cs' ≡ length cs)
  unfolding compile_conds
  compile_conds-IsArmed ctx [] cs' h =
      let e' : [] ≡ cs' = accepted-injective h in rw (← e') (tt, refl)
  compile_conds-IsArmed ctx (c ∷ cs) cs' h =
      let (c', e, k) = bind_accepted (compile_cond ctx c) _ h in
      let (rest, e', k') = bind_accepted (compile_conds ctx cs) _ k in
      let (armed, size) = compile_conds-IsArmed ctx cs rest e' in
      let e'' : (c' ∷ rest) ≡ cs' = accepted-injective k' in
      rw (← e'') ((compile_cond-IsArmed ctx c c' e, armed), ap suc size)

  -- The mark is above a literal level that the close or the last price is to fall below, or reach from
  -- above; of any other condition nothing is said.
  abbrev pub IsAbove : F → Metric → Op → Option F → Type 0
  IsAbove mark m op none = Unit
  IsAbove mark m op (some v) =
      (is_close_metric m ≡ false) ⊎ (is_below op ≡ false) ⊎ (is_le mark v ≡ false)

  -- Every condition of an exit, where the mark is known, has it above its level.
  abbrev pub AreAbove : Option F → FireAction F → List (CompiledCond F) → Type 0
  AreAbove none action cs = Unit
  AreAbove (some mark) exit_fire cs = All (λ c. IsAbove mark c.metric c.op c.value) cs
  AreAbove (some mark) guard_fire cs = Unit
  AreAbove (some mark) (tighten_fire to) cs = Unit

  passed-IsAbove :
      (mark : F) (m : Metric) (op : Op) (value : Option F)
      → already_passed mark m op value ≡ false
      → IsAbove mark m op value
  passed-IsAbove mark m op none h = tt
  passed-IsAbove mark m op (some v) h = elim (Bool-cases (is_close_metric m)) [
    | inr other ↦ inl other
    | inl closes ↦ elim (Bool-cases (is_below op)) [
      | inr up ↦ inr (inl up)
      | inl down ↦ inr (inr (ground (arith, h, closes, down)))
    ]
  ]

  any-IsAbove :
      (mark : F) (cs : List (CompiledCond F))
      → any (λ c. already_passed mark c.metric c.op c.value) cs ≡ false
      → All (λ c. IsAbove mark c.metric c.op c.value) cs
  any-IsAbove mark [] h = tt
  any-IsAbove mark (c ∷ cs) h = (
    passed-IsAbove mark c.metric c.op c.value (ground (arith, h)),
    any-IsAbove mark cs (ground (arith, h)),
  )

  quiet-AreAbove :
      (mark : Option F) (action : FireAction F) (cs : List (CompiledCond F))
      → fires_at_once mark action cs ≡ false
      → AreAbove mark action cs
  quiet-AreAbove none action cs h = tt
  quiet-AreAbove (some mark) exit_fire cs h = any-IsAbove mark cs h
  quiet-AreAbove (some mark) guard_fire cs h = tt
  quiet-AreAbove (some mark) (tighten_fire to) cs h = tt

  -- Mirrored conditions, on a close above a level, are never refused for the mark.
  passed-mirrored :
      (mark : F) (m : Metric) (op : Op) (value : Option F)
      → is_below op ≡ false
      → already_passed mark m op value ≡ false
  passed-mirrored mark m op none h = refl
  passed-mirrored mark m op (some v) h = ground (arith, h)

  fires_at_once-mirrored :
      (mark : Option F) (action : FireAction F) (cs : List (CompiledCond F))
      → All (λ c. is_below (CompiledCond.op c) ≡ false) cs
      → fires_at_once mark action cs ≡ false
  fires_at_once-mirrored none action cs h = refl
  fires_at_once-mirrored (some mark) action [] h = ground arith
  fires_at_once-mirrored (some mark) action (c ∷ cs) h = ground (
    arith,
    h.0,
    passed-mirrored mark c.metric c.op c.value,
    fires_at_once-mirrored (some mark) action cs h.1,
  )

  -- A predicate that compiles is fresh, holds one to three conditions at plausible levels, persists
  -- one to ten bars and carries a legal action. If its action is an exit and the mark is known, the mark
  -- is above every literal level that a condition wants the close or the last price below (< or <=);
  -- of conditions with another operator or metric, and of levels that are resolved later, the mark is
  -- not asked.
  pub compile_predicate_sound :
      (any_spec : AnySpec F) (ctx : ArmContext F) (p : CompiledPredicate F)
      → compile_predicate any_spec ctx ≡ accepted p
      → All (IsArmed ctx) p.conds
        × (1 ≤ length p.conds)
        × (length p.conds ≤ 3)
        × (1 ≤ p.persist_bars)
        × (p.persist_bars ≤ 10)
        × (action_ok p.action ≡ true)
        × AreAbove ctx.mark p.action p.conds
        × (p.streak ≡ 0)
        × (p.fired ≡ false)
  unfolding compile_predicate
  compile_predicate_sound any_spec ctx p h =
      let (spec, e, k) = bind_accepted (validate any_spec) _ h in
      let (conds, e', k') = bind_accepted (compile_conds ctx spec.conds) _ k in
      let (quiet, k1) =
        require-accepted (not (fires_at_once ctx.mark spec.action conds)) immediate_fire _ k' in
      let legal = validate-IsLegal any_spec spec e in
      let (armed, size) = compile_conds-IsArmed ctx spec.conds conds e' in
      let calm : fires_at_once ctx.mark spec.action conds ≡ false = not-true _ quiet in
      let range =
        persist-range (all (λ c. same_tf c.tf session) conds) spec.persist legal.3 legal.4 in
      let e'' : _ ≡ p = accepted-injective k1 in
      rw (← e'') (
        armed,
        omega arith,
        omega arith,
        range.0,
        range.1,
        legal.5,
        quiet-AreAbove ctx.mark spec.action conds calm,
        refl,
        refl,
      )
