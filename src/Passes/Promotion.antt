-- ===== src/Passes/Promotion.antt =====
-- src/c4_exec/engine.py: the promotion of a scanner position to the short-term profile, and the
-- adjustment of a policy to the live profiles.
use news_pipeline.Base.{
  ℕ, Bool, true, false, not, ◌&&◌, ◌≡◌, refl, Option, none, some, List, [], ◌∷◌, map, arith,
  if◌then◌else◌, default_to, is_none, Bool-cases, inl, inr, ap, sym, subst,
}
use news_pipeline.Num.{Num, zero_f, truthy, or_else}
use news_pipeline.Exits.{Policy, Basis, window_sessions}
use news_pipeline.Passes.Types.{
  eod_rule, AtrMethod, daily_atr, recovered_5m, other_method, DayPolicy, DayPosition, TargetProfile,
  LiveProfile,
}

abbrev pub is_daily : Option AtrMethod → Bool
is_daily none = false
is_daily (some daily_atr) = true
is_daily (some recovered_5m) = false
is_daily (some other_method) = false

module _ {F : Type 0} ⦃num : Num F⦄ where
  open num use {of_ℤ, lit, div, round, is_lt}

  -- What `promoted_policy` does to the keys that the evaluator reads.
  unfoldable pub promoted_exits : TargetProfile F → Policy F → Policy F
  promoted_exits target e =
      let timed = record e {
        time_stop = window_sessions 2 (default_to (lit 5 1) target.min_progress_r);
      } in
      if target.keeps_trail
      then record timed { trail_cfg = some (default_to target.trail e.trail_cfg) }
      else record timed {
        trail_cfg = some target.trail;
        breakeven_at_r = target.breakeven_at_r;
        atr_value = if truthy e.atr_14 then some e.atr_14 else e.atr_value;
      }

  -- `promoted_policy`; the short-term profile has the number `short_term`, the scanner's `scalp`.
  unfoldable pub promoted_policy : ℕ → ℕ → TargetProfile F → ℕ → ℕ → DayPolicy F → DayPolicy F
  unfolding promoted_exits
  promoted_policy scalp short_term target decision_id now p = record p {
    exits = promoted_exits target p.exits;
    promoted_from = some (default_to scalp p.profile);
    profile = some short_term;
    promoted_ts = some now;
    promotion_decision_id = some decision_id;
    overnight_hold = some (default_to eod_rule target.overnight_hold);
    force_flat_time_et = none;
    atr_method =
        if not target.keeps_trail && truthy (Policy.atr_14 p.exits)
        then some daily_atr
        else p.atr_method;
  }

  -- The WHERE clause of the pass, with the latest confirming decision of the guard, if any.
  abbrev pub promoted_row : ℕ → ℕ → TargetProfile F → ℕ → Option ℕ → DayPosition F → DayPosition F
  promoted_row scalp short_term target now none r = r
  promoted_row scalp short_term target now (some decision_id) r =
      if r.is_open && r.from_scanner && is_none r.policy.promoted_ts
      then record r { policy = promoted_policy scalp short_term target decision_id now r.policy }
      else r

  -- `promotion_pass`
  unfoldable pub promotion_pass :
      ℕ → ℕ → TargetProfile F → ℕ → (ℕ → Option ℕ) → List (DayPosition F) → List (DayPosition F)
  unfolding promoted_policy
  promotion_pass scalp short_term target now confirmed =
      map (λ r. promoted_row scalp short_term target now (confirmed r.position_id) r)

  -- `effective_policy`, with the profile of the policy, the one it was promoted from, and whether the
  -- short-term profile keeps the trail.
  abbrev pub with_lock : Option (LiveProfile F) → Policy F → Policy F
  with_lock none e = e
  with_lock (some prof) e =
      if is_none e.profit_lock then record e { profit_lock = prof.profit_lock } else e

  abbrev pub entry_k : DayPolicy F → LiveProfile F → F
  entry_k p entry = or_else p.initial_stop_k (or_else entry.initial_stop_k (lit 2 0))

  abbrev pub with_entry_trail : Option (LiveProfile F) → F → DayPolicy F → DayPolicy F
  with_entry_trail none unit p = p
  with_entry_trail (some entry) unit p =
      if is_daily p.atr_method && is_lt zero_f unit && is_lt zero_f (entry_k p entry)
      then record p {
        exits = record (p.exits) {
          trail_cfg = some entry.trail;
          breakeven_at_r = default_to (Policy.breakeven_at_r p.exits) entry.breakeven_at_r;
          atr_value = some (round (div unit (entry_k p entry)) 4);
        };
        atr_method = some recovered_5m;
      }
      else p

  abbrev profile_of : (ℕ → Option (LiveProfile F)) → Option ℕ → Option (LiveProfile F)
  profile_of profiles none = none
  profile_of profiles (some name) = profiles name

  unfoldable pub effective_policy :
      (ℕ → Option (LiveProfile F)) → Bool → F → DayPolicy F → DayPolicy F
  effective_policy profiles keeps_trail unit p =
      let locked = record p { exits = with_lock (profile_of profiles p.profile) p.exits } in
      if keeps_trail
      then with_entry_trail (profile_of profiles p.promoted_from) unit locked
      else locked

  -- What tells how far a position is protected and what it has realised.
  abbrev pub stop_state : DayPosition F → Option F × F × Option Basis × Option F × Bool
  stop_state r =
      let e = r.policy.exits in
      (e.current_stop, e.initial_stop, e.stop_basis, e.hwm, e.scale_out_done)

  promoted_exits-stop_state :
      (target : TargetProfile F) (e : Policy F)
      → let after = promoted_exits target e in
        ((after.current_stop ≡ e.current_stop) × (after.initial_stop ≡ e.initial_stop))
        × (after.stop_basis ≡ e.stop_basis)
        × (after.hwm ≡ e.hwm)
        × (after.scale_out_done ≡ e.scale_out_done)
  unfolding promoted_exits
  promoted_exits-stop_state target e = ground arith

  promoted_row-stop_state :
      (scalp short_term : ℕ) (target : TargetProfile F) (now : ℕ) (confirmed : Option ℕ)
      (r : DayPosition F)
      → stop_state (promoted_row scalp short_term target now confirmed r) ≡ stop_state r
  unfolding promoted_policy promoted_exits
  promoted_row-stop_state scalp short_term target now none r = refl
  promoted_row-stop_state scalp short_term target now (some decision_id) r =
      ground (arith, promoted_exits-stop_state target r.policy.exits)

  promoted_row-again :
      (scalp short_term : ℕ) (target : TargetProfile F) (now later decision_id : ℕ)
      (again : Option ℕ) (r : DayPosition F)
      → let once = promoted_row scalp short_term target now (some decision_id) r in
        promoted_row scalp short_term target later again once ≡ once
  unfolding promoted_policy
  promoted_row-again scalp short_term target now later decision_id none r = refl
  promoted_row-again scalp short_term target now later decision_id (some e) r =
      elim (Bool-cases (r.is_open && r.from_scanner && is_none r.policy.promoted_ts)) [
        | inl chosen ↦ ground (arith, chosen)
        | inr other ↦ ground (arith, other)
      ]

  promoted_row-twice :
      (scalp short_term : ℕ) (target : TargetProfile F) (now later : ℕ) (confirmed : Option ℕ)
      (r : DayPosition F)
      → let once = promoted_row scalp short_term target now confirmed r in
        (promoted_row scalp short_term target later confirmed once ≡ once)
        × (once.position_id ≡ r.position_id)
  promoted_row-twice scalp short_term target now later none r = (refl, refl)
  promoted_row-twice scalp short_term target now later (some d) r =
      (promoted_row-again scalp short_term target now later d (some d) r, ground arith)

  with_lock-again :
      (prof : Option (LiveProfile F)) (e : Policy F)
      → with_lock prof (with_lock prof e) ≡ with_lock prof e
  with_lock-again none e = refl
  with_lock-again (some prof) e = ground arith

  with_entry_trail-again :
      (entry : Option (LiveProfile F)) (unit : F) (p : DayPolicy F)
      → with_entry_trail entry unit (with_entry_trail entry unit p) ≡ with_entry_trail entry unit p
  with_entry_trail-again none unit p = refl
  with_entry_trail-again (some entry) unit p = ground arith

  abbrev adjusted : Option (LiveProfile F) → Option (LiveProfile F) → F → DayPolicy F → DayPolicy F
  adjusted prof entry unit p =
      with_entry_trail entry unit (record p { exits = with_lock prof p.exits })

  adjusted-again :
      (prof entry : Option (LiveProfile F)) (unit : F) (p : DayPolicy F)
      → adjusted prof entry unit (adjusted prof entry unit p) ≡ adjusted prof entry unit p
  adjusted-again none none unit p = refl
  adjusted-again none (some entry) unit p = with_entry_trail-again (some entry) unit p
  adjusted-again (some prof) none unit p =
      ap (λ e. record p { exits = e }) (with_lock-again (some prof) p.exits)
  adjusted-again (some prof) (some entry) unit p = ground arith

  with_entry_trail-profile :
      (entry : Option (LiveProfile F)) (unit : F) (p : DayPolicy F)
      → ((with_entry_trail entry unit p).profile ≡ p.profile)
        × ((with_entry_trail entry unit p).promoted_from ≡ p.promoted_from)
  with_entry_trail-profile none unit p = (refl, refl)
  with_entry_trail-profile (some entry) unit p = ground arith

  -- Adjusting a policy to the live profiles twice is adjusting it once, so that it does no harm that
  -- an adjusted policy is written back to the journal.
  pub effective_policy-again :
      (profiles : ℕ → Option (LiveProfile F)) (keeps_trail : Bool) (unit : F) (p : DayPolicy F)
      → effective_policy profiles keeps_trail unit (effective_policy profiles keeps_trail unit p)
        ≡ effective_policy profiles keeps_trail unit p
  unfolding effective_policy
  effective_policy-again profiles false unit p =
      ap (λ e. record p { exits = e }) (with_lock-again (profile_of profiles p.profile) p.exits)
  effective_policy-again profiles true unit p =
      let prof = profile_of profiles p.profile in
      let entry = profile_of profiles p.promoted_from in
      let same =
        with_entry_trail-profile entry unit (record p { exits = with_lock prof p.exits }) in
      let done = adjusted prof entry unit p in
      subst
        (λ n.
          adjusted (profile_of profiles n) (profile_of profiles done.promoted_from) unit done
          ≡ done)
        (sym same.0)
        (subst (λ n. adjusted prof (profile_of profiles n) unit done ≡ done) (sym same.1)
          (adjusted-again prof entry unit p))

  -- A promotion pass never touches the stop, its basis, the watermark or the mark of a done scale-out
  -- of any position.
  pub promotion_pass-stop_state :
      (scalp short_term : ℕ) (target : TargetProfile F) (now : ℕ) (confirmed : ℕ → Option ℕ)
      (rs : List (DayPosition F))
      → map stop_state (promotion_pass scalp short_term target now confirmed rs) ≡ map stop_state rs
  unfolding promotion_pass
  promotion_pass-stop_state scalp short_term target now confirmed [] = refl
  promotion_pass-stop_state scalp short_term target now confirmed (r ∷ rs) =
      rw
        (
          promoted_row-stop_state scalp short_term target now (confirmed r.position_id) r,
          promotion_pass-stop_state scalp short_term target now confirmed rs,
        )
        refl

  -- A second pass with the same confirmations, at any later time, changes nothing: a position is
  -- promoted once.
  pub promotion_pass-again :
      (scalp short_term : ℕ) (target : TargetProfile F) (now later : ℕ) (confirmed : ℕ → Option ℕ)
      (rs : List (DayPosition F))
      → let once = promotion_pass scalp short_term target now confirmed rs in
        promotion_pass scalp short_term target later confirmed once ≡ once
  unfolding promotion_pass
  promotion_pass-again scalp short_term target now later confirmed [] = refl
  promotion_pass-again scalp short_term target now later confirmed (r ∷ rs) =
      let once = promoted_row scalp short_term target now (confirmed r.position_id) r in
      let same = promoted_row-twice scalp short_term target now later (confirmed r.position_id) r in
      let fixed =
        subst (λ n. promoted_row scalp short_term target later (confirmed n) once ≡ once)
          (sym same.1) same.0 in
      rw fixed
        (ap (λ qs. once ∷ qs) (promotion_pass-again scalp short_term target now later confirmed rs))
