-- ===== src/Exits/Ratchet.antt =====
-- The ratchets of src/c4_exec/exits.py only tighten, and the watermark only improves.
use news_pipeline.Base.{
  ℕ, Bool, true, false, not, ◌||◌, ◌≡◌, ◌⊎◌, inl, inr, Option, none, some, List, [], ◌∷◌, ◌++◌,
  arith, All, any, is_none, Bool-cases,
}
use news_pipeline.Num.{Num, zero_f}
use news_pipeline.Direction.{Side, Bar, signed, is_tighter, watermark}
use news_pipeline.Exits.{
  Basis, Kind, exit, scale_out, set_stop, event, EventType, ExitAction, Position, PolicyState,
  Realization, no_action, scale_out_50, review_flag, side_of, policy_state, realize, realization,
  ratchet, proposal, progress_of, policy_target, evaluate_on_bar,
}

abbrev pub is_exit : Kind → Bool
is_exit exit = true
is_exit scale_out = false
is_exit set_stop = false
is_exit event = false

module _ {F : Type 0} ⦃num : Num F⦄ where
  open num use {sub, is_lt}

  -- A SET_STOP carries a stop, strictly tighter than the current one; no other action carries one.
  abbrev pub CarriesTighter : Side → F → Kind → Option F → Type 0
  CarriesTighter side current set_stop none = ⊥
  CarriesTighter side current set_stop (some stop) = is_tighter side stop current ≡ true
  CarriesTighter side current exit stop = stop ≡ none
  CarriesTighter side current scale_out stop = stop ≡ none
  CarriesTighter side current event stop = stop ≡ none

  -- A SET_STOP and the EVENT without a type write the watermark of this bar; no other action writes
  -- one.
  abbrev pub WritesHwm : F → Kind → Option EventType → Option F → Type 0
  WritesHwm water set_stop e w = w ≡ some water
  WritesHwm water event none w = w ≡ some water
  WritesHwm water event (some t) w = w ≡ none
  WritesHwm water exit e w = w ≡ none
  WritesHwm water scale_out e w = w ≡ none

  abbrev pub IsTightening : Side → F → F → ExitAction F → Type 0
  IsTightening side current water a =
      CarriesTighter side current a.kind a.new_stop × WritesHwm water a.kind a.event_type a.new_hwm

  -- An action that closes the position or writes a watermark.
  abbrev pub exits_or_writes : ExitAction F → Bool
  exits_or_writes a = is_exit a.kind || not (is_none a.new_hwm)

  -- The watermark is better than the one that is stored.
  abbrev pub has_improved : Side → F → F → Bool
  has_improved side water hwm = is_lt zero_f (signed side (sub water hwm))

  any-append :
      (xs ys : List (ExitAction F))
      → any exits_or_writes ys ≡ true
      → any exits_or_writes (xs ++ ys) ≡ true
  any-append [] ys h = h
  any-append (x ∷ xs) ys h = ground (arith, any-append xs ys h)

  ratchet-writes :
      (side : Side) (water : F) (state : PolicyState F) (o : Option (F × Basis))
      → has_improved side water state.hwm ≡ true
      → any exits_or_writes (ratchet side water state o) ≡ true
  unfolding ratchet
  ratchet-writes side water state none h = ground arith
  ratchet-writes side water state (some (stop, basis)) h = ground arith

  evaluate-writes :
      {Fire : Type 0} (p : Position F) (bar : Bar F) (age : ℕ) (fires : List Fire)
      (minutes : Option F)
      → let state = policy_state p.exit_policy p.avg_entry in
        has_improved (side_of p) (watermark (side_of p) (some state.hwm) bar) state.hwm ≡ true
        → any exits_or_writes (evaluate_on_bar p bar age fires minutes) ≡ true
  unfolding evaluate_on_bar
  evaluate-writes p bar age fires minutes h =
      let state = policy_state p.exit_policy p.avg_entry in
      let water = watermark (side_of p) (some state.hwm) bar in
      let o = proposal p water (progress_of p bar) in
      ground (
        arith,
        any-append (realization p bar) (ratchet (side_of p) water state o)
            (ratchet-writes (side_of p) water state o h),
      )

  All-append :
      (side : Side) (current water : F) (xs ys : List (ExitAction F))
      → All (IsTightening side current water) xs
      → All (IsTightening side current water) ys
      → All (IsTightening side current water) (xs ++ ys)
  All-append side current water [] ys hx hy = hy
  All-append side current water (x ∷ xs) ys hx hy =
      (hx.0, All-append side current water xs ys hx.1 hy)

  realize-IsTightening :
      (side : Side) (current water : F) (r : Realization) (q : ℕ) (price : F)
      → All (IsTightening side current water) (realize r q price)
  unfolding realize
  realize-IsTightening side current water no_action q price = ground arith
  realize-IsTightening side current water scale_out_50 q price = ground arith
  realize-IsTightening side current water review_flag q price = ground arith

  realization-IsTightening :
      (side : Side) (current water : F) (p : Position F) (bar : Bar F)
      → All (IsTightening side current water) (realization p bar)
  unfolding realization
  realization-IsTightening side current water p bar = ground (
    arith,
    realize-IsTightening side current water p.exit_policy.realization_action p.qty_open
        (policy_target p.avg_entry p.exit_policy),
  )

  ratchet-IsTightening :
      (side : Side) (water : F) (state : PolicyState F) (o : Option (F × Basis))
      → All (IsTightening side state.current_stop water) (ratchet side water state o)
  unfolding ratchet
  ratchet-IsTightening side water state none = ground arith
  ratchet-IsTightening side water state (some (stop, basis)) = ground arith

  evaluate-All :
      {Fire : Type 0} (p : Position F) (bar : Bar F) (age : ℕ) (fires : List Fire)
      (minutes : Option F)
      → let state = policy_state p.exit_policy p.avg_entry in
        All
          (IsTightening (side_of p) state.current_stop (watermark (side_of p) (some state.hwm) bar))
          (evaluate_on_bar p bar age fires minutes)
  unfolding evaluate_on_bar
  evaluate-All p bar age fires minutes =
      let state = policy_state p.exit_policy p.avg_entry in
      let water = watermark (side_of p) (some state.hwm) bar in
      let o = proposal p water (progress_of p bar) in
      ground (
        arith,
        All-append (side_of p) state.current_stop water (realization p bar)
            (ratchet (side_of p) water state o)
            (realization-IsTightening (side_of p) state.current_stop water p bar)
            (ratchet-IsTightening (side_of p) water state o),
      )

  -- On every bar the only actions that carry a stop are SET_STOPs, each strictly tighter than the
  -- current stop. Every SET_STOP writes this bar's watermark, the untyped EVENT does, and no other
  -- action writes one; and where the watermark has improved on the stored one the bar's actions
  -- write it or exit the position.
  pub evaluate-IsTightening :
      {Fire : Type 0} (p : Position F) (bar : Bar F) (age : ℕ) (fires : List Fire)
      (minutes : Option F)
      → let state = policy_state p.exit_policy p.avg_entry in
        All
          (IsTightening (side_of p) state.current_stop (watermark (side_of p) (some state.hwm) bar))
          (evaluate_on_bar p bar age fires minutes)
        × ((has_improved (side_of p) (watermark (side_of p) (some state.hwm) bar) state.hwm ≡ false)
            ⊎ (any exits_or_writes (evaluate_on_bar p bar age fires minutes) ≡ true))
  evaluate-IsTightening p bar age fires minutes =
      let state = policy_state p.exit_policy p.avg_entry in
      let water = watermark (side_of p) (some state.hwm) bar in
      (
        evaluate-All p bar age fires minutes,
        elim (Bool-cases (has_improved (side_of p) water state.hwm)) [
          | inl better ↦ inr (evaluate-writes p bar age fires minutes better)
          | inr same ↦ inl same
        ],
      )
