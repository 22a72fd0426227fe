-- ===== src/Exits/Priority.antt =====
-- How the exit layers of src/c4_exec/exits.py exclude one another, and how many shares they close.
use news_pipeline.Base.{
  ℕ, ◌+◌, ◌/◌, ◌≤◌, Bool, true, false, ◌||◌, ◌≡◌, refl, ◌⊎◌, Option, none, some, List, [], ◌∷◌,
  ◌++◌, arith, length, any, is_empty, if◌then◌else◌, map,
}
use news_pipeline.Num.{Num}
use news_pipeline.Direction.{Side, Bar, stop_hit, watermark}
use news_pipeline.Exits.{
  Basis, Kind, exit, scale_out, set_stop, event, ExitAction, Position, PolicyState, Realization,
  no_action, scale_out_50, review_flag, side_of, policy_state, time_stop_fires, realize,
  policy_target, stop_attribution, Layer, invalidation, time, realization, ratchet, proposal,
  progress_of, evaluate_on_bar,
}

abbrev pub is_exit : Kind → Bool
is_exit exit = true
is_exit scale_out = false
is_exit set_stop = false
is_exit event = false

module _ {F : Type 0} where
  abbrev pub closes : ExitAction F → Bool
  closes a = is_exit a.kind

  abbrev pub total_qty : List (ExitAction F) → ℕ
  total_qty [] = 0
  total_qty (a ∷ as') = a.qty + total_qty as'

  pub any-append :
      (xs ys : List (ExitAction F)) → any closes (xs ++ ys) ≡ (any closes xs || any closes ys)
  any-append [] ys = refl
  any-append (x ∷ xs) ys = ground (arith, any-append xs ys)

  total_qty-append :
      (xs ys : List (ExitAction F)) → total_qty (xs ++ ys) ≡ total_qty xs + total_qty ys
  total_qty-append [] ys = omega arith
  total_qty-append (x ∷ xs) ys = omega (arith, total_qty-append xs ys)

module _ {F : Type 0} ⦃num : Num F⦄ where
  -- The layers below the exits close at most half of the position, and never as an EXIT.
  realize_partial :
      (r : Realization) (q : ℕ) (price : F)
      → (any closes (realize r q price) ≡ false) × (total_qty (realize r q price) ≤ q / 2)
  unfolding realize
  realize_partial no_action q price = ground arith
  realize_partial scale_out_50 q price = ground arith
  realize_partial review_flag q price = ground arith

  realization_partial :
      (p : Position F) (bar : Bar F)
      → (any closes (realization p bar) ≡ false) × (total_qty (realization p bar) ≤ p.qty_open / 2)
  unfolding realization
  realization_partial p bar = ground (
    arith,
    realize_partial p.exit_policy.realization_action p.qty_open
        (policy_target p.avg_entry p.exit_policy),
  )

  ratchet-closes_nothing :
      (side : Side) (w : F) (state : PolicyState F) (o : Option (F × Basis))
      → (any closes (ratchet side w state o) ≡ false) × (total_qty (ratchet side w state o) ≡ 0)
  unfolding ratchet
  ratchet-closes_nothing side w state none = ground arith
  ratchet-closes_nothing side w state (some (stop, basis)) = ground arith

  -- The two lower layers together, which run on a bar that no exit layer claims.
  abbrev lower_layers : Position F → Bar F → List (ExitAction F)
  lower_layers p bar =
      let state = policy_state p.exit_policy p.avg_entry in
      let water = watermark (side_of p) (some state.hwm) bar in
      realization p bar ++ ratchet (side_of p) water state (proposal p water (progress_of p bar))

  lower_layers_partial :
      (p : Position F) (bar : Bar F)
      → (any closes (lower_layers p bar) ≡ false)
        × (total_qty (lower_layers p bar) ≤ p.qty_open / 2)
  lower_layers_partial p bar =
      let state = policy_state p.exit_policy p.avg_entry in
      let water = watermark (side_of p) (some state.hwm) bar in
      let o = proposal p water (progress_of p bar) in
      let acts = ratchet (side_of p) water state o in
      ground (
        arith,
        any-append (realization p bar) acts,
        total_qty-append (realization p bar) acts,
        realization_partial p bar,
        ratchet-closes_nothing (side_of p) water state o,
      )

  -- Whether some exit layer claims the bar.
  abbrev pub must_exit : {Fire : Type 0} → Position F → Bar F → ℕ → List Fire → Option F → Bool
  must_exit p bar age fires minutes =
      let state = policy_state p.exit_policy p.avg_entry in
      stop_hit (side_of p) bar state.current_stop
      || (if is_empty fires then false else true)
      || time_stop_fires p.exit_policy.time_stop age minutes (progress_of p bar)

  -- The layer that claims it, in the order of the module's table.
  abbrev pub exit_layer : {Fire : Type 0} → Position F → Bar F → List Fire → Layer
  exit_layer p bar fires =
      let state = policy_state p.exit_policy p.avg_entry in
      if stop_hit (side_of p) bar state.current_stop
      then stop_attribution state.stop_basis
      else if is_empty fires
      then time
      else invalidation

  -- A bar that must exit yields one action, the exit of every open share at the highest layer that
  -- claims it; any other bar yields no exit and closes at most half of the open shares.
  pub evaluate_exits :
      {Fire : Type 0} (p : Position F) (bar : Bar F) (age : ℕ) (fires : List Fire)
      (minutes : Option F)
      → let acts = evaluate_on_bar p bar age fires minutes in
        ((must_exit p bar age fires minutes ≡ true)
          × (length acts ≡ 1)
          × (map (λ a. a.layer) acts ≡ exit_layer p bar fires ∷ [])
          × (any closes acts ≡ true)
          × (total_qty acts ≡ p.qty_open))
        ⊎ ((must_exit p bar age fires minutes ≡ false)
            × (any closes acts ≡ false)
            × (total_qty acts ≤ p.qty_open / 2))
  unfolding evaluate_on_bar
  evaluate_exits p bar age fires minutes = ground (arith, lower_layers_partial p bar)
