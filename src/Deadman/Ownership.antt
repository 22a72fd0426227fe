-- ===== src/Deadman/Ownership.antt =====
-- Whose block of entries the monitor of src/c4_exec/deadman.py lifts.
use news_pipeline.Base.{
  ℕ, Bool, true, false, not, ◌&&◌, ◌||◌, ◌≡◌, Option, none, some, List, [], ◌∷◌, any, All, arith,
}
use news_pipeline.Num.{Num}
use news_pipeline.Deadman.{Watched, ControlFlags, survey, is_over, check_heartbeats}

-- What happens to the flags: a pass of the monitor, or a write of `block_entries` by the operator.
pub data ControlEvent (F : Type 0) : Type 0 where
  monitor_pass : List (Watched F) → (ℕ → Option F) → Bool → ControlEvent F
  operator_write : Bool → ControlEvent F

module _ {F : Type 0} ⦃num : Num F⦄ where
  unfoldable pub control_step : ControlEvent F → ControlFlags → ControlFlags
  unfolding check_heartbeats
  control_step (monitor_pass components ages in_session) f =
      (check_heartbeats components ages in_session f).flags
  control_step (operator_write b) f = record f { block_entries = b }

  unfoldable pub control_run : List (ControlEvent F) → ControlFlags → ControlFlags
  control_run [] f = f
  control_run (e ∷ es) f = control_run es (control_step e f)

-- A block that the monitor does not own.
abbrev pub IsOperatorBlock : ControlFlags → Type 0
IsOperatorBlock f = (f.block_entries ≡ true) × (f.deadman_block ≡ false)

module _ {F : Type 0} ⦃num : Num F⦄ where
  open num use {is_lt}

  -- A component whose heartbeat is old enough to block entries in a session.
  abbrev pub blocks_entries : (ℕ → Option F) → Watched F → Bool
  blocks_entries ages w = elim (ages w.component) [
    | none ↦ false
    | some age ↦ is_over age w.thresholds.block_entries_min
  ]

  survey-want_block :
      (components : List (Watched F)) (ages : ℕ → Option F) (in_session : Bool)
      → (survey in_session ages components).want_block
        ≡ (in_session && any (blocks_entries ages) components)
  unfolding survey
  survey-want_block [] ages in_session = ground arith
  survey-want_block (w ∷ ws) ages in_session = ground (arith, survey-want_block ws ages in_session)

  -- A pass leaves entries blocked exactly if a component calls for it in the session, or if they
  -- were blocked by another than the monitor; it says so by an action exactly on a change.
  pub check_heartbeats-blocks :
      (components : List (Watched F)) (ages : ℕ → Option F) (in_session : Bool) (f : ControlFlags)
      → let wanted = in_session && any (blocks_entries ages) components in
        let r = check_heartbeats components ages in_session f in
        (r.flags.block_entries ≡ (wanted || (f.block_entries && not f.deadman_block)))
        × (r.actions.block ≡ (not f.block_entries && r.flags.block_entries))
        × (r.actions.unblock ≡ (f.block_entries && not r.flags.block_entries))
  unfolding check_heartbeats
  check_heartbeats-blocks components ages in_session f =
      ground (arith, survey-want_block components ages in_session)

  pass-IsOperatorBlock :
      (components : List (Watched F)) (ages : ℕ → Option F) (in_session : Bool) (f : ControlFlags)
      → IsOperatorBlock f
      → IsOperatorBlock (check_heartbeats components ages in_session f).flags
  unfolding check_heartbeats
  pass-IsOperatorBlock components ages in_session f (blocked, owned) =
      ground (arith, blocked, owned)

  abbrev pub IsPass : ControlEvent F → Type 0
  IsPass (monitor_pass components ages in_session) = Unit
  IsPass (operator_write b) = ⊥

  -- No passes of the monitor lift a block that it does not own.
  pub control_run-IsOperatorBlock :
      (es : List (ControlEvent F)) (f : ControlFlags)
      → All IsPass es
      → IsOperatorBlock f
      → IsOperatorBlock (control_run es f)
  unfolding control_run control_step
  control_run-IsOperatorBlock [] f passes h = h
  control_run-IsOperatorBlock (monitor_pass components ages in_session ∷ es) f passes h =
      control_run-IsOperatorBlock es _ passes.1
        (pass-IsOperatorBlock components ages in_session f h)
  control_run-IsOperatorBlock (operator_write b ∷ es) f passes h = absurd passes.0

  -- The monitor keeps its claim through the operator's writes: a block that the operator sets, after
  -- lifting one that the monitor had set, is lifted by the monitor's next pass with fresh heartbeats.
  pub operator_block_lifted :
      (components : List (Watched F)) (before after : ℕ → Option F) (f : ControlFlags)
      → f.block_entries ≡ false
      → any (blocks_entries before) components ≡ true
      → any (blocks_entries after) components ≡ false
      → (control_run
          (monitor_pass components before true
            ∷ operator_write false
            ∷ operator_write true
            ∷ monitor_pass components after true
            ∷ [])
          f).block_entries
        ≡ false
  unfolding control_run control_step check_heartbeats
  operator_block_lifted components before after f open_entries stale fresh =
      ground
        (arith, survey-want_block components before true, survey-want_block components after true)
