-- ===== src/Guard/Once.antt =====
-- Which verdicts of src/a12_guard/service.py are written and armed.
use news_pipeline.Base.{
  ℕ, zero, suc, ◌+◌, ◌≤◌, Bool, true, false, not, ◌&&◌, ◌||◌, ◌==◌, ltb, ◌≡◌, refl, none, some,
  List, [], ◌∷◌, All, is_empty, arith, if◌then◌else◌, Bool-cases, inl, inr,
}
use news_pipeline.Guard.{
  GuardVerdict, off_contract, Asked, slot_lost, exhausted, answered, AutoCfg, GuardCfg,
  GuardOutcome, expired, no_position, alert_only, rejected, decided, GuardRow, GuardDb,
  GuardDelivery, auto_execute_gate, ask, same_position, existing, add_row, write_verdict,
  note_message, finish_position, guard_position, guard_positions, handle_guard, guard_deliveries,
  no_rows,
}
use news_pipeline.Guard.Verdicts.{
  is_coherent, is_admitted, auto_execute_gate-is_admitted, IsAnswer, ask-IsAnswer,
}

-- The rows of a position, and those of them that armed its exit.
abbrev pub count_rows : ℕ → List GuardRow → ℕ
count_rows position [] = 0
count_rows position (r ∷ rs) =
    (if same_position (some position) r.position then 1 else 0) + count_rows position rs

abbrev pub has_armed : GuardOutcome → Bool
has_armed expired = false
has_armed no_position = false
has_armed alert_only = false
has_armed (rejected e) = false
has_armed (decided v arms) = arms

abbrev pub count_arming : ℕ → List GuardRow → ℕ
count_arming position [] = 0
count_arming position (r ∷ rs) =
    (if same_position (some position) r.position && has_armed r.outcome then 1 else 0)
    + count_arming position rs

abbrev pub count_armed : ℕ → List ℕ → ℕ
count_armed position [] = 0
count_armed position (p ∷ ps) = (if position == p then 1 else 0) + count_armed position ps

-- A verdict that is written is coherent, and one that arms an exit is admitted.
pub IsJustified : AutoCfg → Bool → GuardOutcome → Type 0
IsJustified c is_correction expired = Unit
IsJustified c is_correction no_position = Unit
IsJustified c is_correction alert_only = Unit
IsJustified c is_correction (rejected e) = Unit
IsJustified c is_correction (decided v arms) =
    (is_coherent v ≡ true) × ((not arms || is_admitted c is_correction v) ≡ true)

abbrev pub IsGuarded : AutoCfg → Bool → GuardDb → Type 0
IsGuarded c is_correction db =
    All (λ r. IsJustified c is_correction r.outcome) db.rows
    × ((position : ℕ) → count_rows position db.rows ≤ 1)
    × ((position : ℕ) → count_armed position db.armed ≡ count_arming position db.rows)

count_rows-new :
    (position : ℕ) (rows : List GuardRow)
    → existing (some position) rows ≡ false
    → count_rows position rows ≡ 0
count_rows-new position [] h = refl
count_rows-new position (r ∷ rs) h =
    ground (arith, h, count_rows-new position rs (ground (arith, h)))

-- A first row of a position keeps the counts.
count_rows_le :
    (p q : ℕ) (rows : List GuardRow)
    → existing (some p) rows ≡ false
    → count_rows q rows ≤ 1
    → (if q == p then 1 else 0) + count_rows q rows ≤ 1
count_rows_le p q rows new h = elim (Bool-cases (q == p)) [
  | inr other ↦ rw other (omega (arith, h))
  | inl same ↦
      let e : q ≡ p = ground (arith, same) in rw e (ground (arith, count_rows-new p rows new))
]

module _ (cfg : GuardCfg) (is_correction : Bool) where
  -- A row of the whole message is of no position.
  message_row-IsGuarded :
      (outcome : GuardOutcome) (db : GuardDb)
      → IsJustified cfg.auto_execute is_correction outcome
      → IsGuarded cfg.auto_execute is_correction db
      → IsGuarded cfg.auto_execute is_correction (add_row none outcome db)
  message_row-IsGuarded outcome db fine (rows, once, arms) =
      ((fine, rows), λ q. omega (arith, once q), λ q. omega (arith, arms q))

  note_message-IsGuarded :
      (outcome : GuardOutcome) (db : GuardDb)
      → IsJustified cfg.auto_execute is_correction outcome
      → IsGuarded cfg.auto_execute is_correction db
      → IsGuarded cfg.auto_execute is_correction (note_message outcome db)
  note_message-IsGuarded outcome db fine guarded = elim (Bool-cases (existing none db.rows)) [
    | inl there ↦ rw there guarded
    | inr new ↦ rw new (message_row-IsGuarded outcome db fine guarded)
  ]

  verdict_row-IsGuarded :
      (position : ℕ) (v : GuardVerdict) (arming : Bool) (db : GuardDb)
      → existing (some position) db.rows ≡ false
      → is_coherent v ≡ true
      → (not arming || is_admitted cfg.auto_execute is_correction v) ≡ true
      → IsGuarded cfg.auto_execute is_correction db
      → IsGuarded cfg.auto_execute is_correction (write_verdict position v arming db)
  unfolding IsJustified
  verdict_row-IsGuarded position v true db new fine allowed (rows, once, arms) = (
    ((fine, allowed), rows),
    λ q. count_rows_le position q db.rows new (once q),
    λ q. ground (arith, arms q),
  )
  verdict_row-IsGuarded position v false db new fine allowed (rows, once, arms) = (
    ((fine, allowed), rows),
    λ q. count_rows_le position q db.rows new (once q),
    λ q. ground (arith, arms q),
  )

  finish_position-IsGuarded :
      (opened : Bool) (position : ℕ) (asked : Asked) (db : GuardDb)
      → existing (some position) db.rows ≡ false
      → IsAnswer asked
      → IsGuarded cfg.auto_execute is_correction db
      → IsGuarded cfg.auto_execute is_correction
          (finish_position cfg is_correction opened position asked db)
  unfolding IsJustified
  finish_position-IsGuarded opened position slot_lost db new fine guarded =
      message_row-IsGuarded alert_only db (unfold IsJustified in tt) guarded
  finish_position-IsGuarded opened position (exhausted e) db new fine (rows, once, arms) =
      ((tt, rows), λ q. count_rows_le position q db.rows new (once q), λ q. ground (arith, arms q))
  finish_position-IsGuarded opened position (answered v) db new fine guarded =
      let gated = auto_execute_gate-is_admitted v is_correction cfg.auto_execute in
      verdict_row-IsGuarded position v
        (auto_execute_gate v is_correction cfg.auto_execute && opened) db new fine
        (rw gated (ground arith)) guarded

  guard_position-IsGuarded :
      (d : GuardDelivery) (position : ℕ) (db : GuardDb)
      → IsGuarded cfg.auto_execute is_correction db
      → IsGuarded cfg.auto_execute is_correction (guard_position cfg is_correction d position db)
  unfolding guard_position
  guard_position-IsGuarded d position db guarded =
      let asked = ask (1 + cfg.retries) 0 (d.replies position) off_contract in
      elim (Bool-cases (existing (some position) db.rows)) [
        | inl there ↦ rw there guarded
        | inr new ↦ rw new (
            finish_position-IsGuarded (d.still_open position) position asked db new
              (ask-IsAnswer (1 + cfg.retries) 0 (d.replies position) off_contract) guarded)
      ]

  guard_positions-IsGuarded :
      (d : GuardDelivery) (left : ℕ) (ps : List ℕ) (db : GuardDb)
      → IsGuarded cfg.auto_execute is_correction db
      → IsGuarded cfg.auto_execute is_correction (guard_positions cfg is_correction d left ps db)
  unfolding guard_positions
  guard_positions-IsGuarded d left [] db guarded = guarded
  guard_positions-IsGuarded d zero (p ∷ ps) db guarded = guarded
  guard_positions-IsGuarded d (suc left) (p ∷ ps) db guarded =
      guard_positions-IsGuarded d left ps (guard_position cfg is_correction d p db)
        (guard_position-IsGuarded d p db guarded)

  handle_guard-IsGuarded :
      (d : GuardDelivery) (db : GuardDb)
      → IsGuarded cfg.auto_execute is_correction db
      → IsGuarded cfg.auto_execute is_correction (handle_guard cfg is_correction d db)
  unfolding handle_guard IsJustified
  handle_guard-IsGuarded d db guarded = elim (Bool-cases (ltb cfg.max_age_minutes d.age)) [
    | inl old ↦ rw old (note_message-IsGuarded expired db tt guarded)
    | inr fresh ↦ elim (Bool-cases (is_empty d.positions)) [
      | inl flat ↦ rw (fresh, flat) (note_message-IsGuarded no_position db tt guarded)
      | inr held ↦ elim (Bool-cases d.slot_ready) [
        | inl up ↦ rw (fresh, held, up) (guard_positions-IsGuarded d d.done d.positions db guarded)
        | inr down ↦ rw (fresh, held, down) (note_message-IsGuarded alert_only db tt guarded)
      ]
    ]
  ]

  deliveries-IsGuarded :
      (ds : List GuardDelivery) (db : GuardDb)
      → IsGuarded cfg.auto_execute is_correction db
      → IsGuarded cfg.auto_execute is_correction (guard_deliveries cfg is_correction ds db)
  unfolding guard_deliveries
  deliveries-IsGuarded [] db guarded = guarded
  deliveries-IsGuarded (d ∷ ds) db guarded =
      deliveries-IsGuarded ds (handle_guard cfg is_correction d db)
        (handle_guard-IsGuarded d db guarded)

  -- However often a signal is delivered, whatever the model answers and wherever a delivery dies, a
  -- position has at most one row, an exit is armed as often as a row of the position says so, every
  -- verdict that is written is coherent, and every one that arms an exit meets all the conditions of
  -- the configuration.
  pub guard_deliveries-IsGuarded :
      (ds : List GuardDelivery)
      → IsGuarded cfg.auto_execute is_correction (guard_deliveries cfg is_correction ds no_rows)
  guard_deliveries-IsGuarded ds = deliveries-IsGuarded ds no_rows (tt, λ q. omega arith, λ q. refl)
