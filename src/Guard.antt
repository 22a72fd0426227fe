-- ===== src/Guard.antt =====
-- src/a12_guard/: the verdict of the guard on each open position that a signal is routed to, the check of
-- the model's output, and the gate of the automatic exit. The rows are those of one revision of one
-- signal. What the model answers, parsed to the fields of `GuardVerdict`, and which positions are open
-- are arguments; the number of the watch hits stands for their text.
pub mod Verdicts
pub mod Once
use news_pipeline.Base.{
  ℕ, zero, suc, ◌+◌, Bool, true, false, not, ◌&&◌, ◌||◌, ◌==◌, ltb, Option, none, some, List, [],
  ◌∷◌, any, is_empty, if◌then◌else◌,
}

pub data GuardAction : Type 0 where
  hold tighten_stop exit : GuardAction

pub data Urgency : Type 0 where
  high_urgency medium_urgency low_urgency : Urgency

pub record GuardVerdict : Type 0 where
  pub thesis_intact : Bool
  pub recommended_action : GuardAction
  pub urgency : Urgency
  pub watch_hits : ℕ
  pub news_confirms_move : Bool

-- Why an output is refused: it is not JSON of the schema, or one of the cross-field rules.
pub data GuardError : Type 0 where
  off_contract confirms_broken confirms_exit holds_broken : GuardError

-- What a call of the model gives: a transport error, text off the contract, or the parsed fields.
pub data Reply : Type 0 where
  died unparsed : Reply
  parsed : GuardVerdict → Reply

pub data Validated : Type 0 where
  valid : GuardVerdict → Validated
  invalid : GuardError → Validated

pub data Asked : Type 0 where
  slot_lost : Asked
  exhausted : GuardError → Asked
  answered : GuardVerdict → Asked

-- `auto_execute` of a12.yaml
pub record AutoCfg : Type 0 where
  pub enabled : Bool
  pub actions : List GuardAction
  pub urgencies : List Urgency
  pub require_watch_hit_or_correction : Bool

pub record GuardCfg : Type 0 where
  pub retries : ℕ
  pub max_age_minutes : ℕ
  pub auto_execute : AutoCfg

-- The rows of `journal.decisions`. A decision is written in one transaction with its row of the
-- ledger, which says whether the exit was armed.
pub data GuardOutcome : Type 0 where
  expired no_position alert_only : GuardOutcome
  rejected : GuardError → GuardOutcome
  decided : GuardVerdict → Bool → GuardOutcome

pub record GuardRow : Type 0 where
  pub position : Option ℕ
  pub outcome : GuardOutcome

-- The rows of the signal, and the positions that `guard_exit` was set on.
pub record GuardDb : Type 0 where
  pub rows : List GuardRow
  pub armed : List ℕ

-- A delivery of the signal: its age in minutes, the routed positions that are open, whether the model
-- is up, what it answers for a position at an attempt, whether a position is open when it is armed,
-- and how many positions are done before the delivery dies.
pub record GuardDelivery : Type 0 where
  pub age : ℕ
  pub positions : List ℕ
  pub slot_ready : Bool
  pub replies : ℕ → ℕ → Reply
  pub still_open : ℕ → Bool
  pub done : ℕ

abbrev pub same_action : GuardAction → GuardAction → Bool
same_action hold hold = true
same_action tighten_stop tighten_stop = true
same_action exit exit = true
same_action _ _ = false

abbrev pub same_urgency : Urgency → Urgency → Bool
same_urgency high_urgency high_urgency = true
same_urgency medium_urgency medium_urgency = true
same_urgency low_urgency low_urgency = true
same_urgency _ _ = false

-- `c.get("actions") or ["exit"]`, and the same of the urgencies
abbrev pub admitted_actions : List GuardAction → List GuardAction
admitted_actions [] = exit ∷ []
admitted_actions (a ∷ as') = a ∷ as'

abbrev pub admitted_urgencies : List Urgency → List Urgency
admitted_urgencies [] = high_urgency ∷ []
admitted_urgencies (u ∷ us) = u ∷ us

unfoldable pub auto_execute_gate : GuardVerdict → Bool → AutoCfg → Bool
auto_execute_gate v is_correction c =
    if not c.enabled
    then false
    else if not (any (same_action v.recommended_action) (admitted_actions c.actions))
    then false
    else if not (any (same_urgency v.urgency) (admitted_urgencies c.urgencies))
    then false
    else if c.require_watch_hit_or_correction
    then ltb 0 v.watch_hits || is_correction
    else true

-- `validate_guard`, from the parsed fields on
unfoldable pub validate_guard : GuardVerdict → Validated
validate_guard v =
    if v.news_confirms_move && not v.thesis_intact
    then invalid confirms_broken
    else if v.news_confirms_move && same_action v.recommended_action exit
    then invalid confirms_exit
    else valid v

-- The rule of `handle` after it.
abbrev pub hold_rule : Validated → Validated
hold_rule (invalid e) = invalid e
hold_rule (valid v) =
    if not v.thesis_intact && same_action v.recommended_action hold
    then invalid holds_broken
    else valid v

abbrev pub after_attempt : Validated → (GuardError → Asked) → Asked
after_attempt (valid v) again = answered v
after_attempt (invalid e) again = again e

-- An attempt, and what follows an output that is refused.
unfoldable pub after_reply : Reply → (GuardError → Asked) → Asked
unfolding validate_guard
after_reply died again = slot_lost
after_reply unparsed again = again off_contract
after_reply (parsed v) again = after_attempt (hold_rule (validate_guard v)) again

-- The loop over the attempts: the attempts left, and the error of the last one.
unfoldable pub ask : ℕ → ℕ → (ℕ → Reply) → GuardError → Asked
unfolding after_reply
ask zero n replies error = exhausted error
ask (suc left) n replies error = after_reply (replies n) (ask left (n + 1) replies)

abbrev pub same_position : Option ℕ → Option ℕ → Bool
same_position none none = true
same_position (some p) (some q) = p == q
same_position _ _ = false

-- `_existing_guard_decision`
abbrev pub existing : Option ℕ → List GuardRow → Bool
existing position rows = any (λ r. same_position position r.position) rows

abbrev pub add_row : Option ℕ → GuardOutcome → GuardDb → GuardDb
add_row position outcome db = record db {
  rows = record { position = position; outcome = outcome } ∷ db.rows;
}

-- A row of the whole message, unless there is one.
abbrev pub note_message : GuardOutcome → GuardDb → GuardDb
note_message outcome db = if existing none db.rows then db else add_row none outcome db

-- The transaction of a verdict.
abbrev pub write_verdict : ℕ → GuardVerdict → Bool → GuardDb → GuardDb
write_verdict position v arms db = record {
  rows = record { position = some position; outcome = decided v arms } ∷ db.rows;
  armed = if arms then position ∷ db.armed else db.armed;
}

-- What follows the attempts. The alert of a lost slot names no position of its own, and is not looked
-- for before.
abbrev pub finish_position : GuardCfg → Bool → Bool → ℕ → Asked → GuardDb → GuardDb
finish_position cfg is_correction opened position slot_lost db = add_row none alert_only db
finish_position cfg is_correction opened position (exhausted e) db =
    add_row (some position) (rejected e) db
finish_position cfg is_correction opened position (answered v) db =
    write_verdict position v (auto_execute_gate v is_correction cfg.auto_execute && opened) db

unfoldable pub guard_position : GuardCfg → Bool → GuardDelivery → ℕ → GuardDb → GuardDb
unfolding ask auto_execute_gate
guard_position cfg is_correction d position db =
    if existing (some position) db.rows
    then db
    else finish_position cfg is_correction (d.still_open position) position
        (ask (1 + cfg.retries) 0 (d.replies position) off_contract) db

-- The positions that the delivery gets to.
unfoldable pub guard_positions : GuardCfg → Bool → GuardDelivery → ℕ → List ℕ → GuardDb → GuardDb
unfolding guard_position
guard_positions cfg is_correction d left [] db = db
guard_positions cfg is_correction d zero (p ∷ ps) db = db
guard_positions cfg is_correction d (suc left) (p ∷ ps) db =
    guard_positions cfg is_correction d left ps (guard_position cfg is_correction d p db)

unfoldable pub handle_guard : GuardCfg → Bool → GuardDelivery → GuardDb → GuardDb
unfolding guard_positions
handle_guard cfg is_correction d db =
    if ltb cfg.max_age_minutes d.age
    then note_message expired db
    else if is_empty d.positions
    then note_message no_position db
    else if not d.slot_ready
    then note_message alert_only db
    else guard_positions cfg is_correction d d.done d.positions db

-- The deliveries of one signal, in order.
unfoldable pub guard_deliveries : GuardCfg → Bool → List GuardDelivery → GuardDb → GuardDb
unfolding handle_guard
guard_deliveries cfg is_correction [] db = db
guard_deliveries cfg is_correction (d ∷ ds) db =
    guard_deliveries cfg is_correction ds (handle_guard cfg is_correction d db)

abbrev pub no_rows : GuardDb
no_rows = record { rows = []; armed = [] }
