-- ===== src/Guard/Verdicts.antt =====
-- What the checks of src/a12_guard/ say about a verdict.
use news_pipeline.Base.{
  ℕ, zero, suc, ◌+◌, Bool, true, not, ◌&&◌, ◌||◌, ltb, ◌≡◌, any, arith, Bool-cases, inl, inr,
}
use news_pipeline.Guard.{
  hold, exit, GuardVerdict, GuardError, Reply, died, unparsed, parsed, off_contract, Asked,
  slot_lost, exhausted, answered, AutoCfg, same_action, same_urgency, admitted_actions,
  admitted_urgencies, auto_execute_gate, validate_guard, hold_rule, after_attempt, after_reply, ask,
  confirms_broken, confirms_exit, holds_broken,
}

-- A verdict that contradicts itself in no rule: a broken thesis is not held, and news that confirm the
-- move neither break the thesis nor call for an exit.
abbrev pub is_coherent : GuardVerdict → Bool
is_coherent v =
    (v.thesis_intact || not (same_action v.recommended_action hold))
    && (not v.news_confirms_move || v.thesis_intact && not (same_action v.recommended_action exit))

-- The conditions of the configuration on an exit without the operator.
abbrev pub is_admitted : AutoCfg → Bool → GuardVerdict → Bool
is_admitted c is_correction v =
    c.enabled
    && any (same_action v.recommended_action) (admitted_actions c.actions)
    && any (same_urgency v.urgency) (admitted_urgencies c.urgencies)
    && (not c.require_watch_hit_or_correction || ltb 0 v.watch_hits || is_correction)

pub auto_execute_gate-is_admitted :
    (v : GuardVerdict) (is_correction : Bool) (c : AutoCfg)
    → auto_execute_gate v is_correction c ≡ is_admitted c is_correction v
unfolding auto_execute_gate
auto_execute_gate-is_admitted v is_correction c = ground arith

abbrev pub IsAnswer : Asked → Type 0
IsAnswer slot_lost = Unit
IsAnswer (exhausted e) = Unit
IsAnswer (answered v) = is_coherent v ≡ true

after_attempt-IsAnswer :
    (v : GuardVerdict) (again : GuardError → Asked)
    → ((e : GuardError) → IsAnswer (again e))
    → IsAnswer (after_attempt (hold_rule (validate_guard v)) again)
unfolding validate_guard
after_attempt-IsAnswer v again h =
    let exits = same_action v.recommended_action exit in
    elim (Bool-cases (v.news_confirms_move && not v.thesis_intact)) [
      | inl broken ↦ rw broken (h confirms_broken)
      | inr whole ↦ elim (Bool-cases (v.news_confirms_move && exits)) [
        | inl leaves ↦ rw (whole, leaves) (h confirms_exit)
        | inr stays ↦
            elim (Bool-cases (not v.thesis_intact && same_action v.recommended_action hold)) [
              | inl held ↦ rw (whole, stays) (rw held (h holds_broken))
              | inr acts ↦ rw (whole, stays) (rw acts (ground (arith, whole, stays, acts)))
            ]
      ]
    ]

after_reply-IsAnswer :
    (reply : Reply) (again : GuardError → Asked)
    → ((e : GuardError) → IsAnswer (again e))
    → IsAnswer (after_reply reply again)
unfolding after_reply
after_reply-IsAnswer died again h = tt
after_reply-IsAnswer unparsed again h = h off_contract
after_reply-IsAnswer (parsed v) again h = after_attempt-IsAnswer v again h

pub ask-IsAnswer :
    (left n : ℕ) (replies : ℕ → Reply) (error : GuardError) → IsAnswer (ask left n replies error)
unfolding ask
ask-IsAnswer zero n replies error = tt
ask-IsAnswer (suc left) n replies error =
    after_reply-IsAnswer (replies n) (ask left (n + 1) replies) (ask-IsAnswer left (n + 1) replies)
