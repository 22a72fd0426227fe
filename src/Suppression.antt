-- ===== src/Suppression.antt =====
-- src/a1_triage/suppression.py with `_suppress_repeat` and `handle` of src/a1_triage/service.py: when an
-- item of a story costs an analysis. Times are whole seconds; the rows of the journal are newest first.
-- What the model and the router answer is an argument.
pub mod Once
use news_pipeline.Base.{
  ℕ, suc, ◌+◌, ◌-◌, Bool, true, false, not, ◌&&◌, ◌||◌, ◌==◌, ltb, leb, Option, none, some, List,
  [], ◌∷◌, ◌++◌, any, if◌then◌else◌,
}

-- The action of a TRIAGE row
pub data TriageAction : Type 0 where
  escalate discard reject suppress : TriageAction

abbrev pub is_verdict : TriageAction → Bool
is_verdict escalate = true
is_verdict discard = true
is_verdict a = false

abbrev pub is_discard : TriageAction → Bool
is_discard discard = true
is_discard a = false

-- A row of `journal.decisions` of the stage TRIAGE and the agent A1.
pub record TriageRow : Type 0 where
  pub item_id : ℕ
  pub ts : ℕ
  pub action : TriageAction
  pub synthetic : Bool
  pub tickers : List ℕ
  pub outlets : ℕ

-- The `suppression` section, with its hours in seconds.
pub record SuppressCfg : Type 0 where
  pub enabled : Bool
  pub window_secs : ℕ
  pub discard_window_secs : ℕ
  pub corroboration_threshold : ℕ

-- A DedupedSignal, as far as the suppression reads it.
pub record TriageSignal : Type 0 where
  pub item_id : ℕ
  pub symbols : List ℕ
  pub is_correction : Bool
  pub cluster_id : Option ℕ
  pub is_new_story : Bool
  pub outlets : ℕ

-- What `run_triage` and `route` make of an item: a rejected output, or an action on tickers.
pub data TriageOutcome : Type 0 where
  invalid : TriageOutcome
  triaged : Bool → List ℕ → TriageOutcome

-- `discard_cooldown_expired`
abbrev pub discard_cooldown_expired : TriageAction → ℕ → ℕ → Bool
discard_cooldown_expired action age discard_window = is_discard action && ltb discard_window age

-- `corroboration_bypass`
abbrev pub corroboration_bypass : ℕ → ℕ → ℕ → Bool
corroboration_bypass outlets_now outlets_prior threshold =
    leb threshold outlets_now && ltb outlets_prior threshold

-- The row is a verdict of the model on the story itself; `in_cluster` says which items are in it.
abbrev pub is_story_verdict : (ℕ → Bool) → TriageRow → Bool
is_story_verdict in_cluster r = in_cluster r.item_id && (is_verdict r.action && not r.synthetic)

-- `find_prior_verdict`
unfoldable pub find_prior_verdict : (ℕ → Bool) → ℕ → ℕ → List TriageRow → Option TriageRow
find_prior_verdict in_cluster now window [] = none
find_prior_verdict in_cluster now window (r ∷ rs) =
    if is_story_verdict in_cluster r && ltb now (r.ts + window)
    then some r
    else find_prior_verdict in_cluster now window rs

-- The end of `_suppress_repeat`, from the prior verdict; `is_held` says that a ticker has an open
-- position.
unfoldable pub suppressed_by : SuppressCfg → (ℕ → Bool) → ℕ → TriageSignal → Option TriageRow → Bool
suppressed_by cfg is_held now s none = false
suppressed_by cfg is_held now s (some prior) =
    not (discard_cooldown_expired prior.action (now - prior.ts) cfg.discard_window_secs)
    && (not (corroboration_bypass s.outlets prior.outlets cfg.corroboration_threshold)
        && not (any is_held (s.symbols ++ prior.tickers)))

-- `_suppress_repeat`; `members` gives the items of a cluster.
unfoldable pub suppress_in :
    SuppressCfg → (ℕ → ℕ → Bool) → (ℕ → Bool) → ℕ → TriageSignal → Option ℕ → List TriageRow → Bool
unfolding find_prior_verdict suppressed_by
suppress_in cfg members is_held now s none rows = false
suppress_in cfg members is_held now s (some c) rows =
    cfg.enabled
    && (not s.is_new_story
        && (not s.is_correction
            && suppressed_by cfg is_held now s
                (find_prior_verdict (members c) now cfg.window_secs rows)))

abbrev pub outcome_row : ℕ → TriageSignal → TriageOutcome → TriageRow
outcome_row now s invalid = record {
  item_id = s.item_id;
  ts = now;
  action = reject;
  synthetic = false;
  tickers = [];
  outlets = 1;
}
outcome_row now s (triaged escalates tickers) = record {
  item_id = s.item_id;
  ts = now;
  action = if escalates then escalate else discard;
  synthetic = false;
  tickers = tickers;
  outlets = s.outlets;
}

abbrev pub suppress_row : ℕ → TriageSignal → TriageRow
suppress_row now s = record {
  item_id = s.item_id;
  ts = now;
  action = suppress;
  synthetic = false;
  tickers = [];
  outlets = s.outlets;
}

-- `handle`: the rows of the journal, and whether the model was called.
unfoldable pub handle_triage :
    SuppressCfg
    → (ℕ → ℕ → Bool)
    → (ℕ → Bool)
    → ℕ
    → TriageSignal
    → TriageOutcome
    → List TriageRow
    → List TriageRow × Bool
unfolding suppress_in
handle_triage cfg members is_held now s outcome rows =
    if suppress_in cfg members is_held now s s.cluster_id rows
    then (suppress_row now s ∷ rows, false)
    else (outcome_row now s outcome ∷ rows, true)
