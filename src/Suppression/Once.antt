-- ===== src/Suppression/Once.antt =====
-- That a story is analysed once, in src/a1_triage/service.py.
use news_pipeline.Base.{
  ◌∙◌, ap, ℕ, ◌+◌, ◌-◌, Bool, true, false, ◌&&◌, ltb, ◌≡◌, refl, Option, none, some, List, [], ◌∷◌,
  ◌++◌, any, All, arith, if◌then◌else◌, Bool-cases, ◌⊎◌, inl, inr,
}
use news_pipeline.Suppression.{
  TriageRow, TriageSignal, TriageOutcome, invalid, triaged, SuppressCfg, discard_cooldown_expired,
  corroboration_bypass, is_story_verdict, find_prior_verdict, suppressed_by, suppress_in,
  outcome_row, suppress_row, handle_triage,
}

-- A message of the triage queue, with what the model would make of it, and what the database says when
-- it is handled: the items of each cluster, and the tickers with an open position.
pub record TriageMessage : Type 0 where
  pub now : ℕ
  pub signal : TriageSignal
  pub outcome : TriageOutcome
  pub members : ℕ → ℕ → Bool
  pub is_held : ℕ → Bool

-- The newest verdict on a story, however old.
unfoldable pub newest_verdict : (ℕ → Bool) → List TriageRow → Option TriageRow
newest_verdict in_cluster [] = none
newest_verdict in_cluster (r ∷ rs) =
    if is_story_verdict in_cluster r then some r else newest_verdict in_cluster rs

both-true : (a b : Bool) → (a && b) ≡ true → (a ≡ true) × (b ≡ true)
both-true a b h = ground (arith, h)

-- Where a cluster holds only items of the story, no row that is no verdict on the story is one on it.
verdict-outside :
    (view story : ℕ → Bool) (s : TriageRow)
    → ((id : ℕ) → view id ≡ true → story id ≡ true)
    → is_story_verdict story s ≡ false
    → is_story_verdict view s ≡ false
verdict-outside view story s inside h = elim (Bool-cases (view s.item_id)) [
  | inl here ↦
      let there = inside s.item_id here in
      let same : is_story_verdict view s ≡ is_story_verdict story s = rw (here, there) refl in
      same ∙ h
  | inr other ↦ rw other refl
]

find_prior-newest :
    (view story : ℕ → Bool) (now window : ℕ) (rows : List TriageRow) (r : TriageRow)
    → ((id : ℕ) → view id ≡ true → story id ≡ true)
    → view r.item_id ≡ true
    → newest_verdict story rows ≡ some r
    → ltb now (r.ts + window) ≡ true
    → find_prior_verdict view now window rows ≡ some r
unfolding newest_verdict find_prior_verdict
find_prior-newest view story now window [] r inside own h young = cc
find_prior-newest view story now window (s ∷ rows) r inside own h young =
    elim (Bool-cases (is_story_verdict story s)) [
      | inl here ↦
          let e : some s ≡ some r = rw here at h in
          let same : s ≡ r = cc in
          let own' : view s.item_id ≡ true = ap (λ t. view (TriageRow.item_id t)) same ∙ own in
          let young' : ltb now (s.ts + window) ≡ true =
            ap (λ t. ltb now (TriageRow.ts t + window)) same ∙ young in
          let seen : is_story_verdict view s ≡ true =
            rw (own', (both-true (story s.item_id) _ here).1) refl in
          rw (seen, young') e
      | inr skip ↦
          rw (verdict-outside view story s inside skip)
            (find_prior-newest view story now window rows r inside own (rw skip at h) young)
    ]

outcome_row-item :
    (now : ℕ) (s : TriageSignal) (o : TriageOutcome) → (outcome_row now s o).item_id ≡ s.item_id
outcome_row-item now s invalid = refl
outcome_row-item now s (triaged escalates tickers) = refl

outcome-elsewhere :
    (in_cluster : ℕ → Bool) (now : ℕ) (s : TriageSignal) (o : TriageOutcome)
    → in_cluster s.item_id ≡ false
    → is_story_verdict in_cluster (outcome_row now s o) ≡ false
outcome-elsewhere in_cluster now s o other = rw (outcome_row-item now s o, other) refl

suppress-newest :
    (in_cluster : ℕ → Bool) (now : ℕ) (s : TriageSignal) (rows : List TriageRow)
    → newest_verdict in_cluster (suppress_row now s ∷ rows) ≡ newest_verdict in_cluster rows
unfolding newest_verdict
suppress-newest in_cluster now s rows = ground arith

module _ (cfg : SuppressCfg) where
  unfoldable pub triage_run : List TriageMessage → List TriageRow → List TriageRow
  unfolding handle_triage
  triage_run [] rows = rows
  triage_run (m ∷ ms) rows =
      triage_run ms (handle_triage cfg m.members m.is_held m.now m.signal m.outcome rows).0

  -- The calls of the model for items of a story.
  unfoldable pub model_calls : (ℕ → Bool) → List TriageMessage → List TriageRow → ℕ
  unfolding handle_triage
  model_calls story [] rows = 0
  model_calls story (m ∷ ms) rows =
      let r = handle_triage cfg m.members m.is_held m.now m.signal m.outcome rows in
      (if story m.signal.item_id && r.1 then 1 else 0) + model_calls story ms r.0

  -- A message of the story that brings nothing new after the verdict `r`: no correction, in its
  -- window, not newly corroborated, and on no ticker that is held. Its cluster holds the item of `r` by
  -- then, and only items of the story.
  abbrev pub IsRepeat : (ℕ → Bool) → ℕ → TriageRow → TriageMessage → Type 0
  IsRepeat story c r m =
      (m.signal.cluster_id ≡ some c)
      × (m.signal.is_new_story ≡ false)
      × (m.signal.is_correction ≡ false)
      × (ltb m.now (r.ts + cfg.window_secs) ≡ true)
      × (discard_cooldown_expired r.action (m.now - r.ts) cfg.discard_window_secs ≡ false)
      × (corroboration_bypass m.signal.outlets r.outlets cfg.corroboration_threshold ≡ false)
      × (any m.is_held (m.signal.symbols ++ r.tickers) ≡ false)
      × (m.members c r.item_id ≡ true)
      × ((id : ℕ) → m.members c id ≡ true → story id ≡ true)

  repeat-suppressed :
      (story : ℕ → Bool) (c : ℕ) (r : TriageRow) (m : TriageMessage) (rows : List TriageRow)
      → cfg.enabled ≡ true
      → newest_verdict story rows ≡ some r
      → IsRepeat story c r m
      → handle_triage cfg m.members m.is_held m.now m.signal m.outcome rows
        ≡ (suppress_row m.now m.signal ∷ rows, false)
  unfolding handle_triage suppress_in suppressed_by
  repeat-suppressed story c r m rows on newest
        (at, old, no_fix, young, warm, known, free, own, inside) =
      let found =
        find_prior-newest (m.members c) story m.now cfg.window_secs rows r inside own newest
          young in
      rw (at, suppress_in, on, old, no_fix, found, suppressed_by, warm, known, free) refl

  -- A message of another story adds no verdict on this one.
  elsewhere-newest :
      (story : ℕ → Bool) (m : TriageMessage) (rows : List TriageRow)
      → story m.signal.item_id ≡ false
      → newest_verdict story (handle_triage cfg m.members m.is_held m.now m.signal m.outcome rows).0
        ≡ newest_verdict story rows
  unfolding handle_triage newest_verdict
  elsewhere-newest story m rows other =
      elim (Bool-cases
        (suppress_in cfg m.members m.is_held m.now m.signal m.signal.cluster_id rows)) [
          | inl quiet ↦ rw (quiet, other) refl
          | inr called ↦
              rw called (rw (outcome-elsewhere story m.now m.signal m.outcome other) refl)
        ]

  -- A story is analysed once: after the verdict `r` on it, no messages call the model for an item of
  -- the story, as long as those of the story are repeats of it and the others are of items that are
  -- not in it, and `r` stays the newest verdict. What the database says of clusters and of open positions
  -- may change from message to message. The suppression is on.
  pub triage_run-one_analysis :
      (story : ℕ → Bool) (c : ℕ) (r : TriageRow) (ms : List TriageMessage) (rows : List TriageRow)
      → cfg.enabled ≡ true
      → newest_verdict story rows ≡ some r
      → All (λ m. IsRepeat story c r m ⊎ (story m.signal.item_id ≡ false)) ms
      → (model_calls story ms rows ≡ 0) × (newest_verdict story (triage_run ms rows) ≡ some r)
  unfolding model_calls triage_run
  triage_run-one_analysis story c r [] rows on newest h = (refl, newest)
  triage_run-one_analysis story c r (m ∷ ms) rows on newest (inl again, hs) =
      let quiet = repeat-suppressed story c r m rows on newest again in
      let still : newest_verdict story (suppress_row m.now m.signal ∷ rows) ≡ some r =
        suppress-newest story m.now m.signal rows ∙ newest in
      let rest =
        triage_run-one_analysis story c r ms (suppress_row m.now m.signal ∷ rows) on still hs in
      rw quiet (ground (arith, rest.0), rest.1)
  triage_run-one_analysis story c r (m ∷ ms) rows on newest (inr other, hs) =
      let rows' = (handle_triage cfg m.members m.is_held m.now m.signal m.outcome rows).0 in
      let rest =
        triage_run-one_analysis story c r ms rows' on (elsewhere-newest story m rows other ∙ newest)
          hs in
      rw other (omega (arith, rest.0), rest.1)
