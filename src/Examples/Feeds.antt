-- ===== src/Examples/Feeds.antt =====
-- The theorems on stories and on repeats, at a report and its copies.
use news_pipeline.Base.{
  ℕ, ◌≡◌, refl, Bool, true, false, not, ◌&&◌, ◌||◌, ◌==◌, none, some, List, [], ◌∷◌, any, is_none,
  inl, arith,
}
use news_pipeline.Base.Int.{pos}
use news_pipeline.Num.Fixed.{Fixed, fx, fixed_num}
use news_pipeline.Num.Fixed.Laws.{Fixed-IsFloat}
use news_pipeline.Stories.{
  StoryItem, SearchView, StoryCfg, StoryDb, existing_cluster_of, best_neighbor, other_items,
  process, handle_message,
}
use news_pipeline.Stories.Partition.{
  StoryDelivery, completes, dies_before_forward, dies_before_member, IsPartition, deliver_stories,
  deliver_stories-IsPartition,
}
use news_pipeline.Stories.Joined.{is_match, process-is_new_story}
use news_pipeline.Stories.Redelivery.{handle_message-redelivered}
use news_pipeline.Suppression.{TriageRow, SuppressCfg, escalate, triaged}
use news_pipeline.Suppression.Once.{
  TriageMessage, newest_verdict, model_calls, triage_run, triage_run-one_analysis,
}

abbrev story_cfg : StoryCfg Fixed
story_cfg = record {
  sim_threshold = fx (pos 9000);
  cluster_threshold = fx (pos 8000);
  require_symbol_overlap = true;
}

abbrev about : ℕ → List ℕ
about id = id ∷ []

abbrev copy_item : StoryItem
copy_item = record { item_id = 2; revision = 1; source = 31; symbols = 1 ∷ [] }

-- The report, and its copy at 0.95.
abbrev near_view : SearchView Fixed
near_view = record {
  nearest = record { item_id = 1; cluster_id = some 5; score = fx (pos 9500) } ∷ [];
  rev_sim = none;
}

abbrev report_db : StoryDb
report_db = record {
  next_cluster = 6;
  members = record { cluster_id = 5; item_id = 1; revision = 1; source = 30 } ∷ [];
  triage_keys = (1, 1) ∷ [];
}

abbrev copies : List (StoryDelivery Fixed)
copies =
    record { item = copy_item; view = near_view; reach = dies_before_member }
    ∷ record { item = copy_item; view = near_view; reach = dies_before_forward }
    ∷ record { item = copy_item; view = near_view; reach = completes }
    ∷ []

deliver_stories-IsPartition_example :
    IsPartition (deliver_stories story_cfg about (λ t. false) copies report_db).members
    × ((id c : ℕ)
        → existing_cluster_of id report_db.members ≡ some c
        → existing_cluster_of id
            (deliver_stories story_cfg about (λ t. false) copies report_db).members
          ≡ some c)
unfolding existing_cluster_of
deliver_stories-IsPartition_example =
    deliver_stories-IsPartition story_cfg about (λ t. false) copies report_db (refl, tt)

process-is_new_story_example :
    (process story_cfg about near_view copy_item report_db).1.is_new_story
    ≡ not (any (is_match story_cfg about copy_item) near_view.nearest)
unfolding existing_cluster_of
process-is_new_story_example =
    process-is_new_story Fixed-IsFloat story_cfg about near_view copy_item report_db refl
      (refl, tt, tt)

handle_message-redelivered_example :
    ((handle_message story_cfg about (λ t. false) near_view copy_item report_db).1 ≡ none)
    × (is_none
          (handle_message story_cfg about
            (λ t. false)
            near_view
            copy_item
            (process story_cfg about near_view copy_item report_db).0).1
        ≡ false)
unfolding existing_cluster_of best_neighbor other_items
handle_message-redelivered_example =
    handle_message-redelivered story_cfg about (λ t. false) near_view near_view copy_item report_db
      (record { item_id = 1; cluster_id = some 5; score = fx (pos 9500) }) 5 refl refl refl refl
      refl refl

abbrev suppress_cfg : SuppressCfg
suppress_cfg = record {
  enabled = true;
  window_secs = 86400;
  discard_window_secs = 7200;
  corroboration_threshold = 3;
}

abbrev first_verdict : TriageRow
first_verdict = record {
  item_id = 1;
  ts = 1000;
  action = escalate;
  synthetic = false;
  tickers = 1 ∷ [];
  outlets = 1;
}

-- The cluster 5 when the copy comes, and the items that it ever has.
abbrev story_members : ℕ → ℕ → Bool
story_members c id = c == 5 && (id == 1 || id == 2)

abbrev story : ℕ → Bool
story id = id == 1 || (id == 2 || id == 3)

members-story : (id : ℕ) → story_members 5 id ≡ true → story id ≡ true
members-story id h = ground (arith, h)

abbrev copy_message : TriageMessage
copy_message = record {
  now = 5000;
  signal = record {
    item_id = 2;
    symbols = 1 ∷ [];
    is_correction = false;
    cluster_id = some 5;
    is_new_story = false;
    outlets = 2;
  };
  outcome = triaged true (1 ∷ []);
  members = story_members;
  is_held = λ t. false;
}

triage_run-one_analysis_example :
    (model_calls suppress_cfg story (copy_message ∷ []) (first_verdict ∷ []) ≡ 0)
    × (newest_verdict story (triage_run suppress_cfg (copy_message ∷ []) (first_verdict ∷ []))
        ≡ some first_verdict)
unfolding newest_verdict
triage_run-one_analysis_example =
    triage_run-one_analysis suppress_cfg story 5 first_verdict (copy_message ∷ [])
      (first_verdict ∷ []) refl refl
      (inl (refl, refl, refl, refl, refl, refl, refl, refl, members-story), tt)
