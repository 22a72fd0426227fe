-- ===== src/Examples/Tables.antt =====
-- The theorems on the queue and on the item store, at tables of two rows.
use news_pipeline.Base.{ℕ, ◌≡◌, ◌⊎◌, refl, true, false, none, some, List, [], ◌∷◌, arith}
use news_pipeline.Queue.{
  Message, Db, Event, enqueued, claimed, acked, failed, reaped, next_ready, run,
}
use news_pipeline.Queue.Order.{IsChoice, next_ready-IsChoice}
use news_pipeline.Queue.Keys.{HasUniqueKeys, is_done, run-keys}
use news_pipeline.Store.{Item, StoreDb, store_item}
use news_pipeline.Store.Revisions.{IsStored, store_item-IsStored}

abbrev finished : Message ℕ
finished = record {
  msg_id = 1;
  queue_name = 0;
  dedup_key = 11;
  priority = 100;
  payload = 5;
  available_ts = 0;
  claimed_by = some 4;
  claimed_ts = some 2;
  done_ts = some 3;
  attempts = 1;
  max_attempts = 5;
}

abbrev waiting : Message ℕ
waiting = record {
  msg_id = 2;
  queue_name = 0;
  dedup_key = 12;
  priority = 100;
  payload = 6;
  available_ts = 1;
  claimed_by = none;
  claimed_ts = none;
  done_ts = none;
  attempts = 0;
  max_attempts = 5;
}

abbrev urgent : Message ℕ
urgent = record waiting { msg_id = 3; dedup_key = 13; priority = 0 }

abbrev table : Db ℕ
table = record { messages = finished ∷ waiting ∷ urgent ∷ []; next_id = 4; quarantine = [] }

abbrev transactions : List (Event ℕ × ℕ)
transactions =
    (enqueued 0 12 50 9, 10)
    ∷ (claimed 0 4, 11)
    ∷ (failed 3, 12)
    ∷ (claimed 0 4, 13)
    ∷ (reaped 0 60, 80)
    ∷ (acked 2, 81)
    ∷ []

next_ready-IsChoice_example :
    IsChoice 0 10
      (finished ∷ waiting ∷ urgent ∷ [])
      (next_ready 0 10 (finished ∷ waiting ∷ urgent ∷ []))
next_ready-IsChoice_example = next_ready-IsChoice 0 10 (finished ∷ waiting ∷ urgent ∷ [])

run-keys_example :
    HasUniqueKeys (run transactions table).messages
    × ((is_done 1 table.messages ≡ false) ⊎ (is_done 1 (run transactions table).messages ≡ true))
run-keys_example = run-keys transactions table 1 (refl, (refl, (refl, tt)))

-- An item with two revisions, both enqueued.
abbrev revisions : StoreDb
revisions = record {
  rows =
      record {
        item_id = 7;
        revision = 2;
        content_hash = 20;
        is_correction = true;
        supersedes = some 1;
      }
      ∷ record {
        item_id = 7;
        revision = 1;
        content_hash = 10;
        is_correction = false;
        supersedes = none;
      }
      ∷ [];
  queue = (7, 2) ∷ (7, 1) ∷ [];
}

abbrev corrected : Item
corrected = record { item_id = 7; content_hash = 30; is_correction = false }

store_item-IsStored_example :
    IsStored corrected false true revisions (store_item corrected false true revisions)
store_item-IsStored_example =
    store_item-IsStored corrected false true revisions
      ((refl, (refl, tt)), (omega arith, (omega arith, tt)))
