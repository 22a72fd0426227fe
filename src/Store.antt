-- ===== src/Store.antt =====
-- src/c1_ingestion/store.py: `store_item`, with the table of revisions and the keys of the messages
-- that the same transaction enqueues. Of an item's columns those that decide the outcome are kept.
pub mod Revisions
use news_pipeline.Base.{
  ℕ, suc, ◌+◌, Bool, true, false, not, ◌&&◌, ◌||◌, ◌==◌, Option, none, some, List, [], ◌∷◌, ltb,
  any, if◌then◌else◌,
}

-- A row of `news.news_items`.
pub record Row : Type 0 where
  pub item_id : ℕ
  pub revision : ℕ
  pub content_hash : ℕ
  pub is_correction : Bool
  pub supersedes : Option ℕ

-- The part of a `NewsItem` that `store_item` looks at.
pub record Item : Type 0 where
  pub item_id : ℕ
  pub content_hash : ℕ
  pub is_correction : Bool

-- The table, and the (item, revision) keys on the dedup queue, newest first.
pub record StoreDb : Type 0 where
  pub rows : List Row
  pub queue : List (ℕ × ℕ)

pub record StoreResult : Type 0 where
  pub stored : Bool
  pub revision : ℕ
  pub is_correction : Bool
  pub enqueued : Bool

abbrev later_row : Row → Option Row → Row
later_row r none = r
later_row r (some s) = if ltb r.revision s.revision then s else r

-- ORDER BY revision DESC LIMIT 1
unfoldable pub latest : ℕ → List Row → Option Row
latest id [] = none
latest id (r ∷ rs) =
    let rest = latest id rs in if r.item_id == id then some (later_row r rest) else rest

abbrev pub has_message : ℕ → ℕ → List (ℕ × ℕ) → Bool
has_message id revision = any (λ k. k.0 == id && k.1 == revision)

-- The insert and the enqueue of one transaction.
unfoldable pub insert_row : Item → ℕ → Option ℕ → Bool → Bool → StoreDb → StoreDb × StoreResult
insert_row item revision supersedes is_corr enqueue db =
    let row : Row = record {
      item_id = item.item_id;
      revision = revision;
      content_hash = item.content_hash;
      is_correction = is_corr;
      supersedes = supersedes;
    } in
    let fresh = enqueue && not (has_message item.item_id revision db.queue) in
    (
      record {
        rows = row ∷ db.rows;
        queue = if fresh then (item.item_id, revision) ∷ db.queue else db.queue;
      },
      record { stored = true; revision = revision; is_correction = is_corr; enqueued = fresh },
    )

unfoldable pub store_item : Item → Bool → Bool → StoreDb → StoreDb × StoreResult
unfolding insert_row
store_item item immutable enqueue db = elim (latest item.item_id db.rows) [
  | none ↦ insert_row item 1 none item.is_correction enqueue db
  | some prev ↦
      if immutable || prev.content_hash == item.content_hash
      then (
        db,
        record {
          stored = false;
          revision = prev.revision;
          is_correction = false;
          enqueued = false;
        },
      )
      else insert_row item (prev.revision + 1) (some prev.revision) true enqueue db
]
