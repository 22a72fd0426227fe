-- ===== src/Queue.antt =====
-- src/common/queue.py over the queue functions of schema/news-store-schema.sql: the table of
-- messages and the operations on it. Times are seconds; queues, keys and consumers are numbered.
pub mod Order
pub mod Keys
use news_pipeline.Base.{
  ℕ, ◌+◌, ◌-◌, ◌*◌, Bool, true, false, not, ◌&&◌, ◌||◌, Option, none, some, List, [], ◌∷◌, ◌++◌,
  map, any, ltb, leb, ◌==◌, is_none, if◌then◌else◌,
}

-- A row of `queue.messages`.
pub record Message (P : Type 0) : Type 0 where
  pub msg_id : ℕ
  pub queue_name : ℕ
  pub dedup_key : ℕ
  pub priority : ℕ
  pub payload : P
  pub available_ts : ℕ
  pub claimed_by : Option ℕ
  pub claimed_ts : Option ℕ
  pub done_ts : Option ℕ
  pub attempts : ℕ
  pub max_attempts : ℕ

-- The table, its identity column, and the payloads that went to `news.quarantine`.
pub record Db (P : Type 0) : Type 0 where
  pub messages : List (Message P)
  pub next_id : ℕ
  pub quarantine : List P

pub data Event (P : Type 0) : Type 0 where
  enqueued : ℕ → ℕ → ℕ → P → Event P
  claimed : ℕ → ℕ → Event P
  acked : ℕ → Event P
  failed : ℕ → Event P
  deferred : ℕ → ℕ → Event P
  reaped : ℕ → ℕ → Event P

-- claimed_ts < now() - timeout
abbrev is_stale : ℕ → ℕ → Option ℕ → Bool
is_stale timeout now none = false
is_stale timeout now (some since) = ltb (since + timeout) now

module _ {P : Type 0} where
  abbrev pub has_key : ℕ → ℕ → List (Message P) → Bool
  has_key q k = any (λ m. m.queue_name == q && m.dedup_key == k)

  -- `enqueue`: nothing on a known key.
  unfoldable pub enqueue : ℕ → ℕ → ℕ → P → ℕ → Db P → Db P × Bool
  enqueue q k priority payload now db =
      let row : Message P = record {
        msg_id = db.next_id;
        queue_name = q;
        dedup_key = k;
        priority = priority;
        payload = payload;
        available_ts = now;
        claimed_by = none;
        claimed_ts = none;
        done_ts = none;
        attempts = 0;
        max_attempts = 5;
      } in
      if has_key q k db.messages
      then (db, false)
      else (record db { messages = db.messages ++ row ∷ []; next_id = db.next_id + 1 }, true)

  -- A message that `claim_next` may take.
  unfoldable pub is_ready : ℕ → ℕ → Message P → Bool
  is_ready q now m =
      m.queue_name == q && (is_none m.done_ts && (is_none m.claimed_ts && leb m.available_ts now))

  -- ORDER BY priority, available_ts
  unfoldable pub is_sooner : Message P → Message P → Bool
  is_sooner m n =
      ltb m.priority n.priority || (m.priority == n.priority && ltb m.available_ts n.available_ts)

  abbrev pub pick : Message P → Option (Message P) → Message P
  pick m none = m
  pick m (some r) = if is_sooner r m then r else m

  -- The ready message that comes first, the earlier row of equal ones.
  unfoldable pub next_ready : ℕ → ℕ → List (Message P) → Option (Message P)
  next_ready q now [] = none
  next_ready q now (m ∷ ms) =
      let rest = next_ready q now ms in if is_ready q now m then some (pick m rest) else rest

  -- UPDATE ... WHERE msg_id = id
  unfoldable pub update : ℕ → (Message P → Message P) → List (Message P) → List (Message P)
  update id f = map (λ m. if m.msg_id == id then f m else m)

  abbrev pub take_claim : ℕ → ℕ → Message P → Message P
  take_claim consumer now m = record m {
    claimed_by = some consumer;
    claimed_ts = some now;
    attempts = m.attempts + 1;
  }

  -- `claim`
  unfoldable pub claim : ℕ → ℕ → ℕ → Db P → Db P × Option (Message P)
  unfolding update
  claim q consumer now db = elim (next_ready q now db.messages) [
    | none ↦ (db, none)
    | some m ↦ (
      record db { messages = update m.msg_id (take_claim consumer now) db.messages },
      some (take_claim consumer now m),
    )
  ]

  abbrev pub finish_msg : ℕ → Message P → Message P
  finish_msg now m = record m { done_ts = some now }

  -- `ack`
  unfoldable pub ack : ℕ → ℕ → Db P → Db P
  unfolding update
  ack id now db = record db { messages = update id (finish_msg now) db.messages }

  abbrev pub is_spent : Message P → Bool
  is_spent m = leb m.max_attempts m.attempts

  abbrev pub fail_msg : ℕ → Message P → Message P
  fail_msg now m =
      if is_spent m
      then finish_msg now m
      else record m { claimed_by = none; claimed_ts = none; available_ts = now + 5 * m.attempts }

  -- The payload of the row with the id, if its attempts are spent.
  unfoldable pub dead_letters : ℕ → List (Message P) → List P
  dead_letters id [] = []
  dead_letters id (m ∷ ms) =
      (if m.msg_id == id then (if is_spent m then m.payload ∷ [] else []) else [])
      ++ dead_letters id ms

  -- `fail`
  unfoldable pub fail : ℕ → ℕ → Db P → Db P
  unfolding update
  fail id now db = record db {
    messages = update id (fail_msg now) db.messages;
    quarantine = db.quarantine ++ dead_letters id db.messages;
  }

  abbrev pub defer_msg : ℕ → ℕ → Message P → Message P
  defer_msg delay now m =
      if is_none m.done_ts
      then record m {
        claimed_by = none;
        claimed_ts = none;
        attempts = m.attempts - 1;
        available_ts = now + delay;
      }
      else m

  -- `defer`
  unfoldable pub defer : ℕ → ℕ → ℕ → Db P → Db P
  unfolding update
  defer id delay now db = record db { messages = update id (defer_msg delay now) db.messages }

  abbrev pub reap_msg : ℕ → ℕ → ℕ → Message P → Message P
  reap_msg q timeout now m =
      if m.queue_name == q && (is_none m.done_ts && is_stale timeout now m.claimed_ts)
      then record m { claimed_by = none; claimed_ts = none }
      else m

  -- `reap_stale`
  unfoldable pub reap : ℕ → ℕ → ℕ → Db P → Db P
  reap q timeout now db = record db { messages = map (reap_msg q timeout now) db.messages }

  -- One transaction at a time.
  unfoldable pub step : Event P → ℕ → Db P → Db P
  step (enqueued q k priority payload) now db = (enqueue q k priority payload now db).0
  step (claimed q consumer) now db = (claim q consumer now db).0
  step (acked id) now db = ack id now db
  step (failed id) now db = fail id now db
  step (deferred id delay) now db = defer id delay now db
  step (reaped q timeout) now db = reap q timeout now db

  unfoldable pub run : List (Event P × ℕ) → Db P → Db P
  run [] db = db
  run ((e, now) ∷ events) db = run events (step e now db)
