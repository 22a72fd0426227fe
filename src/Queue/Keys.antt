-- ===== src/Queue/Keys.antt =====
-- The keys of the queue's table stay unique, and what is done stays done.
use news_pipeline.Base.{
  ℕ, Bool, true, false, not, ◌&&◌, ◌||◌, ◌==◌, ◌≡◌, ◌⊎◌, refl, inl, inr, List, [], ◌∷◌, ◌++◌, map,
  arith, any, is_none, Bool-cases, Option-cases, if◌then◌else◌,
}
use news_pipeline.Queue.{
  Message, Db, Event, enqueued, claimed, acked, failed, deferred, reaped, has_key, enqueue,
  next_ready, update, take_claim, claim, finish_msg, ack, fail_msg, fail, defer_msg, defer,
  reap_msg, reap, step, run,
}

or_self : (b : Bool) → (b || b) ≡ b
or_self true = refl
or_self false = refl

module _ {P : Type 0} where
  -- No two rows of a queue share a deduplication key.
  abbrev pub HasUniqueKeys : List (Message P) → Type 0
  HasUniqueKeys [] = Unit
  HasUniqueKeys (m ∷ ms) = (has_key m.queue_name m.dedup_key ms ≡ false) × HasUniqueKeys ms

  -- What no update of a row may change or undo.
  abbrev Keeps : (Message P → Message P) → Type 0
  Keeps f =
      (m : Message P)
      → ((f m).queue_name ≡ m.queue_name)
        × ((f m).dedup_key ≡ m.dedup_key)
        × ((f m).msg_id ≡ m.msg_id)
        × ((is_none (f m).done_ts || is_none m.done_ts) ≡ is_none m.done_ts)

  has_key-map :
      (f : Message P → Message P) (q k : ℕ) (ms : List (Message P))
      → Keeps f
      → has_key q k (map f ms) ≡ has_key q k ms
  has_key-map f q k [] keep = refl
  has_key-map f q k (m ∷ ms) keep = rw ((keep m).0, (keep m).1, has_key-map f q k ms keep)

  HasUniqueKeys-map :
      (f : Message P → Message P) (ms : List (Message P))
      → Keeps f
      → HasUniqueKeys ms
      → HasUniqueKeys (map f ms)
  HasUniqueKeys-map f [] keep h = tt
  HasUniqueKeys-map f (m ∷ ms) keep h = (
    rw ((keep m).0, (keep m).1, has_key-map f m.queue_name m.dedup_key ms keep) h.0,
    HasUniqueKeys-map f ms keep h.1,
  )

  has_key-append :
      (q k : ℕ) (xs ys : List (Message P))
      → has_key q k (xs ++ ys) ≡ (has_key q k xs || has_key q k ys)
  has_key-append q k [] ys = refl
  has_key-append q k (x ∷ xs) ys = ground (arith, has_key-append q k xs ys)

  HasUniqueKeys-append :
      (xs : List (Message P)) (m : Message P)
      → has_key m.queue_name m.dedup_key xs ≡ false
      → HasUniqueKeys xs
      → HasUniqueKeys (xs ++ m ∷ [])
  HasUniqueKeys-append [] m new h = (refl, tt)
  HasUniqueKeys-append (x ∷ xs) m new h = (
    ground (arith, has_key-append x.queue_name x.dedup_key xs (m ∷ []), h.0),
    HasUniqueKeys-append xs m (ground arith) h.1,
  )

  -- Whether the row with the id is done.
  abbrev pub is_done : ℕ → List (Message P) → Bool
  is_done id = any (λ m. m.msg_id == id && not (is_none m.done_ts))

  keeps_done :
      (id : ℕ) (m n : Message P)
      → n.msg_id ≡ m.msg_id
      → (is_none n.done_ts || is_none m.done_ts) ≡ is_none m.done_ts
      → (m.msg_id == id && not (is_none m.done_ts)) ≡ true
      → (n.msg_id == id && not (is_none n.done_ts)) ≡ true
  keeps_done id m n same done h = ground arith

  is_done-map :
      (f : Message P → Message P) (id : ℕ) (ms : List (Message P))
      → Keeps f
      → is_done id ms ≡ true
      → is_done id (map f ms) ≡ true
  is_done-map f id [] keep h = h
  is_done-map f id (m ∷ ms) keep h =
      let (same_queue, same_key, same_id, done) = keep m in
      ground (arith, keeps_done id m (f m) same_id done, is_done-map f id ms keep)

  is_done-append :
      (id : ℕ) (xs ys : List (Message P)) → is_done id xs ≡ true → is_done id (xs ++ ys) ≡ true
  is_done-append id [] ys h = cc
  is_done-append id (x ∷ xs) ys h = ground (arith, is_done-append id xs ys)

  -- What one transaction preserves: the unique keys, and every row that is done.
  abbrev Preserves : List (Message P) → List (Message P) → Type 0
  Preserves before after =
      (HasUniqueKeys before → HasUniqueKeys after)
      × ((id : ℕ) → is_done id before ≡ true → is_done id after ≡ true)

  map-Preserves :
      (f : Message P → Message P) (ms : List (Message P)) → Keeps f → Preserves ms (map f ms)
  map-Preserves f ms keep = (HasUniqueKeys-map f ms keep, λ id. is_done-map f id ms keep)

  only-Keeps :
      (id : ℕ) (f : Message P → Message P)
      → Keeps f
      → Keeps (λ m. if m.msg_id == id then f m else m)
  only-Keeps id f keep m = elim (Bool-cases (m.msg_id == id)) [
    | inl here ↦ rw here (keep m)
    | inr elsewhere ↦ rw elsewhere (refl, refl, refl, or_self (is_none m.done_ts))
  ]

  take_claim-Keeps : (consumer now : ℕ) → Keeps (take_claim consumer now)
  take_claim-Keeps consumer now m = (refl, refl, refl, or_self (is_none m.done_ts))

  finish_msg-Keeps : (now : ℕ) → Keeps (finish_msg now)
  finish_msg-Keeps now m = (refl, refl, refl, refl)

  fail_msg-Keeps : (now : ℕ) → Keeps (fail_msg now)
  fail_msg-Keeps now m = ground arith

  defer_msg-Keeps : (delay now : ℕ) → Keeps (defer_msg delay now)
  defer_msg-Keeps delay now m = ground arith

  reap_msg-Keeps : (q timeout now : ℕ) → Keeps (reap_msg q timeout now)
  reap_msg-Keeps q timeout now m = ground arith

  claim-Preserves :
      (q consumer now : ℕ) (db : Db P) → Preserves db.messages (claim q consumer now db).0.messages
  unfolding claim
  claim-Preserves q consumer now db = elim (Option-cases (next_ready q now db.messages)) [
    | inl idle ↦ rw (idle, claim) (λ h. h, λ id h. h)
    | inr (m, found) ↦
        rw (found, claim)
          (map-Preserves _ db.messages
            (only-Keeps m.msg_id (take_claim consumer now) (take_claim-Keeps consumer now)))
  ]

  enqueue-Preserves :
      (q k priority : ℕ) (payload : P) (now : ℕ) (db : Db P)
      → Preserves db.messages (enqueue q k priority payload now db).0.messages
  unfolding enqueue
  enqueue-Preserves q k priority payload now db = elim (Bool-cases (has_key q k db.messages)) [
    | inl known ↦ rw known (λ h. h, λ id h. h)
    | inr new ↦
        rw new
          (λ h. HasUniqueKeys-append db.messages _ new h, λ id h. is_done-append id db.messages _ h)
  ]

  step-Preserves :
      (e : Event P) (now : ℕ) (db : Db P) → Preserves db.messages (step e now db).messages
  unfolding step ack fail defer reap update
  step-Preserves (enqueued q k priority payload) now db =
      enqueue-Preserves q k priority payload now db
  step-Preserves (claimed q consumer) now db = claim-Preserves q consumer now db
  step-Preserves (acked id) now db =
      map-Preserves _ db.messages (only-Keeps id (finish_msg now) (finish_msg-Keeps now))
  step-Preserves (failed id) now db =
      map-Preserves _ db.messages (only-Keeps id (fail_msg now) (fail_msg-Keeps now))
  step-Preserves (deferred id delay) now db =
      map-Preserves _ db.messages (only-Keeps id (defer_msg delay now) (defer_msg-Keeps delay now))
  step-Preserves (reaped q timeout) now db =
      map-Preserves _ db.messages (reap_msg-Keeps q timeout now)

  run-Preserves :
      (events : List (Event P × ℕ)) (db : Db P) → Preserves db.messages (run events db).messages
  unfolding run
  run-Preserves [] db = (λ h. h, λ id h. h)
  run-Preserves ((e, now) ∷ events) db =
      let (keys, finished) = step-Preserves e now db in
      let (keys', finished') = run-Preserves events (step e now db) in
      (λ h. keys' (keys h), λ id h. finished' id (finished id h))

  -- Over any transactions no two rows of a queue come to share a key, whatever rows are done, and
  -- every row that is done stays done.
  pub run-keys :
      (events : List (Event P × ℕ)) (db : Db P) (id : ℕ)
      → HasUniqueKeys db.messages
      → HasUniqueKeys (run events db).messages
        × ((is_done id db.messages ≡ false) ⊎ (is_done id (run events db).messages ≡ true))
  run-keys events db id unique = (
    (run-Preserves events db).0 unique,
    elim (Bool-cases (is_done id db.messages)) [
      | inl done ↦ inr ((run-Preserves events db).1 id done)
      | inr open_yet ↦ inl open_yet
    ],
  )
