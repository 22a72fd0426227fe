-- ===== src/Store/Revisions.antt =====
-- The revisions that src/c1_ingestion/store.py gives to an item.
use news_pipeline.Base.{
  ℕ, suc, ◌+◌, ◌≤◌, ◌<◌, Bool, true, false, ◌||◌, ◌==◌, ◌≡◌, ◌≢◌, refl, ◌⊎◌, inl, inr, Option, none,
  some, List, [], ◌∷◌, ◌++◌, arith, All, Bool-cases, Option-cases, if◌then◌else◌, ltb, ap, sym, ◌∙◌,
  subst,
}
use native.Mathlib.Nat.{zero-add}
use news_pipeline.Store.{
  Row, Item, StoreDb, StoreResult, later_row, latest, has_message, insert_row, store_item,
}

-- How many rows an item has.
abbrev pub count : ℕ → List Row → ℕ
count id [] = 0
count id (r ∷ rs) = (if r.item_id == id then 1 else 0) + count id rs

-- Every row carries the number of the rows of its item up to itself, so that the revisions of an
-- item are 1, 2, ... without gap or repeat.
abbrev pub IsNumbered : List Row → Type 0
IsNumbered [] = Unit
IsNumbered (r ∷ rs) = (r.revision ≡ suc (count r.item_id rs)) × IsNumbered rs

abbrev LatestIs : ℕ → Option Row → Type 0
LatestIs n none = n ≡ 0
LatestIs n (some r) = (r.revision ≡ n) × (1 ≤ n)

LatestIs-cons :
    (r : Row) (rest : Option Row) (n : ℕ)
    → r.revision ≡ suc n
    → LatestIs n rest
    → LatestIs (1 + n) (some (later_row r rest))
LatestIs-cons r none n e h = ground arith
LatestIs-cons r (some s) n e h = ground arith

latest-count : (id : ℕ) (rs : List Row) → IsNumbered rs → LatestIs (count id rs) (latest id rs)
unfolding latest
latest-count id [] h = refl
latest-count id (r ∷ rs) h = elim (Bool-cases (r.item_id == id)) [
  | inl here ↦
      let same : r.item_id ≡ id = ground arith in
      rw here (
        LatestIs-cons r (latest id rs) (count id rs) (ground (arith, h.0)) (latest-count id rs h.1))
  | inr other ↦ rw other (rw (zero-add (count id rs)) (latest-count id rs h.1))
]

-- No message names a revision that its item does not have.
abbrev pub IsBacked : List Row → List (ℕ × ℕ) → Type 0
IsBacked rs ks = All (λ k. k.1 ≤ count k.0 rs) ks

abbrev pub IsSound : StoreDb → Type 0
IsSound db = IsNumbered db.rows × IsBacked db.rows db.queue

IsBacked-cons :
    (r : Row) (rs : List Row) (ks : List (ℕ × ℕ)) → IsBacked rs ks → IsBacked (r ∷ rs) ks
IsBacked-cons r rs [] h = tt
IsBacked-cons r rs (k ∷ ks) h = (omega (arith, h.0), IsBacked-cons r rs ks h.1)

has_message-above :
    (id n : ℕ) (rs : List Row) (ks : List (ℕ × ℕ))
    → IsBacked rs ks
    → count id rs < n
    → has_message id n ks ≡ false
has_message-above id n rs [] h lt = refl
has_message-above id n rs (k ∷ ks) h lt = elim (Bool-cases (k.0 == id)) [
  | inl here ↦
      let same : k.0 ≡ id = ground arith in
      let low : k.1 ≤ count id rs = rw (← same) h.0 in
      ground (arith, has_message-above id n rs ks h.1 lt)
  | inr other ↦ rw other (has_message-above id n rs ks h.1 lt)
]

-- The row is one of the list.
abbrev pub IsRow : Row → List Row → Type 0
IsRow r rs = (before : List Row) × (after : List Row) × (rs ≡ before ++ r ∷ after)

-- The row of the item with the last of its revisions.
abbrev pub IsLatest : ℕ → List Row → Row → Type 0
IsLatest id rs r = IsRow r rs × (r.item_id ≡ id) × (r.revision ≡ count id rs)

IsRow-cons : (r s : Row) (rs : List Row) → IsRow r rs → IsRow r (s ∷ rs)
IsRow-cons r s rs (before, after, e) = (s ∷ before, after, ap (λ xs. s ∷ xs) e)

some_injective : {A : Type 0} {a b : A} → some a ≡ some b → a ≡ b
some_injective h = cc

latest-IsRow :
    (id : ℕ) (rs : List Row) (r : Row) → latest id rs ≡ some r → IsRow r rs × (r.item_id ≡ id)
unfolding latest
latest-IsRow id [] r h = absurd (ground (arith, h))
latest-IsRow id (s ∷ rs) r h = elim (Bool-cases (s.item_id == id)) [
  | inr other ↦
      let (row, same) = latest-IsRow id rs r (rw other at h) in (IsRow-cons r s rs row, same)
  | inl here ↦ elim (Option-cases (latest id rs)) [
    | inl alone ↦
        let e : s ≡ r = some_injective (rw (here, alone) at h) in
        (([], rs, ap (λ x. x ∷ rs) e), ap (λ x. Row.item_id x) (sym e) ∙ ground arith)
    | inr (t, found) ↦
        let e : (if ltb s.revision t.revision then t else s) ≡ r =
          some_injective (rw (here, found) at h) in
        elim (Bool-cases (ltb s.revision t.revision)) [
          | inl newer ↦
              let (row, same) = latest-IsRow id rs r (found ∙ ap (λ x. some x) (rw newer at e)) in
              (IsRow-cons r s rs row, same)
          | inr older ↦
              let e' : s ≡ r = rw older at e in
              (([], rs, ap (λ x. x ∷ rs) e'), ap (λ x. Row.item_id x) (sym e') ∙ ground arith)
        ]
  ]
]

-- What a write of revision `n` leaves: one row more, of the item and its content, a message for
-- that revision exactly if one was asked for, and a report of both.
abbrev pub IsWritten : Item → ℕ → Option ℕ → Bool → Bool → StoreDb → StoreDb → StoreResult → Type 0
IsWritten item n sup corr enqueue db after result =
    (after.rows
      ≡ record {
        item_id = item.item_id;
        revision = n;
        content_hash = item.content_hash;
        is_correction = corr;
        supersedes = sup;
      }
        ∷ db.rows)
    × (after.queue ≡ (if enqueue then (item.item_id, n) ∷ db.queue else db.queue))
    × (result ≡ record { stored = true; revision = n; is_correction = corr; enqueued = enqueue })

either_reason :
    (immutable : Bool) (a b : ℕ) → (immutable || a == b) ≡ true → (immutable ≡ true) ⊎ (a ≡ b)
either_reason true a b h = inl refl
either_reason false a b h = inr (ground (arith, h))

no_reason :
    (immutable : Bool) (a b : ℕ) → (immutable || a == b) ≡ false → (immutable ≡ false) × (a ≢ b)
no_reason immutable a b h = (ground (arith, h), λ e. ground (arith, h, e))

insert_row-IsWritten :
    (item : Item) (n : ℕ) (sup : Option ℕ) (corr enqueue : Bool) (db : StoreDb)
    → n ≡ suc (count item.item_id db.rows)
    → IsSound db
    → let (after, result) = insert_row item n sup corr enqueue db in
      IsSound after × IsWritten item n sup corr enqueue db after result
unfolding insert_row
insert_row-IsWritten item n sup corr enqueue db e (numbered, backed) =
    let new : has_message item.item_id n db.queue ≡ false =
      has_message-above item.item_id n db.rows db.queue backed (omega arith) in
    let self : (item.item_id == item.item_id) ≡ true = ground arith in
    let older =
      IsBacked-cons
        (record {
          item_id = item.item_id;
          revision = n;
          content_hash = item.content_hash;
          is_correction = corr;
          supersedes = sup;
        })
        db.rows db.queue backed in
    elim (Bool-cases enqueue) [
      | inl on ↦ rw (on, new) (((e, numbered), (rw self (omega arith), older)), (refl, refl, refl))
      | inr off ↦ rw off (((e, numbered), older), (refl, refl, refl))
    ]

-- What a call of `store_item` leaves. The table stays sound, and: an item without a row is written as
-- revision 1 with its own mark of a correction; one that is immutable, or has the content of its
-- latest row, is not written, and the report names the latest revision; any other is written as the
-- next revision, a correction that supersedes the latest.
abbrev pub IsStored : Item → Bool → Bool → StoreDb → StoreDb × StoreResult → Type 0
IsStored item immutable enqueue db (after, result) =
    IsSound after
    × (((count item.item_id db.rows ≡ 0)
          × IsWritten item 1 none item.is_correction enqueue db after result)
        ⊎ ((r : Row) × IsLatest item.item_id db.rows r
            × ((immutable ≡ true) ⊎ (r.content_hash ≡ item.content_hash))
            × (after ≡ db)
            × (result ≡ record {
              stored = false;
              revision = count item.item_id db.rows;
              is_correction = false;
              enqueued = false;
            }))
        ⊎ ((r : Row) × IsLatest item.item_id db.rows r
            × (immutable ≡ false)
            × (r.content_hash ≢ item.content_hash)
            × IsWritten item (suc (count item.item_id db.rows)) (some (count item.item_id db.rows))
                true enqueue db after result))

-- From a sound table, in which the revisions of an item are 1, 2, ... and no message names a revision
-- that does not exist, a call of `store_item` leaves a sound table. An item without a row is written
-- as revision 1; one that is immutable, or has the content of its latest row, leaves table and queue
-- as they are and reports the latest revision; any other is written as the next revision, as a
-- correction that supersedes the latest. A write adds one row, and a message for its revision exactly
-- if one was asked for.
pub store_item-IsStored :
    (item : Item) (immutable enqueue : Bool) (db : StoreDb)
    → IsSound db
    → IsStored item immutable enqueue db (store_item item immutable enqueue db)
unfolding store_item
store_item-IsStored item immutable enqueue db sound =
    elim (Option-cases (latest item.item_id db.rows)) [
      | inl new ↦
          let none_yet : count item.item_id db.rows ≡ 0 =
            ground (arith, latest-count item.item_id db.rows sound.0) in
          let (kept, written) =
            insert_row-IsWritten item 1 none item.is_correction enqueue db (omega arith) sound in
          rw (new, store_item) (kept, inl (none_yet, written))
      | inr (prev, found) ↦
          let known : LatestIs (count item.item_id db.rows) (some prev) =
            rw found at (latest-count item.item_id db.rows sound.0) in
          let (row, same) = latest-IsRow item.item_id db.rows prev found in
          elim (Bool-cases (immutable || prev.content_hash == item.content_hash)) [
            | inl echo ↦
                let report =
                  ap
                    (λ (n : ℕ). record {
                      stored = false;
                      revision = n;
                      is_correction = false;
                      enqueued = false;
                    })
                    known.0 in
                rw (found, store_item)
                  (rw echo (
                    sound,
                    inr (
                        inl (
                          prev,
                          (row, same, known.0),
                          either_reason immutable prev.content_hash item.content_hash echo,
                          refl,
                          report,
                        )),
                  ))
            | inr changed ↦
                let n = suc (count item.item_id db.rows) in
                let next : prev.revision + 1 ≡ n = omega (arith, known.0) in
                let written =
                  insert_row-IsWritten item n (some (count item.item_id db.rows)) true enqueue db
                    refl sound in
                let (keep, differ) =
                  no_reason immutable prev.content_hash item.content_hash changed in
                let calls =
                  subst
                    (λ (k : ℕ).
                      let (after, result) = insert_row item n (some k) true enqueue db in
                      IsSound after
                      × IsWritten item n (some (count item.item_id db.rows)) true enqueue db after
                          result)
                    (sym known.0) written in
                let called =
                  subst
                    (λ (k : ℕ).
                      let (after, result) =
                        insert_row item k (some prev.revision) true enqueue db in
                      IsSound after
                      × IsWritten item n (some (count item.item_id db.rows)) true enqueue db after
                          result)
                    (sym next) calls in
                rw (found, store_item)
                  (rw changed
                    (called.0, inr (inr (prev, (row, same, known.0), keep, differ, called.1))))
          ]
    ]
