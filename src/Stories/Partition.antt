-- ===== src/Stories/Partition.antt =====
-- That src/c2_dedup/cluster.py keeps every item in one cluster.
use news_pipeline.Base.{
  ℕ, suc, Bool, true, false, ◌==◌, ◌≡◌, refl, Option, none, some, List, [], ◌∷◌, any, All, arith,
  if◌then◌else◌, Bool-cases, Option-cases, ◌⊎◌, inl, inr,
}
use news_pipeline.Num.{Num}
use news_pipeline.Stories.{
  StoryItem, Member, SearchView, Neighbor, StoryCfg, StoryDb, existing_cluster_of, is_member,
  add_member, member_of, best_neighbor, other_items, join_own, join_cluster, join_target, new_story,
  join_best, join, process, handle_message, to_triage,
}

-- Every member is in the cluster that a look-up of its item finds.
abbrev pub IsPartition : List Member → Type 0
IsPartition ms = All (λ m. existing_cluster_of m.item_id ms ≡ some m.cluster_id) ms

All-imp {ℓ} :
    {A : Type ℓ} {P Q : A → Type 0} (f : (x : A) → P x → Q x) (xs : List A) → All P xs → All Q xs
All-imp f [] h = h
All-imp f (x ∷ xs) (h, hs) = (f x h, All-imp f xs hs)

-- The cluster suits the item: it has none, or this one.
abbrev pub Suits : Member → List Member → Type 0
Suits m ms =
    (existing_cluster_of m.item_id ms ≡ none)
    ⊎ (existing_cluster_of m.item_id ms ≡ some m.cluster_id)

member-existing :
    (m : Member) (ms : List Member)
    → any (is_member m) ms ≡ true
    → existing_cluster_of m.item_id ms ≡ none
    → ⊥
unfolding existing_cluster_of
member-existing m [] h e = cc
member-existing m (n ∷ ms) h e = ground (arith, member-existing m ms)

-- The look-up after an item joins a cluster that suits it.
pub existing-add_member :
    (m : Member) (ms : List Member) (id : ℕ)
    → Suits m ms
    → existing_cluster_of id (add_member m ms)
      ≡ (if m.item_id == id then some m.cluster_id else existing_cluster_of id ms)
unfolding add_member existing_cluster_of
existing-add_member m ms id h = elim (Bool-cases (any (is_member m) ms)) [
  | inr new ↦ rw new refl
  | inl old ↦ elim h [
    | inl nowhere ↦ absurd (member-existing m ms old nowhere)
    | inr here ↦ elim (Bool-cases (m.item_id == id)) [
      | inr other ↦ rw (old, other) refl
      | inl same ↦ let e : m.item_id ≡ id = ground (arith, same) in rw (old, same) (rw (← e) here)
    ]
  ]
]

-- Whoever has a cluster keeps it.
pub add_member-keeps :
    (m : Member) (ms : List Member) (id c : ℕ)
    → Suits m ms
    → existing_cluster_of id ms ≡ some c
    → existing_cluster_of id (add_member m ms) ≡ some c
add_member-keeps m ms id c h e =
    rw (existing-add_member m ms id h) (elim (Bool-cases (m.item_id == id)) [
      | inr other ↦ rw other e
      | inl same ↦
          let eq : m.item_id ≡ id = ground (arith, same) in
          let found : existing_cluster_of m.item_id ms ≡ some c = rw eq e in
          rw same (elim h [ inl nowhere ↦ cc | inr here ↦ cc ])
    ])

All-add_member :
    (P : Member → Type 0) (m : Member) (ms : List Member) → P m → All P ms → All P (add_member m ms)
unfolding add_member
All-add_member P m ms h hs = elim (Bool-cases (any (is_member m) ms)) [
  | inl old ↦ rw old hs
  | inr new ↦ rw new (h, hs)
]

add_member-IsPartition :
    (m : Member) (ms : List Member) → Suits m ms → IsPartition ms → IsPartition (add_member m ms)
add_member-IsPartition m ms h sound =
    All-add_member (λ n. existing_cluster_of n.item_id (add_member m ms) ≡ some n.cluster_id) m ms
      (rw (existing-add_member m ms m.item_id h) (ground arith))
      (All-imp
        (λ (n : Member) (e : existing_cluster_of n.item_id ms ≡ some n.cluster_id).
          add_member-keeps m ms n.item_id n.cluster_id h e)
        ms sound)

-- What a change of the tables keeps.
pub record IsSteady (before after : StoryDb) : Type 0 where
  pub partition : IsPartition before.members → IsPartition after.members
  pub stays :
      (id c : ℕ)
      → existing_cluster_of id before.members ≡ some c
      → existing_cluster_of id after.members ≡ some c

joined-IsSteady :
    (c : ℕ) (is_new is_dup : Bool) (item : StoryItem) (next : ℕ) (db : StoryDb)
    → existing_cluster_of item.item_id db.members ≡ none
    → IsSteady db (join_cluster c is_new is_dup item (record db { next_cluster = next })).0
unfolding join_cluster
joined-IsSteady c is_new is_dup item next db nowhere = record {
  partition = add_member-IsPartition (member_of c item) db.members (inl nowhere);
  stays = λ id k e. add_member-keeps (member_of c item) db.members id k (inl nowhere) e;
}

to_triage-members : (item : StoryItem) (db : StoryDb) → (to_triage item db).members ≡ db.members
unfolding to_triage
to_triage-members item db = ground arith

module _ {F : Type 0} ⦃num : Num F⦄ where
  join_best-IsSteady :
      (cfg : StoryCfg F) (best : Option (Neighbor F)) (item : StoryItem) (db : StoryDb)
      → existing_cluster_of item.item_id db.members ≡ none
      → IsSteady db (join_best cfg best item db).0
  unfolding join_best join_target new_story
  join_best-IsSteady cfg none item db nowhere =
      joined-IsSteady db.next_cluster true false item (suc db.next_cluster) db nowhere
  join_best-IsSteady cfg (some n) item db nowhere = elim (Option-cases n.cluster_id) [
    | inl loose ↦
        rw (loose, join_target)
          (joined-IsSteady db.next_cluster true false item (suc db.next_cluster) db nowhere)
    | inr (c, known) ↦
        rw (known, join_target)
          (elim (Bool-cases (num.is_le cfg.cluster_threshold n.score)) [
            | inl near ↦ rw near (
                joined-IsSteady c false (num.is_le cfg.sim_threshold n.score) item db.next_cluster
                  db nowhere)
            | inr far ↦
                rw far
                  (joined-IsSteady db.next_cluster true false item (suc db.next_cluster) db nowhere)
          ])
  ]

  process-IsSteady :
      (cfg : StoryCfg F) (symbols_of : ℕ → List ℕ) (view : SearchView F) (item : StoryItem)
      (db : StoryDb)
      → IsSteady db (process cfg symbols_of view item db).0
  unfolding process join_own
  process-IsSteady cfg symbols_of view item db =
      elim (Option-cases (existing_cluster_of item.item_id db.members)) [
        | inl nowhere ↦
            rw (nowhere, process, join)
              (join_best-IsSteady cfg
                (best_neighbor cfg symbols_of item.symbols (other_items item.item_id view.nearest))
                item db nowhere)
        | inr (c, here) ↦
            rw (here, process)
              (record {
                partition = add_member-IsPartition (member_of c item) db.members (inr here);
                stays = λ id k e. add_member-keeps (member_of c item) db.members id k (inr here) e;
              })
      ]

-- How far a delivery comes: to the end, to the membership that it writes, or only to the new cluster that
-- it creates for it, if it does.
pub data Reach : Type 0 where
  completes dies_before_forward dies_before_member : Reach

-- A delivery of a dedup message: with what the vector store answers, and how far it comes.
pub record StoryDelivery (F : Type 0) : Type 0 where
  pub item : StoryItem
  pub view : SearchView F
  pub reach : Reach

module _ {F : Type 0} ⦃num : Num F⦄ (cfg : StoryCfg F) (symbols_of : ℕ → List ℕ)
    (is_held : ℕ → Bool) where
  -- `process` is one write of a member, after one of a cluster where the sequence moves on.
  unfoldable pub deliver_until : SearchView F → StoryItem → StoryDb → Reach → StoryDb
  unfolding process handle_message
  deliver_until view item db completes = (handle_message cfg symbols_of is_held view item db).0
  deliver_until view item db dies_before_forward = (process cfg symbols_of view item db).0
  deliver_until view item db dies_before_member = record db {
    next_cluster = (process cfg symbols_of view item db).0.next_cluster;
  }

  unfoldable pub deliver_story : StoryDelivery F → StoryDb → StoryDb
  unfolding deliver_until
  deliver_story d db = deliver_until d.view d.item db d.reach

  unfoldable pub deliver_stories : List (StoryDelivery F) → StoryDb → StoryDb
  unfolding deliver_story
  deliver_stories [] db = db
  deliver_stories (d ∷ ds) db = deliver_stories ds (deliver_story d db)

  handle_message-members :
      (view : SearchView F) (item : StoryItem) (db : StoryDb)
      → (handle_message cfg symbols_of is_held view item db).0.members
        ≡ (process cfg symbols_of view item db).0.members
  unfolding handle_message
  handle_message-members view item db =
      ground (arith, to_triage-members item (process cfg symbols_of view item db).0)

  deliver_until-IsSteady :
      (view : SearchView F) (item : StoryItem) (db : StoryDb) (reach : Reach)
      → IsSteady db (deliver_until view item db reach)
  unfolding deliver_until
  deliver_until-IsSteady view item db completes =
      let same = handle_message-members view item db in
      let steady = process-IsSteady cfg symbols_of view item db in
      record {
        partition = λ h. rw same (steady.partition h);
        stays = λ id c e. rw same (steady.stays id c e);
      }
  deliver_until-IsSteady view item db dies_before_forward =
      process-IsSteady cfg symbols_of view item db
  deliver_until-IsSteady view item db dies_before_member = record {
    partition = λ h. h;
    stays = λ id c e. e;
  }

  -- Whatever the vector store answers, and wherever deliveries die, the members stay a partition: every
  -- item is in one cluster, and an item that is in a cluster stays in it.
  pub deliver_stories-IsPartition :
      (ds : List (StoryDelivery F)) (db : StoryDb)
      → IsPartition db.members
      → IsPartition (deliver_stories ds db).members
        × ((id c : ℕ)
            → existing_cluster_of id db.members ≡ some c
            → existing_cluster_of id (deliver_stories ds db).members ≡ some c)
  unfolding deliver_stories deliver_story
  deliver_stories-IsPartition [] db sound = (sound, λ id c e. e)
  deliver_stories-IsPartition (d ∷ ds) db sound =
      let steady = deliver_until-IsSteady d.view d.item db d.reach in
      let rest = deliver_stories-IsPartition ds (deliver_story d db) (steady.partition sound) in
      (rest.0, λ id c e. rest.1 id c (steady.stays id c e))
