-- ===== src/Stories/Redelivery.antt =====
-- What a second delivery of a dedup message does, in src/c2_dedup/service.py.
use news_pipeline.Base.{ℕ, Bool, true, false, ◌≡◌, refl, none, some, List, arith, is_none, inl}
use news_pipeline.Num.{Num}
use news_pipeline.Stories.{
  StoryItem, SearchView, Neighbor, StoryCfg, StoryDb, existing_cluster_of, member_of, best_neighbor,
  other_items, join_own, join_cluster, join_target, join_best, join, process, handle_message,
}
use news_pipeline.Stories.Partition.{existing-add_member}

joined-existing :
    (c : ℕ) (item : StoryItem) (db : StoryDb)
    → existing_cluster_of item.item_id db.members ≡ none
    → existing_cluster_of item.item_id (join_cluster c false true item db).0.members ≡ some c
unfolding join_cluster
joined-existing c item db nowhere =
    rw (existing-add_member (member_of c item) db.members item.item_id (inl nowhere)) (ground arith)

module _ {F : Type 0} ⦃num : Num F⦄ where
  -- A delivery of an item that is in no cluster, and whose best neighbour is a duplicate.
  duplicate-process :
      (cfg : StoryCfg F) (symbols_of : ℕ → List ℕ) (view : SearchView F) (item : StoryItem)
      (db : StoryDb) (n : Neighbor F) (c : ℕ)
      → existing_cluster_of item.item_id db.members ≡ none
      → best_neighbor cfg symbols_of item.symbols (other_items item.item_id view.nearest) ≡ some n
      → n.cluster_id ≡ some c
      → num.is_le cfg.cluster_threshold n.score ≡ true
      → num.is_le cfg.sim_threshold n.score ≡ true
      → process cfg symbols_of view item db ≡ join_cluster c false true item db
  unfolding process join_best
  duplicate-process cfg symbols_of view item db n c nowhere best known near same =
      rw (nowhere, join, best, known, join_target, near, same) refl

  -- A revision whose predecessor has no vector is forwarded.
  own-forwarded :
      (cfg : StoryCfg F) (symbols_of : ℕ → List ℕ) (is_held : ℕ → Bool) (view : SearchView F)
      (item : StoryItem) (db : StoryDb) (c : ℕ)
      → existing_cluster_of item.item_id db.members ≡ some c
      → view.rev_sim ≡ none
      → is_none (handle_message cfg symbols_of is_held view item db).1 ≡ false
  unfolding handle_message process join_own
  own-forwarded cfg symbols_of is_held view item db c here no_vector =
      rw (here, join, no_vector) refl

  duplicate-dropped :
      (cfg : StoryCfg F) (symbols_of : ℕ → List ℕ) (is_held : ℕ → Bool) (view : SearchView F)
      (item : StoryItem) (db : StoryDb) (c : ℕ)
      → process cfg symbols_of view item db ≡ join_cluster c false true item db
      → (handle_message cfg symbols_of is_held view item db).1 ≡ none
  unfolding handle_message join_cluster
  duplicate-dropped cfg symbols_of is_held view item db c first = rw first refl

  -- A duplicate that is dropped is forwarded if its delivery dies between the writes of its membership
  -- and the end: the second delivery takes it for a revision of itself, finds no vector of the revision
  -- before, and forwards it as no duplicate.
  pub handle_message-redelivered :
      (cfg : StoryCfg F) (symbols_of : ℕ → List ℕ) (is_held : ℕ → Bool) (view again : SearchView F)
      (item : StoryItem) (db : StoryDb) (n : Neighbor F) (c : ℕ)
      → existing_cluster_of item.item_id db.members ≡ none
      → best_neighbor cfg symbols_of item.symbols (other_items item.item_id view.nearest) ≡ some n
      → n.cluster_id ≡ some c
      → num.is_le cfg.cluster_threshold n.score ≡ true
      → num.is_le cfg.sim_threshold n.score ≡ true
      → again.rev_sim ≡ none
      → ((handle_message cfg symbols_of is_held view item db).1 ≡ none)
        × (is_none
              (handle_message cfg symbols_of is_held again item
                (process cfg symbols_of view item db).0).1
            ≡ false)
  handle_message-redelivered cfg symbols_of is_held view again item db n c nowhere best known near
        same no_vector =
      let first = duplicate-process cfg symbols_of view item db n c nowhere best known near same in
      (
        duplicate-dropped cfg symbols_of is_held view item db c first,
        rw first (
            own-forwarded cfg symbols_of is_held again item (join_cluster c false true item db).0 c
              (joined-existing c item db nowhere) no_vector),
      )
