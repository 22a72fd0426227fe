-- ===== src/Stories.antt =====
-- src/c2_dedup/cluster.py and `handle_message` of src/c2_dedup/service.py: the story that an item
-- belongs to, and whether it goes on to triage. Items, sources and symbols are numbered. What the
-- vector store answers is an argument of a delivery.
pub mod Partition
pub mod Joined
pub mod Redelivery
use news_pipeline.Base.{
  ℕ, suc, ◌+◌, Bool, true, false, not, ◌&&◌, ◌||◌, ◌==◌, Option, none, some, List, [], ◌∷◌, any,
  length, is_empty, is_none, if◌then◌else◌,
}
use news_pipeline.Num.{Num}

-- The part of a `NewsItem` that the decision reads.
pub record StoryItem : Type 0 where
  pub item_id : ℕ
  pub revision : ℕ
  pub source : ℕ
  pub symbols : List ℕ

-- A row of `news.cluster_members`
pub record Member : Type 0 where
  pub cluster_id : ℕ
  pub item_id : ℕ
  pub revision : ℕ
  pub source : ℕ

-- `Neighbor`
pub record Neighbor (F : Type 0) : Type 0 where
  pub item_id : ℕ
  pub cluster_id : Option ℕ
  pub score : F

-- The answers of the vector store: `nearest`, by falling score, and the similarity to the vector of the
-- revision before, which is `none` where there is none.
pub record SearchView (F : Type 0) : Type 0 where
  pub nearest : List (Neighbor F)
  pub rev_sim : Option F

pub record StoryCfg (F : Type 0) : Type 0 where
  pub sim_threshold : F
  pub cluster_threshold : F
  pub require_symbol_overlap : Bool

-- The clusters, by the next number of their sequence, their members, and the keys on the triage queue.
pub record StoryDb : Type 0 where
  pub next_cluster : ℕ
  pub members : List Member
  pub triage_keys : List (ℕ × ℕ)

-- `ClusterDecision`
pub record ClusterDecision : Type 0 where
  pub cluster_id : ℕ
  pub is_new_story : Bool
  pub independent_outlets : ℕ
  pub total_items : ℕ
  pub is_duplicate : Bool
  pub is_own_revision : Bool
  pub is_cosmetic_revision : Bool

-- `_existing_cluster_of`
unfoldable pub existing_cluster_of : ℕ → List Member → Option ℕ
existing_cluster_of id [] = none
existing_cluster_of id (m ∷ ms) =
    if m.item_id == id then some m.cluster_id else existing_cluster_of id ms

abbrev pub is_member : Member → Member → Bool
is_member m n = n.cluster_id == m.cluster_id && (n.item_id == m.item_id && n.revision == m.revision)

-- `_add_member`: a row that is there stays as it is.
unfoldable pub add_member : Member → List Member → List Member
add_member m ms = if any (is_member m) ms then ms else m ∷ ms

abbrev pub sources_in : ℕ → List Member → List ℕ
sources_in c [] = []
sources_in c (m ∷ ms) = if m.cluster_id == c then m.source ∷ sources_in c ms else sources_in c ms

-- `COUNT(DISTINCT source)`
unfoldable pub count_distinct : List ℕ → ℕ
count_distinct [] = 0
count_distinct (s ∷ ss) =
    let rest = count_distinct ss in if any (λ t. t == s) ss then rest else suc rest

-- A row of the view `cluster_corroboration`
abbrev pub corroboration : ℕ → List Member → ℕ × ℕ
corroboration c ms = (count_distinct (sources_in c ms), length (sources_in c ms))

abbrev pub shares_symbol : List ℕ → List ℕ → Bool
shares_symbol xs ys = any (λ x. any (λ y. y == x) ys) xs

abbrev pub member_of : ℕ → StoryItem → Member
member_of c item = record {
  cluster_id = c;
  item_id = item.item_id;
  revision = item.revision;
  source = item.source;
}

-- An item that is in no cluster joins the one of its best neighbour, or a new one.
unfoldable pub join_cluster : ℕ → Bool → Bool → StoryItem → StoryDb → StoryDb × ClusterDecision
unfolding add_member
join_cluster c is_new is_dup item db =
    let ms = add_member (member_of c item) db.members in
    (
      record db { members = ms },
      record {
        cluster_id = c;
        is_new_story = is_new;
        independent_outlets = (corroboration c ms).0;
        total_items = (corroboration c ms).1;
        is_duplicate = is_dup;
        is_own_revision = false;
        is_cosmetic_revision = false;
      },
    )

unfoldable pub new_story : StoryItem → StoryDb → StoryDb × ClusterDecision
unfolding join_cluster
new_story item db =
    join_cluster db.next_cluster true false item (record db { next_cluster = suc db.next_cluster })

module _ {F : Type 0} ⦃num : Num F⦄ where
  open num use {is_lt, is_le}

  -- The neighbour's symbols keep it apart from the item.
  abbrev pub is_disjoint : StoryCfg F → List ℕ → List ℕ → Bool
  is_disjoint cfg syms n_syms =
      cfg.require_symbol_overlap
      && (not (is_empty syms) && (not (is_empty n_syms) && not (shares_symbol syms n_syms)))

  -- The loop over the neighbours, from `_symbols_of`.
  unfoldable pub best_neighbor :
      StoryCfg F → (ℕ → List ℕ) → List ℕ → List (Neighbor F) → Option (Neighbor F)
  best_neighbor cfg symbols_of syms [] = none
  best_neighbor cfg symbols_of syms (n ∷ ns) =
      let rest = best_neighbor cfg symbols_of syms ns in
      if is_lt n.score cfg.cluster_threshold || is_none n.cluster_id
      then none
      else if is_disjoint cfg syms (symbols_of n.item_id)
      then rest
      else some n

  -- `[n for n in nearest if not n.item_id == item_id]`
  unfoldable pub other_items : ℕ → List (Neighbor F) → List (Neighbor F)
  other_items id [] = []
  other_items id (n ∷ ns) = if n.item_id == id then other_items id ns else n ∷ other_items id ns

  -- `rev_sim is not None and rev_sim >= self.sim_threshold`
  abbrev pub is_cosmetic : F → Option F → Bool
  is_cosmetic threshold none = false
  is_cosmetic threshold (some sim) = is_le threshold sim

  -- A revision of an item that is in a cluster.
  unfoldable pub join_own :
      StoryCfg F → ℕ → StoryItem → Option F → StoryDb → StoryDb × ClusterDecision
  unfolding add_member
  join_own cfg c item rev_sim db =
      let ms = add_member (member_of c item) db.members in
      (
        record db { members = ms },
        record {
          cluster_id = c;
          is_new_story = false;
          independent_outlets = (corroboration c ms).0;
          total_items = (corroboration c ms).1;
          is_duplicate = false;
          is_own_revision = true;
          is_cosmetic_revision = is_cosmetic cfg.sim_threshold rev_sim;
        },
      )

  -- `best.score >= self.cluster_threshold and best.cluster_id`
  unfoldable pub join_target :
      StoryCfg F → Option ℕ → F → StoryItem → StoryDb → StoryDb × ClusterDecision
  unfolding join_cluster new_story
  join_target cfg none score item db = new_story item db
  join_target cfg (some c) score item db =
      if is_le cfg.cluster_threshold score
      then join_cluster c false (is_le cfg.sim_threshold score) item db
      else new_story item db

  unfoldable pub join_best :
      StoryCfg F → Option (Neighbor F) → StoryItem → StoryDb → StoryDb × ClusterDecision
  unfolding join_target new_story
  join_best cfg none item db = new_story item db
  join_best cfg (some n) item db = join_target cfg n.cluster_id n.score item db

  -- `Deduper.process`, from the cluster that the item is in.
  abbrev pub join :
      StoryCfg F
      → (ℕ → List ℕ)
      → SearchView F
      → StoryItem
      → Option ℕ
      → StoryDb
      → StoryDb × ClusterDecision
  join cfg symbols_of view item (some c) db = join_own cfg c item view.rev_sim db
  join cfg symbols_of view item none db =
      join_best cfg
        (best_neighbor cfg symbols_of item.symbols (other_items item.item_id view.nearest)) item db

  unfoldable pub process :
      StoryCfg F → (ℕ → List ℕ) → SearchView F → StoryItem → StoryDb → StoryDb × ClusterDecision
  unfolding existing_cluster_of best_neighbor other_items join_own join_best
  process cfg symbols_of view item db =
      join cfg symbols_of view item (existing_cluster_of item.item_id db.members) db

-- Whether `handle_message` forwards the decision; `is_held` says that a ticker has an open position.
abbrev pub is_forwarded : (ℕ → Bool) → StoryItem → ClusterDecision → Bool
is_forwarded is_held item d =
    not d.is_duplicate && (not d.is_cosmetic_revision || any is_held item.symbols)

-- The enqueue on `signal.triage`, which does nothing where the key is there.
unfoldable pub to_triage : StoryItem → StoryDb → StoryDb
to_triage item db =
    if any (λ k. k.0 == item.item_id && k.1 == item.revision) db.triage_keys
    then db
    else record db { triage_keys = (item.item_id, item.revision) ∷ db.triage_keys }

module _ {F : Type 0} ⦃num : Num F⦄ where
  -- `handle_message`: the tables, and the signal that is forwarded.
  unfoldable pub handle_message :
      StoryCfg F
      → (ℕ → List ℕ)
      → (ℕ → Bool)
      → SearchView F
      → StoryItem
      → StoryDb
      → StoryDb × Option ClusterDecision
  unfolding process to_triage
  handle_message cfg symbols_of is_held view item db =
      let r = process cfg symbols_of view item db in
      if is_forwarded is_held item r.1 then (to_triage item r.0, some r.1) else (r.0, none)
