-- ===== src/Stories/Joined.antt =====
-- When an item starts a story of its own, in src/c2_dedup/cluster.py.
use news_pipeline.Base.{
  ◌∙◌, ap, is_empty, ℕ, Bool, true, false, not, ◌&&◌, ◌||◌, ◌==◌, ◌≡◌, refl, Option, none, some,
  List, [], ◌∷◌, any, All, arith, is_none, inl, inr, Bool-cases, Option-cases,
}
use news_pipeline.Num.{Num, IsFloat, ◌≤f◌}
use news_pipeline.Stories.{
  StoryItem, SearchView, Neighbor, StoryCfg, StoryDb, existing_cluster_of, is_disjoint,
  best_neighbor, other_items, join_cluster, new_story, join_target, join_best, join, process,
}

not_or_and : (b c d e : Bool) → not (b && (not c && (not d && not e))) ≡ (not b || (c || (d || e)))
not_or_and true true d e = refl
not_or_and true false true e = refl
not_or_and true false false true = refl
not_or_and true false false false = refl
not_or_and false c d e = refl

module _ {F : Type 0} ⦃num : Num F⦄ where
  -- The scores fall, and every neighbour is in a cluster.
  abbrev pub IsFalling : List (Neighbor F) → Type 0
  IsFalling [] = Unit
  IsFalling (n ∷ ns) =
      (is_none n.cluster_id ≡ false) × All (λ m. m.score ≤f n.score) ns × IsFalling ns

  -- A neighbour as the code tests it.
  abbrev is_tested : StoryCfg F → (ℕ → List ℕ) → StoryItem → Neighbor F → Bool
  is_tested cfg symbols_of item n =
      not (n.item_id == item.item_id)
      && (num.is_le cfg.cluster_threshold n.score
          && not (is_disjoint cfg item.symbols (symbols_of n.item_id)))

  -- The symbols allow a join: no overlap is asked for, one side has none, or they have one in common.
  abbrev pub may_join : StoryCfg F → List ℕ → List ℕ → Bool
  may_join cfg syms n_syms =
      not cfg.require_symbol_overlap
      || (is_empty syms || (is_empty n_syms || any (λ x. any (λ y. y == x) n_syms) syms))

  -- A neighbour of another item that is near enough, with symbols that allow a join.
  abbrev pub is_match : StoryCfg F → (ℕ → List ℕ) → StoryItem → Neighbor F → Bool
  is_match cfg symbols_of item n =
      not (n.item_id == item.item_id)
      && (num.is_le cfg.cluster_threshold n.score
          && may_join cfg item.symbols (symbols_of n.item_id))

  any_tested-match :
      (cfg : StoryCfg F) (symbols_of : ℕ → List ℕ) (item : StoryItem) (ns : List (Neighbor F))
      → any (is_tested cfg symbols_of item) ns ≡ any (is_match cfg symbols_of item) ns
  any_tested-match cfg symbols_of item [] = refl
  any_tested-match cfg symbols_of item (n ∷ ns) =
      let near = num.is_le cfg.cluster_threshold n.score in
      let syms = symbols_of n.item_id in
      let same =
        not_or_and cfg.require_symbol_overlap (is_empty item.symbols) (is_empty syms)
          (any (λ x. any (λ y. y == x) syms) item.symbols) in
      let rest = any_tested-match cfg symbols_of item ns in
      ap
        (λ b.
          (not (n.item_id == item.item_id) && (near && b))
          || any (is_tested cfg symbols_of item) ns)
        same
      ∙ ap (λ b. is_match cfg symbols_of item n || b) rest

  module _ (laws : IsFloat F) where
    open laws use {lt_not_ge, le_trans}

    -- Below the threshold nothing matches.
    far-no_match :
        (cfg : StoryCfg F) (symbols_of : ℕ → List ℕ) (item : StoryItem) (top : F)
        (ns : List (Neighbor F))
        → num.is_le cfg.cluster_threshold top ≡ false
        → All (λ m. m.score ≤f top) ns
        → any (is_tested cfg symbols_of item) ns ≡ false
    far-no_match cfg symbols_of item top [] far h = refl
    far-no_match cfg symbols_of item top (n ∷ ns) far (h, hs) = ground (
      arith,
      far-no_match cfg symbols_of item top ns far hs,
      le_trans cfg.cluster_threshold n.score top,
    )

    best_neighbor-is_none :
        (cfg : StoryCfg F) (symbols_of : ℕ → List ℕ) (item : StoryItem) (ns : List (Neighbor F))
        → IsFalling ns
        → is_none (best_neighbor cfg symbols_of item.symbols (other_items item.item_id ns))
          ≡ not (any (is_tested cfg symbols_of item) ns)
    unfolding best_neighbor other_items
    best_neighbor-is_none cfg symbols_of item [] h = refl
    best_neighbor-is_none cfg symbols_of item (n ∷ ns) (known, falls, rest) =
        let ih = best_neighbor-is_none cfg symbols_of item ns rest in
        elim (Bool-cases (n.item_id == item.item_id)) [
          | inl own ↦ rw own ih
          | inr other ↦ elim (Bool-cases (num.is_le cfg.cluster_threshold n.score)) [
            | inl near ↦
                rw (other, near, known, lt_not_ge n.score cfg.cluster_threshold, near)
                  (elim (Bool-cases (is_disjoint cfg item.symbols (symbols_of n.item_id))) [
                    | inl apart ↦ rw apart ih
                    | inr alike ↦ rw alike refl
                  ])
            | inr far ↦
                rw (other, far, lt_not_ge n.score cfg.cluster_threshold, far)
                  (rw (far-no_match cfg symbols_of item n.score ns far falls) refl)
          ]
        ]

    -- What the loop over the neighbours answers is near enough, and in a cluster.
    IsReached : StoryCfg F → Option (Neighbor F) → Type 0
    IsReached cfg none = Unit
    IsReached cfg (some n) = (cfg.cluster_threshold ≤f n.score) × (is_none n.cluster_id ≡ false)

    best_neighbor-IsReached :
        (cfg : StoryCfg F) (symbols_of : ℕ → List ℕ) (syms : List ℕ) (ns : List (Neighbor F))
        → IsReached cfg (best_neighbor cfg symbols_of syms ns)
    unfolding best_neighbor IsReached
    best_neighbor-IsReached cfg symbols_of syms [] = tt
    best_neighbor-IsReached cfg symbols_of syms (n ∷ ns) =
        elim (Bool-cases (num.is_lt n.score cfg.cluster_threshold || is_none n.cluster_id)) [
          | inl stop ↦ rw stop tt
          | inr near ↦ elim (Bool-cases (is_disjoint cfg syms (symbols_of n.item_id))) [
            | inl apart ↦ rw (near, apart) (best_neighbor-IsReached cfg symbols_of syms ns)
            | inr alike ↦
                rw (near, alike)
                  (
                    ground (arith, near, lt_not_ge n.score cfg.cluster_threshold),
                    ground (arith, near),
                  )
          ]
        ]

    join_best-is_new_story :
        (cfg : StoryCfg F) (best : Option (Neighbor F)) (item : StoryItem) (db : StoryDb)
        → IsReached cfg best
        → (join_best cfg best item db).1.is_new_story ≡ is_none best
    unfolding join_best join_target new_story join_cluster IsReached
    join_best-is_new_story cfg none item db h = refl
    join_best-is_new_story cfg (some n) item db (near, known) = elim (Option-cases n.cluster_id) [
      | inl loose ↦ cc
      | inr (c, there) ↦ rw (there, join_target, near) refl
    ]

    -- An item that is in no cluster starts a story exactly if no neighbour matches: none of another
    -- item reaches the threshold with symbols that allow it, which they do where no overlap is asked
    -- for, one of the two has none, or they have one in common. The scores fall, every neighbour is in
    -- a cluster, and the scores are ordered as floats are.
    pub process-is_new_story :
        (cfg : StoryCfg F) (symbols_of : ℕ → List ℕ) (view : SearchView F) (item : StoryItem)
        (db : StoryDb)
        → existing_cluster_of item.item_id db.members ≡ none
        → IsFalling view.nearest
        → (process cfg symbols_of view item db).1.is_new_story
          ≡ not (any (is_match cfg symbols_of item) view.nearest)
    unfolding process
    process-is_new_story cfg symbols_of view item db nowhere falls =
        let near = other_items item.item_id view.nearest in
        rw (nowhere, join)
          (join_best-is_new_story cfg (best_neighbor cfg symbols_of item.symbols near) item db
              (best_neighbor-IsReached cfg symbols_of item.symbols near)
            ∙ best_neighbor-is_none cfg symbols_of item view.nearest falls
            ∙ ap not (any_tested-match cfg symbols_of item view.nearest))
