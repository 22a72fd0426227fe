-- ===== src/Entry/Single.antt =====
-- Redelivered entry intents of src/c4_exec/service.py, with deliveries that die half way.
use news_pipeline.Base.{
  ℕ, zero, suc, ◌+◌, ◌≤◌, Bool, true, false, ◌&&◌, ◌==◌, ◌≡◌, refl, Option, none, some, List, [],
  ◌∷◌, arith, default_to, length, is_empty, Bool-cases, inl, inr,
}
use news_pipeline.Num.{Num}
use news_pipeline.Entry.Types.{
  IntentStatus, BrokerOrder, Flags, Holding, Body, EntryRow, Write, order_sent, order_created,
  status_set, order_moved, fill_recorded, position_opened, vetoed, stop_sent, stop_linked, degraded,
  EntryDesk, EntryAnswers, EntryVeto,
}
use news_pipeline.Entry.{
  already_processed, apply_write, apply_writes, preflight, after_wait, open_position, submit_entry,
  checked_entry, conclude_entry, handle_intent, await_terminal, move_newest,
}

-- One delivery of the message: what the flags and the broker say, and the number of writes that it
-- does before it dies.
pub record Delivery (F : Type 0) : Type 0 where
  pub flags : Flags F
  pub held : List (Holding F)
  pub answers : EntryAnswers F
  pub survives : ℕ

abbrev pub first {ℓ} : {A : Type ℓ} → ℕ → List A → List A
first zero xs = []
first (suc n) [] = []
first (suc n) (x ∷ xs) = x ∷ first n xs

module _ {F : Type 0} where
  -- At most one entry order, and at most one position, which has it.
  abbrev pub IsSingle : EntryDesk F → Type 0
  IsSingle d = (length d.orders ≤ 1) × (length d.positions ≤ length d.orders)

  -- The writes make an order row only where there is none, and a position only where there is an
  -- order row and no position.
  abbrev is_legal : ℕ → List (Write F) → Bool
  is_legal stage [] = true
  is_legal stage (order_created o ∷ ws) = stage == 0 && is_legal 1 ws
  is_legal stage (position_opened p ∷ ws) = stage == 1 && is_legal 2 ws
  is_legal stage (order_sent side qty price ∷ ws) = is_legal stage ws
  is_legal stage (status_set status ∷ ws) = is_legal stage ws
  is_legal stage (order_moved o ∷ ws) = is_legal stage ws
  is_legal stage (fill_recorded qty price ∷ ws) = is_legal stage ws
  is_legal stage (vetoed why ∷ ws) = is_legal stage ws
  is_legal stage (stop_sent side qty price ∷ ws) = is_legal stage ws
  is_legal stage (stop_linked price ∷ ws) = is_legal stage ws
  is_legal stage (degraded ∷ ws) = is_legal stage ws

  is_empty-stage :
      (d : EntryDesk F)
      → is_empty d.orders ≡ true
      → IsSingle d
      → 0 ≡ length d.orders + length d.positions
  is_empty-stage d new h = ground (arith, new, h)

  length-move_newest :
      (o : BrokerOrder F) (rows : List (EntryRow F)) → length (move_newest o rows) ≡ length rows
  length-move_newest o [] = refl
  length-move_newest o (row ∷ rows) = refl

  first-IsSingle :
      (n stage : ℕ) (ws : List (Write F)) (d : EntryDesk F)
      → stage ≡ length d.orders + length d.positions
      → IsSingle d
      → is_legal stage ws ≡ true
      → IsSingle (apply_writes (first n ws) d)
  unfolding apply_writes apply_write
  first-IsSingle zero stage ws d e h legal = h
  first-IsSingle (suc n) stage [] d e h legal = h
  first-IsSingle (suc n) stage (order_created o ∷ ws) d e h legal =
      first-IsSingle n 1 ws _ (ground (arith, e, h, legal)) (ground (arith, e, h, legal))
        (ground (arith, legal))
  first-IsSingle (suc n) stage (position_opened p ∷ ws) d e h legal =
      first-IsSingle n 2 ws _ (ground (arith, e, h, legal)) (ground (arith, e, h, legal))
        (ground (arith, legal))
  first-IsSingle (suc n) stage (order_moved o ∷ ws) d e h legal =
      first-IsSingle n stage ws _ (rw (length-move_newest o d.orders) e)
        (rw (length-move_newest o d.orders) h) legal
  first-IsSingle (suc n) stage (order_sent side qty price ∷ ws) d e h legal =
      first-IsSingle n stage ws _ e h legal
  first-IsSingle (suc n) stage (status_set status ∷ ws) d e h legal =
      first-IsSingle n stage ws _ e h legal
  first-IsSingle (suc n) stage (fill_recorded qty price ∷ ws) d e h legal =
      first-IsSingle n stage ws _ e h legal
  first-IsSingle (suc n) stage (vetoed why ∷ ws) d e h legal = first-IsSingle n stage ws _ e h legal
  first-IsSingle (suc n) stage (stop_sent side qty price ∷ ws) d e h legal =
      first-IsSingle n stage ws _ e h legal
  first-IsSingle (suc n) stage (stop_linked price ∷ ws) d e h legal =
      first-IsSingle n stage ws _ e h legal
  first-IsSingle (suc n) stage (degraded ∷ ws) d e h legal = first-IsSingle n stage ws _ e h legal

first_nil : {F : Type 0} (n : ℕ) → first {A = Write F} n [] ≡ []
first_nil zero = refl
first_nil (suc n) = refl

module _ {F : Type 0} ⦃num : Num F⦄ where
  after_wait-legal :
      (b : Body F) (o : BrokerOrder F) (stop_accepted : Bool)
      → is_legal 1 (after_wait b o stop_accepted) ≡ true
  unfolding after_wait open_position
  after_wait-legal b o stop_accepted = ground arith

  abbrev are_legal : Option (List (Write F)) → Bool
  are_legal none = true
  are_legal (some ws) = is_legal 0 ws

  are_legal-default_to :
      (ws : Option (List (Write F))) → are_legal ws ≡ true → is_legal 0 (default_to [] ws) ≡ true
  are_legal-default_to none h = refl
  are_legal-default_to (some ws) h = h

  conclude_entry-legal :
      (b : Body F) (order : BrokerOrder F) (stop_accepted : Bool) (seen : Option (BrokerOrder F))
      → are_legal (conclude_entry b order stop_accepted seen) ≡ true
  unfolding conclude_entry
  conclude_entry-legal b order stop_accepted none = refl
  conclude_entry-legal b order stop_accepted (some o) = after_wait-legal b o stop_accepted

  submit_entry-legal :
      (timeout sleep : ℕ) (b : Body F) (a : EntryAnswers F) (accepted : Option (BrokerOrder F))
      → are_legal (submit_entry timeout sleep b a accepted) ≡ true
  unfolding submit_entry
  submit_entry-legal timeout sleep b a none = refl
  submit_entry-legal timeout sleep b a (some order) =
      conclude_entry-legal b order a.stop_accepted
        (await_terminal (suc timeout) timeout sleep 0 0 a.looks a.last)

  checked_entry-legal :
      (timeout sleep : ℕ) (b : Body F) (a : EntryAnswers F) (veto : Option EntryVeto)
      → are_legal (checked_entry timeout sleep b a veto) ≡ true
  unfolding checked_entry
  checked_entry-legal timeout sleep b a none = submit_entry-legal timeout sleep b a a.accepted
  checked_entry-legal timeout sleep b a (some veto) = refl

  -- A delivery that dies after some of its writes, or ends. A positive pause between the looks makes
  -- the fuel of the wait enough, so that the default is not taken.
  unfoldable pub deliver : ℕ → ℕ → Body F → Delivery F → EntryDesk F → EntryDesk F
  unfolding handle_intent apply_writes
  deliver timeout sleep b v d =
      apply_writes
        (first v.survives (
          default_to []
            (handle_intent timeout sleep v.flags v.held b v.answers d.orders d.status).0))
        d

  unfoldable pub deliver_all : ℕ → ℕ → Body F → List (Delivery F) → EntryDesk F → EntryDesk F
  deliver_all timeout sleep b [] d = d
  deliver_all timeout sleep b (v ∷ vs) d =
      deliver_all timeout sleep b vs (deliver timeout sleep b v d)

  handle_intent-known :
      (timeout sleep : ℕ) (g : Flags F) (held : List (Holding F)) (b : Body F) (a : EntryAnswers F)
      (orders : List (EntryRow F)) (status : Option IntentStatus)
      → is_empty orders ≡ false
      → (handle_intent timeout sleep g held b a orders status).0 ≡ some []
  unfolding handle_intent already_processed
  handle_intent-known timeout sleep g held b a orders none known = refl
  handle_intent-known timeout sleep g held b a orders (some status) known = ground (arith, known)

  handle_intent-legal :
      (timeout sleep : ℕ) (g : Flags F) (held : List (Holding F)) (b : Body F) (a : EntryAnswers F)
      (orders : List (EntryRow F)) (status : Option IntentStatus)
      → is_legal 0 (default_to [] (handle_intent timeout sleep g held b a orders status).0) ≡ true
  unfolding handle_intent
  handle_intent-legal timeout sleep g held b a orders none = refl
  handle_intent-legal timeout sleep g held b a orders (some status) = ground (
    arith,
    are_legal-default_to (checked_entry timeout sleep b a (preflight g held b))
        (checked_entry-legal timeout sleep b a (preflight g held b)),
  )

  -- A delivery of an intent that has an entry order row changes nothing.
  deliver-known :
      (timeout sleep : ℕ) (b : Body F) (v : Delivery F) (d : EntryDesk F)
      → is_empty d.orders ≡ false
      → deliver timeout sleep b v d ≡ d
  unfolding deliver handle_intent already_processed
  deliver-known timeout sleep b v d known =
      rw
        (
          handle_intent-known timeout sleep v.flags v.held b v.answers d.orders d.status known,
          first_nil v.survives,
        )
        refl

  deliver-IsSingle :
      (timeout sleep : ℕ) (b : Body F) (v : Delivery F) (d : EntryDesk F)
      → IsSingle d
      → IsSingle (deliver timeout sleep b v d)
  unfolding deliver handle_intent already_processed
  deliver-IsSingle timeout sleep b v d h = elim (Bool-cases (is_empty d.orders)) [
    | inr known ↦ rw (deliver-known timeout sleep b v d known) h
    | inl new ↦
        first-IsSingle v.survives 0
          (default_to []
            (handle_intent timeout sleep v.flags v.held b v.answers d.orders d.status).0)
          d (is_empty-stage d new h) h
          (handle_intent-legal timeout sleep v.flags v.held b v.answers d.orders d.status)
  ]

  -- However often the message comes, and wherever a delivery dies, an intent has at most one entry
  -- order in the journal and at most one position.
  pub deliver_all-IsSingle :
      (timeout sleep : ℕ) (b : Body F) (vs : List (Delivery F)) (d : EntryDesk F)
      → IsSingle d
      → IsSingle (deliver_all timeout sleep b vs d)
  unfolding deliver_all
  deliver_all-IsSingle timeout sleep b [] d h = h
  deliver_all-IsSingle timeout sleep b (v ∷ vs) d h =
      deliver_all-IsSingle timeout sleep b vs (deliver timeout sleep b v d)
        (deliver-IsSingle timeout sleep b v d h)
