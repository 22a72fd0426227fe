-- ===== src/Reconcile/Converge.antt =====
-- Two passes of src/c4_exec/reconcile.py over the same positions of the broker.
use news_pipeline.Base.{
  ℕ, suc, Bool, true, false, ◌&&◌, ◌||◌, ◌==◌, leb, ◌≡◌, refl, Option, none, some, List, [], ◌∷◌,
  ◌++◌, map, all, any, arith, All, Bool-cases, ◌⊎◌, inl, inr, sym, ◌∙◌, subst, ap,
}
use news_pipeline.Num.{Num}
use news_pipeline.Mechanics.{Order}
use news_pipeline.Reconcile.{
  BrokerPosition, PositionRow, Journal, position_at, by_ticker, catastrophe_fill, settle,
  settle_row, adopted_row, adopt_all, in_seen, row_of, reconcile, reconcile_rows, api_status,
  api_ok, in_step, is_external,
}
use news_pipeline.Reconcile.Distinct.{has_distinct, reconcile_rows-distinct}
use news_pipeline.Reconcile.Dict.{by_ticker-IsKeyed}
use news_pipeline.Reconcile.Backed.{
  agrees, agrees_with, is_backed, is_covered, and_both, adopted_row-agrees, adopt_all-backed,
  reconcile_rows-backed,
}

module _ {F : Type 0} where
  -- Some open row of the journal says what the position says, or it has no shares.
  abbrev pub is_held : List (PositionRow F) → BrokerPosition F → Bool
  is_held rows bp = leb bp.qty 0 || any (λ r. r.is_open && agrees bp r) rows

  append_nil : (xs : List (PositionRow F)) → xs ++ [] ≡ xs
  append_nil [] = refl
  append_nil (x ∷ xs) = ap (λ ys. x ∷ ys) (append_nil xs)

  any-append :
      (p : PositionRow F → Bool) (xs ys : List (PositionRow F))
      → any p (xs ++ ys) ≡ (any p xs || any p ys)
  any-append p [] ys = refl
  any-append p (x ∷ xs) ys = ground (arith, any-append p xs ys)

  backed_agrees :
      (dict : List (BrokerPosition F)) (bp : BrokerPosition F) (r : PositionRow F)
      → position_at dict bp.ticker ≡ some bp
      → is_backed dict r ≡ true
      → (r.is_open && r.ticker == bp.ticker) ≡ true
      → agrees bp r ≡ true
  backed_agrees dict bp r found backed same =
      let ticker : r.ticker ≡ bp.ticker = ground (arith, same) in
      let here : agrees_with (position_at dict r.ticker) r ≡ true = ground (arith, backed, same) in
      let there : position_at dict r.ticker ≡ some bp = ap (position_at dict) ticker ∙ found in
      rw there at here

  -- A backed journal that knows a ticker of the broker holds its position.
  in_seen-held :
      (dict : List (BrokerPosition F)) (bp : BrokerPosition F) (rows : List (PositionRow F))
      → position_at dict bp.ticker ≡ some bp
      → all (is_backed dict) rows ≡ true
      → in_seen rows bp.ticker ≡ true
      → any (λ r. r.is_open && agrees bp r) rows ≡ true
  in_seen-held dict bp [] found backed seen = seen
  in_seen-held dict bp (r ∷ rs) found backed seen =
      let (first, rest) = and_both (is_backed dict r) (all (is_backed dict) rs) backed in
      elim (Bool-cases (r.is_open && r.ticker == bp.ticker)) [
        | inl same ↦ ground (arith, same, backed_agrees dict bp r found first same)
        | inr other ↦ ground (arith, in_seen-held dict bp rs found rest (rw other at seen))
      ]

  -- The positions whose tickers are not among the rows are held by the adopted rows.
  abbrev AreHeld : List (PositionRow F) → List (PositionRow F) → List (BrokerPosition F) → Type 0
  AreHeld rows adopted = All (λ bp. (in_seen rows bp.ticker || is_held adopted bp) ≡ true)

  weaken_held :
      (rows : List (PositionRow F)) (r : PositionRow F) (adopted : List (PositionRow F))
      (bps : List (BrokerPosition F))
      → AreHeld rows adopted bps
      → AreHeld rows (r ∷ adopted) bps
  weaken_held rows r adopted [] h = tt
  weaken_held rows r adopted (bp ∷ bps) h =
      (ground (arith, h.0), weaken_held rows r adopted bps h.1)

module _ {F : Type 0} ⦃num : Num F⦄ where
  settle-fixed :
      (found : Option (BrokerPosition F)) (fill : Option (Order F)) (r : PositionRow F)
      → agrees_with found r ≡ true
      → settle found fill r ≡ (r, in_step)
  unfolding settle
  settle-fixed none fill r h = ground (arith, h)
  settle-fixed (some bp) fill r h = ground (arith, h)

  -- A row that is backed is left as it is.
  settle_row-fixed :
      (dict : List (BrokerPosition F)) (orders : ℕ → Option (Order F)) (r : PositionRow F)
      → is_backed dict r ≡ true
      → settle_row dict orders r ≡ (r, in_step)
  unfolding settle_row
  settle_row-fixed dict orders r backed = elim (Bool-cases r.is_open) [
    | inr closed ↦ ground (arith, closed)
    | inl at_work ↦ ground (
      arith,
      at_work,
      backed,
      settle-fixed (position_at dict r.ticker) (catastrophe_fill (orders r.position_id)) r,
    )
  ]

  settle_rows-fixed :
      (dict : List (BrokerPosition F)) (orders : ℕ → Option (Order F)) (rows : List (PositionRow F))
      → all (is_backed dict) rows ≡ true
      → map (λ r. row_of (settle_row dict orders r)) rows ≡ rows
  settle_rows-fixed dict orders [] h = refl
  settle_rows-fixed dict orders (r ∷ rs) h =
      let (first, rest) = and_both (is_backed dict r) (all (is_backed dict) rs) h in
      rw (settle_row-fixed dict orders r first, settle_rows-fixed dict orders rs rest) refl

  no_external :
      (dict : List (BrokerPosition F)) (orders : ℕ → Option (Order F)) (rows : List (PositionRow F))
      → all (is_backed dict) rows ≡ true
      → any (λ r. is_external (settle_row dict orders r)) rows ≡ false
  no_external dict orders [] h = refl
  no_external dict orders (r ∷ rs) h =
      let (first, rest) = and_both (is_backed dict r) (all (is_backed dict) rs) h in
      rw (settle_row-fixed dict orders r first) (no_external dict orders rs rest)

  -- Every position of the broker that the journal does not know is held by a row adopted for it.
  adopt_all-held :
      (rows : List (PositionRow F)) (id : ℕ) (bps : List (BrokerPosition F))
      → AreHeld rows (adopt_all rows id bps) bps
  unfolding adopt_all adopted_row
  adopt_all-held rows id [] = tt
  adopt_all-held rows id (bp ∷ bps) = elim (Bool-cases (in_seen rows bp.ticker || leb bp.qty 0)) [
    | inl passed ↦
        let skipped : adopt_all rows id (bp ∷ bps) ≡ adopt_all rows id bps = rw passed refl in
        subst (λ adopted. AreHeld rows adopted (bp ∷ bps)) (sym skipped)
          (ground (arith, passed), adopt_all-held rows id bps)
    | inr taken ↦
        let new : adopt_all rows id (bp ∷ bps) ≡ adopted_row id bp ∷ adopt_all rows (suc id) bps =
          rw taken refl in
        subst (λ adopted. AreHeld rows adopted (bp ∷ bps)) (sym new)
          (
            ground (arith, taken, adopted_row-agrees id bp),
            weaken_held rows (adopted_row id bp) (adopt_all rows (suc id) bps) bps
                (adopt_all-held rows (suc id) bps),
          )
  ]

  known_held :
      (dict : List (BrokerPosition F)) (rows adopted : List (PositionRow F))
      (bps : List (BrokerPosition F))
      → all (is_backed dict) rows ≡ true
      → All (λ bp. position_at dict bp.ticker ≡ some bp) bps
      → AreHeld rows adopted bps
      → All (λ bp. is_held (rows ++ adopted) bp ≡ true) bps
  known_held dict rows adopted [] backed keyed h = tt
  known_held dict rows adopted (bp ∷ bps) backed keyed h = (
    ground (
      arith,
      h.0,
      any-append (λ r. r.is_open && agrees bp r) rows adopted,
      in_seen-held dict bp rows keyed.0 backed,
    ),
    known_held dict rows adopted bps backed keyed.1 h.1,
  )

  all-append :
      (p : PositionRow F → Bool) (xs ys : List (PositionRow F))
      → all p (xs ++ ys) ≡ (all p xs && all p ys)
  all-append p [] ys = refl
  all-append p (x ∷ xs) ys = ground (arith, all-append p xs ys)

  held-in_seen :
      (bp : BrokerPosition F) (rows : List (PositionRow F))
      → any (λ r. r.is_open && agrees bp r) rows ≡ true
      → in_seen rows bp.ticker ≡ true
  held-in_seen bp [] h = h
  held-in_seen bp (r ∷ rs) h = ground (arith, h, held-in_seen bp rs)

  adopt_all-none :
      (rows : List (PositionRow F)) (id : ℕ) (bps : List (BrokerPosition F))
      → All (λ bp. is_held rows bp ≡ true) bps
      → adopt_all rows id bps ≡ []
  unfolding adopt_all
  adopt_all-none rows id [] h = refl
  adopt_all-none rows id (bp ∷ bps) h =
      let passed : (in_seen rows bp.ticker || leb bp.qty 0) ≡ true =
        ground (arith, h.0, held-in_seen bp rows) in
      rw passed (adopt_all-none rows id bps h.1)

  -- The journal and the broker agree: each open row is one of the broker's positions, and each
  -- position with shares has its row.
  abbrev pub IsAgreed : List (BrokerPosition F) → List (PositionRow F) → Type 0
  IsAgreed broker rows =
      (all (is_backed (by_ticker broker)) rows ≡ true)
      × All (λ bp. is_held rows bp ≡ true) (by_ticker broker)

  backed-IsAgreed :
      (broker : List (BrokerPosition F)) (orders : ℕ → Option (Order F)) (j : Journal F)
      → all (is_backed (by_ticker broker)) j.rows ≡ true
      → IsAgreed broker (reconcile_rows broker orders j)
  unfolding reconcile_rows
  backed-IsAgreed broker orders j backed =
      let dict = by_ticker broker in
      let adopted = adopt_all j.rows j.next_id dict in
      rw (settle_rows-fixed dict orders j.rows backed) (
        ground (
          arith,
          backed,
          all-append (is_backed dict) j.rows adopted,
          adopt_all-backed j.rows j.next_id dict dict (by_ticker-IsKeyed broker),
        ),
        known_held dict j.rows adopted dict backed (by_ticker-IsKeyed broker)
            (adopt_all-held j.rows j.next_id dict),
      )

  -- Two passes over the same positions of the broker make the journal agree with it, whatever the
  -- broker says of the stop orders in the second: each open row has the broker's position of its ticker
  -- behind it, on the same side and with the same number of shares, and each position with shares has
  -- such a row. If no two open rows were of one ticker before, no two are after. Assumed is that in the
  -- first pass a filled stop order took all the shares of its row.
  pub reconcile_twice-IsAgreed :
      (broker : List (BrokerPosition F)) (orders later : ℕ → Option (Order F)) (j : Journal F)
      → all (is_covered orders) j.rows ≡ true
      → let after = (reconcile broker later (reconcile broker orders j).0).0.rows in
        IsAgreed broker after × ((has_distinct j.rows ≡ false) ⊎ (has_distinct after ≡ true))
  unfolding reconcile
  reconcile_twice-IsAgreed broker orders later j covered = (
    backed-IsAgreed broker later (reconcile broker orders j).0
        (reconcile_rows-backed broker orders j covered),
    elim (Bool-cases (has_distinct j.rows)) [
      | inl once ↦ inr (
          reconcile_rows-distinct broker later (reconcile broker orders j).0
            (reconcile_rows-distinct broker orders j once))
      | inr twice ↦ inl twice
    ],
  )

  -- A pass over a journal that agrees with the broker changes nothing and reports no drift.
  reconcile-agreed :
      (broker : List (BrokerPosition F)) (orders : ℕ → Option (Order F)) (j : Journal F)
      → IsAgreed broker j.rows
      → ((reconcile broker orders j).0 ≡ j) × ((reconcile broker orders j).1 ≡ api_ok)
  unfolding reconcile reconcile_rows api_status
  reconcile-agreed broker orders j (backed, held) =
      let dict = by_ticker broker in
      let none_new = adopt_all-none j.rows j.next_id dict held in
      rw (none_new, settle_rows-fixed dict orders j.rows backed, append_nil j.rows)
        (
          ap (λ n. record { rows = j.rows; next_id = n }) (omega arith),
          rw (no_external dict orders j.rows backed) refl,
        )
