-- ===== src/Reconcile/Distinct.antt =====
-- That src/c4_exec/reconcile.py gives no ticker a second open row.
use news_pipeline.Base.{
  ℕ, suc, Bool, true, false, not, ◌&&◌, ◌||◌, ◌==◌, leb, ◌≡◌, refl, Option, none, some, List, [],
  ◌∷◌, ◌++◌, map, all, arith, Bool-cases, inl, inr, sym, ap, ◌∙◌,
}
use news_pipeline.Num.{Num}
use news_pipeline.Mechanics.{Order}
use news_pipeline.Reconcile.{
  BrokerPosition, PositionRow, Journal, position_at, by_ticker, catastrophe_fill, close_by_fill,
  settle, settle_row, adopted_row, adopt_all, in_seen, row_of, reconcile_rows,
}
use news_pipeline.Reconcile.Dict.{IsUnique, by_ticker-IsUnique}

differ : true ≡ false → ⊥
differ h = cc

module _ {F : Type 0} where
  -- No two open rows are of one ticker.
  abbrev pub has_distinct : List (PositionRow F) → Bool
  has_distinct [] = true
  has_distinct (r ∷ rs) = (not r.is_open || not (in_seen rs r.ticker)) && has_distinct rs

  -- A change of rows that opens none and moves none to another ticker.
  abbrev Closes : (PositionRow F → PositionRow F) → Type 0
  Closes f =
      (r : PositionRow F) → ((f r).ticker ≡ r.ticker) × ((not (f r).is_open || r.is_open) ≡ true)

  in_seen-map :
      (f : PositionRow F → PositionRow F) (t : ℕ) (rs : List (PositionRow F))
      → Closes f
      → in_seen rs t ≡ false
      → in_seen (map f rs) t ≡ false
  in_seen-map f t [] closes h = refl
  in_seen-map f t (r ∷ rs) closes h = ground (arith, h, closes r, in_seen-map f t rs closes)

  has_distinct-map :
      (f : PositionRow F → PositionRow F) (rs : List (PositionRow F))
      → Closes f
      → has_distinct rs ≡ true
      → has_distinct (map f rs) ≡ true
  has_distinct-map f [] closes h = refl
  has_distinct-map f (r ∷ rs) closes h = rw ((closes r).0) (
      ground
        (arith, h, (closes r).1, in_seen-map f r.ticker rs closes, has_distinct-map f rs closes))

  -- No open row of the first list is of the ticker of an open row of the second.
  abbrev are_apart : List (PositionRow F) → List (PositionRow F) → Bool
  are_apart xs ys = all (λ x. not x.is_open || not (in_seen ys x.ticker)) xs

  in_seen-append :
      (t : ℕ) (xs ys : List (PositionRow F)) → in_seen (xs ++ ys) t ≡ (in_seen xs t || in_seen ys t)
  in_seen-append t [] ys = refl
  in_seen-append t (x ∷ xs) ys = ground (arith, in_seen-append t xs ys)

  has_distinct-append :
      (xs ys : List (PositionRow F))
      → has_distinct xs ≡ true
      → has_distinct ys ≡ true
      → are_apart xs ys ≡ true
      → has_distinct (xs ++ ys) ≡ true
  has_distinct-append [] ys hx hy apart = hy
  has_distinct-append (x ∷ xs) ys hx hy apart = ground (
    arith,
    hx,
    apart,
    in_seen-append x.ticker xs ys,
    has_distinct-append xs ys (ground (arith, hx)) hy (ground (arith, apart)),
  )

  other_ticker :
      (rows : List (PositionRow F)) (s t : ℕ)
      → in_seen rows t ≡ true
      → in_seen rows s ≡ false
      → (s == t) ≡ false
  other_ticker rows s t seen new = elim (Bool-cases (s == t)) [
    | inr other ↦ other
    | inl same ↦
        let e : s ≡ t = ground (arith, same) in
        absurd (differ (sym seen ∙ (ap (in_seen rows) (sym e) ∙ new)))
  ]

  missing-cons :
      (bp : BrokerPosition F) (t : ℕ) (bps : List (BrokerPosition F))
      → position_at (bp ∷ bps) t ≡ none
      → ((bp.ticker == t) ≡ false) × (position_at bps t ≡ none)
  missing-cons bp t bps h = ground (arith, h)

module _ {F : Type 0} ⦃num : Num F⦄ where
  adopted_known :
      (rows : List (PositionRow F)) (id t : ℕ) (bps : List (BrokerPosition F))
      → in_seen rows t ≡ true
      → in_seen (adopt_all rows id bps) t ≡ false
  unfolding adopt_all adopted_row
  adopted_known rows id t [] seen = refl
  adopted_known rows id t (bp ∷ bps) seen =
      elim (Bool-cases (in_seen rows bp.ticker || leb bp.qty 0)) [
        | inl passed ↦ rw passed (adopted_known rows id t bps seen)
        | inr taken ↦
            let other : (bp.ticker == t) ≡ false =
              other_ticker rows bp.ticker t seen (ground (arith, taken)) in
            rw (taken, other) (adopted_known rows (suc id) t bps seen)
      ]

  adopted_missing :
      (rows : List (PositionRow F)) (id t : ℕ) (bps : List (BrokerPosition F))
      → position_at bps t ≡ none
      → in_seen (adopt_all rows id bps) t ≡ false
  unfolding adopt_all adopted_row
  adopted_missing rows id t [] h = refl
  adopted_missing rows id t (bp ∷ bps) h =
      let (other, rest) = missing-cons bp t bps h in
      elim (Bool-cases (in_seen rows bp.ticker || leb bp.qty 0)) [
        | inl passed ↦ rw passed (adopted_missing rows id t bps rest)
        | inr taken ↦ rw (taken, other) (adopted_missing rows (suc id) t bps rest)
      ]

  adopted-distinct :
      (rows : List (PositionRow F)) (id : ℕ) (bps : List (BrokerPosition F))
      → IsUnique bps
      → has_distinct (adopt_all rows id bps) ≡ true
  unfolding adopt_all adopted_row
  adopted-distinct rows id [] h = refl
  adopted-distinct rows id (bp ∷ bps) h =
      elim (Bool-cases (in_seen rows bp.ticker || leb bp.qty 0)) [
        | inl passed ↦ rw passed (adopted-distinct rows id bps h.1)
        | inr taken ↦
            rw (taken, adopted_missing rows (suc id) bp.ticker bps h.0)
              (adopted-distinct rows (suc id) bps h.1)
      ]

  settle-closes :
      (bp : Option (BrokerPosition F)) (fill : Option (Order F)) (r : PositionRow F)
      → ((row_of (settle bp fill r)).ticker ≡ r.ticker)
        × ((not (row_of (settle bp fill r)).is_open || r.is_open) ≡ true)
  unfolding settle close_by_fill
  settle-closes none none r = ground arith
  settle-closes none (some o) r = ground arith
  settle-closes (some bp) none r = ground arith
  settle-closes (some bp) (some o) r = ground arith

  settle_row-Closes :
      (dict : List (BrokerPosition F)) (orders : ℕ → Option (Order F))
      → Closes (λ r. row_of (settle_row dict orders r))
  unfolding settle_row
  settle_row-Closes dict orders r =
      ground (
        arith,
        settle-closes (position_at dict r.ticker) (catastrophe_fill (orders r.position_id)) r,
      )

  -- The rows that a pass adopts are of tickers that had no open row.
  settled_apart :
      (dict bps : List (BrokerPosition F)) (orders : ℕ → Option (Order F)) (id : ℕ)
      (rows part : List (PositionRow F))
      → ((t : ℕ) → in_seen part t ≡ true → in_seen rows t ≡ true)
      → are_apart (map (λ r. row_of (settle_row dict orders r)) part) (adopt_all rows id bps) ≡ true
  settled_apart dict bps orders id rows [] known = refl
  settled_apart dict bps orders id rows (r ∷ rs) known =
      let (ticker, closes) = settle_row-Closes dict orders r in
      let rest = settled_apart dict bps orders id rows rs (λ t h. known t (ground (arith, h))) in
      rw (ticker, rest)
        (elim (Bool-cases r.is_open) [
          | inl open_yet ↦
              let seen = known r.ticker (ground (arith, open_yet)) in
              rw (adopted_known rows id r.ticker bps seen) (ground arith)
          | inr closed ↦ ground (arith, closes, closed)
        ])

  -- A journal with no two open rows of a ticker is left with none by a pass.
  pub reconcile_rows-distinct :
      (broker : List (BrokerPosition F)) (orders : ℕ → Option (Order F)) (j : Journal F)
      → has_distinct j.rows ≡ true
      → has_distinct (reconcile_rows broker orders j) ≡ true
  unfolding reconcile_rows
  reconcile_rows-distinct broker orders j h =
      let dict = by_ticker broker in
      has_distinct-append (map (λ r. row_of (settle_row dict orders r)) j.rows)
        (adopt_all j.rows j.next_id dict)
        (has_distinct-map (λ r. row_of (settle_row dict orders r)) j.rows
          (settle_row-Closes dict orders) h)
        (adopted-distinct j.rows j.next_id dict (by_ticker-IsUnique broker))
        (settled_apart dict dict orders j.next_id j.rows j.rows (λ t seen. seen))
