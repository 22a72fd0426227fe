-- ===== src/Reconcile/Backed.antt =====
-- What the broker holds against each open position of the journal after src/c4_exec/reconcile.py.
use news_pipeline.Base.{
  ℕ, suc, Bool, true, false, not, ◌&&◌, ◌||◌, ◌==◌, leb, ltb, ◌≡◌, refl, Option, none, some, List,
  [], ◌∷◌, ◌++◌, map, all, arith, default_to, All, Bool-cases, inl, inr,
}
use news_pipeline.Base.Int.{pos, ◌-ℤ◌, leb_ℤ, eqb_ℤ}
use news_pipeline.Num.{Num}
use news_pipeline.Direction.{Side}
use news_pipeline.Mechanics.{Order}
use news_pipeline.Reconcile.{
  BrokerPosition, PositionRow, Journal, same_side, position_at, by_ticker, catastrophe_fill,
  close_by_fill, settle, settle_row, adopted_row, adopt_all, in_seen, row_of, reconcile_rows,
}
use news_pipeline.Reconcile.Dict.{by_ticker-IsKeyed}

same_side_refl : (s : Side) → same_side s s ≡ true
same_side_refl Side.long = refl
same_side_refl Side.short = refl

eqb_ℤ_refl : (n : ℕ) → eqb_ℤ (pos n) (pos n) ≡ true
eqb_ℤ_refl n = ground arith

pub and_both : (a b : Bool) → (a && b) ≡ true → (a ≡ true) × (b ≡ true)
and_both a b h = ground (arith, h)

module _ {F : Type 0} where
  -- The row says what the position says.
  abbrev pub agrees : BrokerPosition F → PositionRow F → Bool
  agrees bp r =
      bp.ticker == r.ticker
      && ltb 0 bp.qty
      && same_side bp.side (default_to Side.long r.side)
      && eqb_ℤ (pos bp.qty) r.qty_open

  abbrev pub agrees_with : Option (BrokerPosition F) → PositionRow F → Bool
  agrees_with none r = false
  agrees_with (some bp) r = agrees bp r

  -- A row that is closed, or that the position under its ticker agrees with.
  abbrev pub is_backed : List (BrokerPosition F) → PositionRow F → Bool
  is_backed dict r = not r.is_open || agrees_with (position_at dict r.ticker) r

  -- A filled stop order, if there is one, took all the shares of the row.
  abbrev pub is_covered : (ℕ → Option (Order F)) → PositionRow F → Bool
  is_covered orders r = elim (catastrophe_fill (orders r.position_id)) [
    | none ↦ true
    | some o ↦ leb_ℤ (r.qty_open -ℤ pos o.filled_qty) (pos 0)
  ]

  position_at-ticker :
      (t : ℕ) (dict : List (BrokerPosition F))
      → elim (position_at dict t) [ none ↦ true | some bp ↦ bp.ticker == t ] ≡ true
  position_at-ticker t [] = refl
  position_at-ticker t (q ∷ qs) = ground (arith, position_at-ticker t qs)

module _ {F : Type 0} ⦃num : Num F⦄ where
  settle-backed :
      (bp : Option (BrokerPosition F)) (fill : Option (Order F)) (r : PositionRow F)
      → elim fill [ none ↦ true | some o ↦ leb_ℤ (r.qty_open -ℤ pos o.filled_qty) (pos 0) ] ≡ true
      → elim bp [ none ↦ true | some p ↦ p.ticker == r.ticker ] ≡ true
      → let after = row_of (settle bp fill r) in (not after.is_open || agrees_with bp after) ≡ true
  unfolding settle close_by_fill
  settle-backed none none r covered found = refl
  settle-backed none (some o) r covered found = ground (arith, covered)
  settle-backed (some bp) none r covered found = ground (arith, found, eqb_ℤ_refl bp.qty)
  settle-backed (some bp) (some o) r covered found =
      ground (arith, covered, found, eqb_ℤ_refl bp.qty)

  settle-ticker :
      (bp : Option (BrokerPosition F)) (fill : Option (Order F)) (r : PositionRow F)
      → (row_of (settle bp fill r)).ticker ≡ r.ticker
  unfolding settle close_by_fill
  settle-ticker none none r = refl
  settle-ticker none (some o) r = refl
  settle-ticker (some bp) none r = ground arith
  settle-ticker (some bp) (some o) r = ground arith

  settle_row-backed :
      (dict : List (BrokerPosition F)) (orders : ℕ → Option (Order F)) (r : PositionRow F)
      → is_covered orders r ≡ true
      → is_backed dict (row_of (settle_row dict orders r)) ≡ true
  unfolding settle_row
  settle_row-backed dict orders r covered = elim (Bool-cases r.is_open) [
    | inr closed ↦ rw closed refl
    | inl at_work ↦
        let found = position_at dict r.ticker in
        let fill = catastrophe_fill (orders r.position_id) in
        let now : PositionRow F = record r { is_open = true } in
        rw (at_work, settle-ticker found fill now)
          (settle-backed found fill now covered (position_at-ticker r.ticker dict))
  ]

  pub adopted_row-agrees :
      (id : ℕ) (bp : BrokerPosition F) → leb bp.qty 0 ≡ false → agrees bp (adopted_row id bp) ≡ true
  unfolding adopted_row
  adopted_row-agrees id bp some_shares =
      ground (arith, same_side_refl bp.side, eqb_ℤ_refl bp.qty, some_shares)

  pub adopt_all-backed :
      (rows : List (PositionRow F)) (id : ℕ) (dict part : List (BrokerPosition F))
      → All (λ bp. position_at dict bp.ticker ≡ some bp) part
      → all (is_backed dict) (adopt_all rows id part) ≡ true
  unfolding adopt_all adopted_row
  adopt_all-backed rows id dict [] keyed = refl
  adopt_all-backed rows id dict (bp ∷ bps) keyed =
      elim (Bool-cases (in_seen rows bp.ticker || leb bp.qty 0)) [
        | inl passed ↦ rw passed (adopt_all-backed rows id dict bps keyed.1)
        | inr taken ↦
            rw (taken, keyed.0, adopt_all-backed rows (suc id) dict bps keyed.1)
              (ground (arith, adopted_row-agrees id bp))
      ]

  settle_rows-backed :
      (dict : List (BrokerPosition F)) (orders : ℕ → Option (Order F)) (rows : List (PositionRow F))
      (adopted : List (PositionRow F))
      → all (is_covered orders) rows ≡ true
      → all (is_backed dict) adopted ≡ true
      → all (is_backed dict) (map (λ r. row_of (settle_row dict orders r)) rows ++ adopted) ≡ true
  settle_rows-backed dict orders [] adopted covered h = h
  settle_rows-backed dict orders (r ∷ rs) adopted covered h =
      let (first, rest) = and_both (is_covered orders r) (all (is_covered orders) rs) covered in
      rw (settle_row-backed dict orders r first, settle_rows-backed dict orders rs adopted rest h)
        refl

  -- After a pass every open position of the journal is one that the broker has, on the same side,
  -- with the same number of shares. Assumed is that a filled stop order took all the shares of its
  -- row.
  pub reconcile_rows-backed :
      (broker : List (BrokerPosition F)) (orders : ℕ → Option (Order F)) (j : Journal F)
      → all (is_covered orders) j.rows ≡ true
      → all (is_backed (by_ticker broker)) (reconcile_rows broker orders j) ≡ true
  unfolding reconcile_rows
  reconcile_rows-backed broker orders j covered =
      let dict = by_ticker broker in
      settle_rows-backed dict orders j.rows (adopt_all j.rows j.next_id dict) covered
        (adopt_all-backed j.rows j.next_id dict dict (by_ticker-IsKeyed broker))
