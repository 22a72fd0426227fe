-- ===== src/Reconcile/Refill.antt =====
-- A stop order that took a part of the shares only, in src/c4_exec/reconcile.py.
use news_pipeline.Base.{ℕ, true, false, ◌≡◌, refl, Option, none, some, List, default_to}
use news_pipeline.Base.Int.{pos, ◌-ℤ◌, leb_ℤ}
use news_pipeline.Num.{Num}
use news_pipeline.Direction.{Side, pnl}
use news_pipeline.Mechanics.{Order}
use news_pipeline.Reconcile.{
  BrokerPosition, PositionRow, position_at, catastrophe_fill, close_by_fill, settle, settle_row,
  row_of,
}

module _ {F : Type 0} ⦃num : Num F⦄ where
  open num use {add}

  -- An open row, of a ticker that the broker has no position of, names a stop order that has filled and
  -- took fewer shares than the row has. Two passes then count that fill twice: after the first the row
  -- stays open with the rest, and the second adds the same profit and takes off the same shares again.
  pub settle_row-counted_twice :
      (dict : List (BrokerPosition F)) (orders : ℕ → Option (Order F)) (o : Order F)
      (r : PositionRow F)
      → r.is_open ≡ true
      → position_at dict r.ticker ≡ none
      → catastrophe_fill (orders r.position_id) ≡ some o
      → leb_ℤ (r.qty_open -ℤ pos o.filled_qty) (pos 0) ≡ false
      → let once = row_of (settle_row dict orders r) in
        let twice = row_of (settle_row dict orders once) in
        let gain =
          pnl (default_to Side.long r.side) r.avg_entry o.filled_avg_price (pos o.filled_qty) in
        (once.is_open ≡ true)
        × (twice.realized_pnl ≡ add (add r.realized_pnl gain) gain)
        × (twice.qty_open ≡ (r.qty_open -ℤ pos o.filled_qty) -ℤ pos o.filled_qty)
  unfolding settle_row settle close_by_fill
  settle_row-counted_twice dict orders o r at_work gone filled rest =
      rw (at_work, gone, filled, rest, gone, filled) (refl, refl, refl)
