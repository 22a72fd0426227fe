-- ===== src/Reconcile.antt =====
-- src/c4_exec/reconcile.py: the pass that makes the journal's open positions agree with the broker's.
-- Tickers are numbers. What the broker says of the stop order that a position names is a function of
-- the position's id, `none` where there is no such order or the look at it failed.
pub mod Dict
pub mod Backed
pub mod Distinct
pub mod Converge
pub mod Refill
use news_pipeline.Base.{
  ℕ, suc, Bool, true, false, not, ◌&&◌, ◌||◌, ◌==◌, leb, ltb, Option, none, some, List, [], ◌∷◌,
  ◌++◌, map, any, is_empty, if◌then◌else◌, default_to, ◌+◌, length,
}
use news_pipeline.Base.Int.{ℤ, pos, ◌-ℤ◌, leb_ℤ, eqb_ℤ}
use news_pipeline.Num.{Num, zero_f}
use news_pipeline.Direction.{Side, is_long, entry_stop, r_unit, pnl}
use news_pipeline.Mechanics.{Order, is_filled}

-- `BrokerPosition`; the quantity comes without a sign.
pub record BrokerPosition (F : Type 0) : Type 0 where
  pub ticker : ℕ
  pub qty : ℕ
  pub avg_entry : F
  pub side : Side

-- A row of `journal.positions`; `is_open` is its status.
pub record PositionRow (F : Type 0) : Type 0 where
  pub position_id : ℕ
  pub ticker : ℕ
  pub qty_open : ℤ
  pub avg_entry : F
  pub initial_stop : F
  pub r_unit : F
  pub side : Option Side
  pub realized_pnl : F
  pub is_open : Bool

pub record Journal (F : Type 0) : Type 0 where
  pub rows : List (PositionRow F)
  pub next_id : ℕ

-- The list of `summary` that a row's ticker goes to.
pub data Drift : Type 0 where
  in_step caught_stop closed_external qty_snapped : Drift

pub data ApiStatus : Type 0 where
  api_ok api_degraded : ApiStatus

abbrev pub same_side : Side → Side → Bool
same_side Side.long t = is_long t
same_side Side.short t = not (is_long t)

module _ {F : Type 0} where
  -- `{p.ticker: p for p in ...}`: a later position takes the place of an earlier one.
  unfoldable pub put : BrokerPosition F → List (BrokerPosition F) → List (BrokerPosition F)
  put p [] = p ∷ []
  put p (q ∷ qs) = if p.ticker == q.ticker then p ∷ qs else q ∷ put p qs

  unfoldable pub put_all :
      List (BrokerPosition F) → List (BrokerPosition F) → List (BrokerPosition F)
  put_all [] dict = dict
  put_all (p ∷ ps) dict = put_all ps (put p dict)

  unfoldable pub by_ticker : List (BrokerPosition F) → List (BrokerPosition F)
  unfolding put_all
  by_ticker ps = put_all ps []

  -- `broker_positions.get(ticker)`
  abbrev pub position_at : List (BrokerPosition F) → ℕ → Option (BrokerPosition F)
  position_at [] t = none
  position_at (q ∷ qs) t = if q.ticker == t then some q else position_at qs t

  -- `_catastrophe_fill`, of what the broker answers.
  unfoldable pub catastrophe_fill : Option (Order F) → Option (Order F)
  catastrophe_fill none = none
  catastrophe_fill (some o) = if is_filled o.status && not (o.filled_qty == 0) then some o else none

  abbrev pub close_external : PositionRow F → PositionRow F × Drift
  close_external r = (record r { qty_open = pos 0; is_open = false }, closed_external)

  abbrev pub in_seen : List (PositionRow F) → ℕ → Bool
  in_seen rows t = any (λ r. r.is_open && r.ticker == t) rows

  abbrev pub row_of : PositionRow F × Drift → PositionRow F
  row_of (r, d) = r

module _ {F : Type 0} ⦃num : Num F⦄ where
  open num use {add, mul, lit}

  -- The UPDATE of `record_exit`.
  unfoldable pub close_by_fill : Order F → PositionRow F → PositionRow F × Drift
  close_by_fill o r =
      let left = r.qty_open -ℤ pos o.filled_qty in
      let gain =
        pnl (default_to Side.long r.side) r.avg_entry o.filled_avg_price (pos o.filled_qty) in
      (
        record r {
          qty_open = left;
          realized_pnl = add r.realized_pnl gain;
          is_open = not (leb_ℤ left (pos 0)) && r.is_open;
        },
        caught_stop,
      )

  -- A position that the broker does not have.
  abbrev pub settle_missing : Option (Order F) → PositionRow F → PositionRow F × Drift
  settle_missing none r = close_external r
  settle_missing (some o) r = close_by_fill o r

  -- The body of the loop over the open positions.
  unfoldable pub settle :
      Option (BrokerPosition F) → Option (Order F) → PositionRow F → PositionRow F × Drift
  unfolding close_by_fill
  settle none fill r = settle_missing fill r
  settle (some bp) fill r =
      if leb bp.qty 0
      then settle_missing fill r
      else if not (same_side bp.side (default_to Side.long r.side))
      then close_external r
      else if eqb_ℤ (pos bp.qty) r.qty_open
      then (r, in_step)
      else (record r { qty_open = pos bp.qty }, qty_snapped)

  unfoldable pub settle_row :
      List (BrokerPosition F) → (ℕ → Option (Order F)) → PositionRow F → PositionRow F × Drift
  unfolding settle catastrophe_fill
  settle_row dict orders r =
      if r.is_open
      then settle (position_at dict r.ticker) (catastrophe_fill (orders r.position_id)) r
      else (r, in_step)

  -- The row of a position that the journal does not know.
  unfoldable pub adopted_row : ℕ → BrokerPosition F → PositionRow F
  adopted_row id bp =
      let stop = entry_stop bp.side bp.avg_entry (mul bp.avg_entry (lit 2 2)) in
      record {
        position_id = id;
        ticker = bp.ticker;
        qty_open = pos bp.qty;
        avg_entry = bp.avg_entry;
        initial_stop = stop;
        r_unit = r_unit bp.side bp.avg_entry stop;
        side = some bp.side;
        realized_pnl = zero_f;
        is_open = true;
      }

  unfoldable pub adopt_all :
      List (PositionRow F) → ℕ → List (BrokerPosition F) → List (PositionRow F)
  adopt_all rows id [] = []
  adopt_all rows id (bp ∷ bps) =
      if in_seen rows bp.ticker || leb bp.qty 0
      then adopt_all rows id bps
      else adopted_row id bp ∷ adopt_all rows (suc id) bps

  -- The transaction of `reconcile`.
  unfoldable pub reconcile_rows :
      List (BrokerPosition F) → (ℕ → Option (Order F)) → Journal F → List (PositionRow F)
  unfolding settle_row adopt_all
  reconcile_rows broker orders j =
      let dict = by_ticker broker in
      map (λ r. row_of (settle_row dict orders r)) j.rows ++ adopt_all j.rows j.next_id dict

  -- The health of `broker_api` as far as the positions decide it.
  abbrev pub is_external : PositionRow F × Drift → Bool
  is_external (r, closed_external) = true
  is_external (r, in_step) = false
  is_external (r, caught_stop) = false
  is_external (r, qty_snapped) = false

  unfoldable pub api_status :
      List (BrokerPosition F) → (ℕ → Option (Order F)) → Journal F → ApiStatus
  unfolding settle_row adopt_all
  api_status broker orders j =
      let dict = by_ticker broker in
      if any (λ r. is_external (settle_row dict orders r)) j.rows
        || not (is_empty (adopt_all j.rows j.next_id dict))
      then api_degraded
      else api_ok

  unfoldable pub reconcile :
      List (BrokerPosition F) → (ℕ → Option (Order F)) → Journal F → Journal F × ApiStatus
  unfolding reconcile_rows api_status
  reconcile broker orders j = (
    record {
      rows = reconcile_rows broker orders j;
      next_id = j.next_id + length (adopt_all j.rows j.next_id (by_ticker broker));
    },
    api_status broker orders j,
  )
