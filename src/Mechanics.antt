-- ===== src/Mechanics.antt =====
-- src/c4_exec/mechanics.py: the order of calls of a synthetic exit, with the row that
-- src/c4_exec/state.py writes for a fill. What the broker answers is a record of its answers, one for
-- each call, an exception included; seconds are whole numbers. The database does not fail, and an order
-- that is filled has a price.
pub mod Protection
use news_pipeline.Base.{
  ℕ, zero, suc, ◌+◌, ◌-◌, Bool, true, false, Option, none, some, List, [], ◌∷◌, ltb, if◌then◌else◌,
  default_to,
}
use news_pipeline.Base.Int.{pos}
use news_pipeline.Num.{Num, zero_f, truthy}
use news_pipeline.Direction.{Side, pnl}
use news_pipeline.Exits.{Layer, Position}
use news_pipeline.Engine.{Outcome, filled, reinstated, catastrophe_filled}

-- `filled`, and every other status of an order.
pub data OrderStatus : Type 0 where
  filled_status other_status : OrderStatus

pub record Order (F : Type 0) : Type 0 where
  pub status : OrderStatus
  pub filled_qty : ℕ
  pub filled_avg_price : F

abbrev pub is_filled : OrderStatus → Bool
is_filled filled_status = true
is_filled other_status = false

-- The layer of a row of `journal.exits`.
pub data RowLayer : Type 0 where
  catastrophe : RowLayer
  synthetic : Layer → RowLayer

pub record ExitRow (F : Type 0) : Type 0 where
  pub exit_layer : RowLayer
  pub qty : ℕ
  pub price : F
  pub realized_pnl : F
  pub r_multiple : F
  pub is_partial : Bool

-- The position in the journal: its exits, what they took off `qty_open`, the stop price of the
-- catastrophe order that it names; and at the broker: the shares that this order guards, and the shares
-- that its reports of orders leave of the position.
pub record Desk (F : Type 0) : Type 0 where
  pub rows : List (ExitRow F)
  pub sold : ℕ
  pub named_stop : Option F
  pub guarded : Option ℕ
  pub held : ℕ

-- What the submission of the exit comes to: an order, a `BrokerReject`, or another exception.
pub data Submission : Type 0 where
  taken rejected submit_raised : Submission

-- What the broker answers: to the cancel of the stop and to the look at it where that fails, to the
-- submission of the exit, to each poll, to the cancel of the exit and the last look at it, and to the
-- submission of a new stop. A `none` is an exception; so is a false of the last cancel and of the new
-- stop, where a reject is one too.
pub record Answers (F : Type 0) : Type 0 where
  pub stop_cancelled : Option Bool
  pub stop_order : Option (Order F)
  pub submission : Submission
  pub polls : ℕ → Option (Order F)
  pub exit_cancelled : Bool
  pub final : Option (Order F)
  pub stop_placed : Bool

-- How an exit ends: with an outcome, or with an exception, which leaves what was done until then.
pub data ExitEnd (F : Type 0) : Type 0 where
  ended : Outcome → Desk F → ExitEnd F
  raised_at : Desk F → ExitEnd F

-- How the polls end: the window is over, an order is filled, or a look raises.
pub data Polled (F : Type 0) : Type 0 where
  window_over : Polled F
  seen : Order F → Polled F
  poll_raised : Polled F

module _ {F : Type 0} ⦃num : Num F⦄ where
  open num use {of_ℤ, mul, div, round}

  -- `record_exit` of state.py
  unfoldable pub record_exit : Position F → RowLayer → Order F → Bool → Desk F → Desk F
  record_exit p layer o partial desk =
      let side = default_to Side.long p.side in
      let gain = pnl side p.avg_entry o.filled_avg_price (pos o.filled_qty) in
      let row : ExitRow F = record {
        exit_layer = layer;
        qty = o.filled_qty;
        price = o.filled_avg_price;
        realized_pnl = gain;
        r_multiple =
            if truthy p.r_unit
            then round (div gain (mul p.r_unit (of_ℤ (pos o.filled_qty)))) 3
            else zero_f;
        is_partial = partial;
      } in
      record desk {
        rows = row ∷ desk.rows;
        sold = desk.sold + o.filled_qty;
        held = desk.held - o.filled_qty;
      }

module _ {F : Type 0} where
  -- `_place_catastrophe`: the new stop is named and guards its shares, or its submission raises.
  unfoldable pub place_catastrophe : F → ℕ → Bool → Desk F → Option (Desk F)
  place_catastrophe stop_price qty placed desk =
      if placed
      then some (record desk { named_stop = some stop_price; guarded = some qty })
      else none

  abbrev pub placed_end : Outcome → Desk F → Option (Desk F) → ExitEnd F
  placed_end outcome desk none = raised_at desk
  placed_end outcome desk (some after) = ended outcome after

  -- A new stop where there was one, and the outcome.
  unfoldable pub protect : Option F → ℕ → Bool → Outcome → Desk F → ExitEnd F
  unfolding place_catastrophe
  protect none qty placed outcome desk = ended outcome desk
  protect (some stop) qty placed outcome desk =
      placed_end outcome desk (place_catastrophe stop qty placed desk)

  -- What a poll decides; `later` are the polls after it.
  abbrev pub poll_order : Option (Order F) → Option (Polled F) → Option (Polled F)
  poll_order none later = some poll_raised
  poll_order (some o) later = if is_filled o.status then some (seen o) else later

  -- The polls of the exit order; `none` is the fuel.
  unfoldable pub poll : ℕ → ℕ → ℕ → ℕ → ℕ → (ℕ → Option (Order F)) → Option (Polled F)
  poll zero max_secs sleep waited n polls = none
  poll (suc fuel) max_secs sleep waited n polls =
      let rest = poll fuel max_secs sleep (waited + sleep) (n + 1) polls in
      if ltb waited max_secs then poll_order (polls n) rest else some window_over

module _ {F : Type 0} ⦃num : Num F⦄ where
  -- The last look, after the cancel of the exit.
  unfoldable pub settle_final :
      Position F → ℕ → Layer → Bool → Option F → Desk F → Option (Order F) → ExitEnd F
  unfolding protect
  settle_final p qty layer placed stop desk none = raised_at desk
  settle_final p qty layer placed stop desk (some final) =
      if is_filled final.status
      then ended filled (record_exit p (synthetic layer) final (ltb qty p.qty_open) desk)
      else protect stop p.qty_open placed reinstated
          (record desk { held = desk.held - final.filled_qty })

  -- The cancel of the exit, where the window is over.
  unfoldable pub cancel_exit :
      Position F → ℕ → Layer → Bool → Option F → Desk F → Option (Order F) → Bool → ExitEnd F
  unfolding settle_final
  cancel_exit p qty layer placed stop desk final true =
      settle_final p qty layer placed stop desk final
  cancel_exit p qty layer placed stop desk final false = raised_at desk

  -- What follows the polls.
  unfoldable pub conclude :
      Position F
      → ℕ
      → Layer
      → Answers F
      → Option F
      → Desk F
      → Option (Polled F)
      → Option (ExitEnd F)
  unfolding cancel_exit protect
  conclude p qty layer a stop desk none = none
  conclude p qty layer a stop desk (some poll_raised) = some (raised_at desk)
  conclude p qty layer a stop desk (some window_over) =
      some (cancel_exit p qty layer a.stop_placed stop desk a.final a.exit_cancelled)
  conclude p qty layer a stop desk (some (seen o)) =
      let after = record_exit p (synthetic layer) o (ltb qty p.qty_open) desk in
      some (
        if ltb o.filled_qty p.qty_open
        then protect stop (p.qty_open - o.filled_qty) a.stop_placed filled after
        else ended filled after)

  -- From the submission of the exit on.
  unfoldable pub submit :
      Position F
      → ℕ
      → Layer
      → ℕ
      → ℕ
      → Answers F
      → Option F
      → Desk F
      → Submission
      → Option (ExitEnd F)
  unfolding conclude protect
  submit p qty layer max_secs sleep a stop desk rejected =
      some (protect stop p.qty_open a.stop_placed reinstated desk)
  submit p qty layer max_secs sleep a stop desk submit_raised = some (raised_at desk)
  submit p qty layer max_secs sleep a stop desk taken =
      conclude p qty layer a stop desk (poll (suc max_secs) max_secs sleep 0 0 a.polls)

  unfoldable pub send_exit :
      Position F → ℕ → Layer → ℕ → ℕ → Answers F → Option F → Desk F → Option (ExitEnd F)
  unfolding submit
  send_exit p qty layer max_secs sleep a stop desk =
      submit p qty layer max_secs sleep a stop desk a.submission

  -- Where the stop could not be cancelled: it has filled, or the exit goes on.
  unfoldable pub check_stop :
      Position F
      → ℕ
      → Layer
      → ℕ
      → ℕ
      → Answers F
      → F
      → Desk F
      → Option (Order F)
      → Option (ExitEnd F)
  check_stop p qty layer max_secs sleep a stop desk none =
      send_exit p qty layer max_secs sleep a (some stop) desk
  check_stop p qty layer max_secs sleep a stop desk (some o) =
      if is_filled o.status
      then some (
          ended catastrophe_filled
            (record_exit p catastrophe o false (record desk { guarded = none })))
      else send_exit p qty layer max_secs sleep a (some stop) desk

  -- The cancel of the stop, and what follows it.
  unfoldable pub cancel_stop :
      Position F → ℕ → Layer → ℕ → ℕ → Answers F → F → Desk F → Option Bool → Option (ExitEnd F)
  unfolding check_stop
  cancel_stop p qty layer max_secs sleep a stop desk none = some (raised_at desk)
  cancel_stop p qty layer max_secs sleep a stop desk (some true) =
      send_exit p qty layer max_secs sleep a (some stop) (record desk { guarded = none })
  cancel_stop p qty layer max_secs sleep a stop desk (some false) =
      check_stop p qty layer max_secs sleep a stop desk a.stop_order

  -- From the stop that the position names.
  abbrev pub exit_from :
      Position F → ℕ → Layer → ℕ → ℕ → Answers F → Desk F → Option F → Option (ExitEnd F)
  exit_from p qty layer max_secs sleep a desk none =
      send_exit p qty layer max_secs sleep a none desk
  exit_from p qty layer max_secs sleep a desk (some stop) =
      cancel_stop p qty layer max_secs sleep a stop desk a.stop_cancelled

  unfoldable pub execute_exit :
      Position F → ℕ → Layer → ℕ → ℕ → Answers F → Desk F → Option (ExitEnd F)
  unfolding cancel_stop
  execute_exit p qty layer max_secs sleep a desk =
      exit_from p qty layer max_secs sleep a desk desk.named_stop
