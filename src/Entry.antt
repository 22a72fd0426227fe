-- ===== src/Entry.antt =====
-- src/c4_exec/service.py: one delivery of an entry intent, from the checks before the order to the
-- position and its catastrophe stop. What a delivery does outside is the list of its writes, each
-- committed on its own, so a delivery that dies has done a prefix of them. Seconds are whole numbers.
pub mod Types
pub mod Single
pub mod Outcome
pub mod Funds
use news_pipeline.Base.{
  ℕ, zero, suc, ◌+◌, Bool, true, false, not, ◌&&◌, ◌||◌, ◌==◌, leb, Option, none, some, List, [],
  ◌∷◌, ◌++◌, is_empty, if◌then◌else◌, default_to,
}
use news_pipeline.Base.Int.{ℤ, pos}
use news_pipeline.Num.{Num, zero_f, min_f, or_else}
use news_pipeline.Direction.{
  Side, Intent, sell_short, buy, BrokerSide, broker_buy, broker_sell, broker_side, entry_stop,
  r_unit, is_long,
}
use news_pipeline.Entry.Types.{
  IntentStatus, submitted, rejected, filled, partial, cancelled, expired, pending, BrokerStatus,
  OrderState, BrokerOrder, EntryVeto, Flags, Holding, Body, Opened, EntryRow, Write, order_sent,
  order_created, status_set, order_moved, fill_recorded, position_opened, vetoed, stop_sent,
  stop_linked, degraded, EntryDesk, EntryAnswers, HandleEnd, raised, finished, order_state,
  is_terminal,
}

abbrev pub is_final_status : IntentStatus → Bool
is_final_status pending = false
is_final_status submitted = true
is_final_status filled = true
is_final_status partial = true
is_final_status cancelled = true
is_final_status expired = true
is_final_status rejected = true

abbrev pub unfilled_status : BrokerStatus → IntentStatus
unfilled_status BrokerStatus.expired = expired
unfilled_status BrokerStatus.accepted = cancelled
unfilled_status BrokerStatus.partially_filled = cancelled
unfilled_status BrokerStatus.filled = cancelled
unfilled_status BrokerStatus.canceled = cancelled
unfilled_status BrokerStatus.rejected = cancelled

abbrev pub is_short_intent : Option Intent → Bool
is_short_intent none = false
is_short_intent (some buy) = false
is_short_intent (some Intent.sell) = false
is_short_intent (some sell_short) = true
is_short_intent (some Intent.buy_to_cover) = false

module _ {F : Type 0} where
  -- `_already_processed`, of an intent that is in the journal.
  unfoldable pub already_processed : IntentStatus → List (EntryRow F) → Bool
  already_processed status orders = is_final_status status || not (is_empty orders)

  -- The row that the delivery made is the newest.
  abbrev pub move_newest : BrokerOrder F → List (EntryRow F) → List (EntryRow F)
  move_newest o [] = []
  move_newest o (row ∷ rows) = record row { state = order_state o.status } ∷ rows

  unfoldable pub apply_write : Write F → EntryDesk F → EntryDesk F
  apply_write (order_sent side qty limit_price) d = record d {
    submissions = (side, qty, limit_price) ∷ d.submissions;
  }
  apply_write (order_created o) d = record d {
    orders = record { qty = o.qty; state = order_state o.status } ∷ d.orders;
  }
  apply_write (status_set status) d = record d { status = some status }
  apply_write (order_moved o) d = record d { orders = move_newest o d.orders }
  apply_write (fill_recorded qty price) d = record d { fills = (qty, price) ∷ d.fills }
  apply_write (position_opened p) d = record d { positions = p ∷ d.positions }
  apply_write (vetoed why) d = record d { vetoes = why ∷ d.vetoes }
  apply_write (stop_sent side qty price) d = record d { stops = (side, qty, price) ∷ d.stops }
  apply_write (stop_linked price) d = record d { linked_stop = some price }
  apply_write degraded d = record d { is_degraded = true }

  unfoldable pub apply_writes : List (Write F) → EntryDesk F → EntryDesk F
  apply_writes [] d = d
  apply_writes (w ∷ ws) d = apply_writes ws (apply_write w d)

  -- `_await_terminal`: the first terminal answer, or the last look after the cancel. `none` is a lack
  -- of fuel.
  unfoldable pub await_terminal :
      ℕ → ℕ → ℕ → ℕ → ℕ → (ℕ → BrokerOrder F) → BrokerOrder F → Option (BrokerOrder F)
  await_terminal zero timeout sleep waited n looks last = none
  await_terminal (suc fuel) timeout sleep waited n looks last =
      let rest = await_terminal fuel timeout sleep (waited + sleep) (suc n) looks last in
      if is_terminal (looks n).status
      then some (looks n)
      else if leb timeout waited
      then some last
      else rest

module _ {F : Type 0} ⦃num : Num F⦄ where
  open num use {of_ℤ, add, mul, is_lt}

  -- `sum(p["qty_open"] * float(p["avg_entry"]) for p in ...)`
  abbrev pub deployed_from : F → List (Holding F) → F
  deployed_from total [] = total
  deployed_from total (p ∷ ps) =
      deployed_from (add total (mul (of_ℤ (pos p.qty_open)) p.avg_entry)) ps

  abbrev pub notional : Body F → F
  notional b = mul (of_ℤ (pos b.qty)) b.limit_price

  -- `_preflight`
  unfoldable pub preflight : Flags F → List (Holding F) → Body F → Option EntryVeto
  preflight g held b =
      let effective = min_f g.broker_equity g.trading_capital in
      if g.kill_switch || g.drawdown_breaker || g.block_entries
      then some EntryVeto.entries_blocked
      else if is_lt effective (add (deployed_from zero_f held) (notional b))
      then some EntryVeto.capital_preflight
      else if is_short_intent b.side
      then if not g.shorting_enabled
        then some EntryVeto.account_no_shorting
        else if is_lt g.regt_buying_power (notional b)
        then some EntryVeto.buying_power
        else none
      else if is_lt g.settled_cash (notional b)
      then some EntryVeto.settled_cash
      else none

  -- `_open_position`
  unfoldable pub opened : Body F → BrokerOrder F → Opened F
  opened b o =
      let side = default_to Side.long b.policy_side in
      let atr = or_else b.atr_value b.atr_14 in
      let stop = entry_stop side o.filled_avg_price (mul b.initial_k atr) in
      record {
        qty = o.filled_qty;
        avg_entry = o.filled_avg_price;
        side = side;
        initial_stop = stop;
        catastrophe_stop = entry_stop side o.filled_avg_price (mul b.catastrophe_k atr);
        r_unit = r_unit side o.filled_avg_price stop;
      }

  unfoldable pub open_position : Body F → BrokerOrder F → Bool → List (Write F)
  unfolding opened
  open_position b o stop_accepted =
      let p = opened b o in
      position_opened p
      ∷ (if stop_accepted
          then stop_sent (if is_long p.side then broker_sell else broker_buy) p.qty
              p.catastrophe_stop
            ∷ stop_linked p.catastrophe_stop
            ∷ []
          else degraded ∷ [])

  -- What follows the wait.
  unfoldable pub after_wait : Body F → BrokerOrder F → Bool → List (Write F)
  unfolding open_position
  after_wait b o stop_accepted =
      order_moved o
      ∷ (if o.filled_qty == 0
          then status_set (unfilled_status o.status) ∷ []
          else fill_recorded o.filled_qty o.filled_avg_price
            ∷ status_set (if leb o.qty o.filled_qty then filled else partial)
            ∷ open_position b o stop_accepted)

  -- The end of the wait, where the fuel sufficed.
  unfoldable pub conclude_entry :
      Body F → BrokerOrder F → Bool → Option (BrokerOrder F) → Option (List (Write F))
  unfolding after_wait
  conclude_entry b order stop_accepted none = none
  conclude_entry b order stop_accepted (some o) = some (
      order_sent (broker_side (default_to buy b.side)) b.qty b.limit_price
      ∷ order_created order
      ∷ status_set submitted
      ∷ after_wait b o stop_accepted)

  -- From the broker's answer to the submission on.
  unfoldable pub submit_entry :
      ℕ → ℕ → Body F → EntryAnswers F → Option (BrokerOrder F) → Option (List (Write F))
  unfolding conclude_entry await_terminal
  submit_entry timeout sleep b a none =
      some (status_set rejected ∷ vetoed EntryVeto.broker_reject ∷ [])
  submit_entry timeout sleep b a (some order) =
      conclude_entry b order a.stop_accepted
        (await_terminal (suc timeout) timeout sleep 0 0 a.looks a.last)

  -- After the check of the capital.
  unfoldable pub checked_entry :
      ℕ → ℕ → Body F → EntryAnswers F → Option EntryVeto → Option (List (Write F))
  unfolding submit_entry
  checked_entry timeout sleep b a (some veto) = some (status_set rejected ∷ vetoed veto ∷ [])
  checked_entry timeout sleep b a none = submit_entry timeout sleep b a a.accepted

  -- `handle_intent`: its writes, `none` where the wait ran out of fuel, and its end. A malformed body
  -- and an intent that is not in the journal raise.
  unfoldable pub handle_intent :
      ℕ
      → ℕ
      → Flags F
      → List (Holding F)
      → Body F
      → EntryAnswers F
      → List (EntryRow F)
      → Option IntentStatus
      → Option (List (Write F)) × HandleEnd
  unfolding preflight checked_entry already_processed
  handle_intent timeout sleep g held b a orders none = (some [], raised)
  handle_intent timeout sleep g held b a orders (some status) =
      if b.qty == 0
      then (some [], raised)
      else if already_processed status orders
      then (some [], finished)
      else (checked_entry timeout sleep b a (preflight g held b), finished)
