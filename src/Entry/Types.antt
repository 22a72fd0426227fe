-- ===== src/Entry/Types.antt =====
-- The data of src/c4_exec/service.py: intents, the broker's orders (src/common/broker.py), the flags of
-- `journal.control` that an entry reads, and the rows that a delivery writes.
use news_pipeline.Base.{ℕ, Bool, true, false, Option, List}
use news_pipeline.Direction.{Side, Intent, BrokerSide}

-- `journal.intents.status`
pub data IntentStatus : Type 0 where
  pending submitted rejected filled partial cancelled expired : IntentStatus

-- `BrokerOrder.status`; the code takes `new`, and any other text, as it takes `accepted`.
pub data BrokerStatus : Type 0 where
  accepted partially_filled filled canceled rejected expired : BrokerStatus

-- `journal.orders.state`
pub data OrderState : Type 0 where
  accepted partial filled cancelled rejected expired : OrderState

-- `BROKER_STATE` of state.py
abbrev pub order_state : BrokerStatus → OrderState
order_state BrokerStatus.accepted = OrderState.accepted
order_state BrokerStatus.partially_filled = OrderState.partial
order_state BrokerStatus.filled = OrderState.filled
order_state BrokerStatus.canceled = OrderState.cancelled
order_state BrokerStatus.rejected = OrderState.rejected
order_state BrokerStatus.expired = OrderState.expired

-- `BrokerOrder.terminal`
abbrev pub is_terminal : BrokerStatus → Bool
is_terminal BrokerStatus.accepted = false
is_terminal BrokerStatus.partially_filled = false
is_terminal BrokerStatus.filled = true
is_terminal BrokerStatus.canceled = true
is_terminal BrokerStatus.rejected = true
is_terminal BrokerStatus.expired = true

-- An order as the broker shows it. A price comes with every fill.
pub record BrokerOrder (F : Type 0) : Type 0 where
  pub qty : ℕ
  pub status : BrokerStatus
  pub filled_qty : ℕ
  pub filled_avg_price : F

-- The answers of `_preflight`, and the broker's own.
pub data EntryVeto : Type 0 where
  entries_blocked capital_preflight account_no_shorting : EntryVeto
  buying_power settled_cash broker_reject : EntryVeto

-- The keys of `journal.control` that `_preflight` reads; a missing number is zero.
pub record Flags (F : Type 0) : Type 0 where
  pub kill_switch : Bool
  pub drawdown_breaker : Bool
  pub block_entries : Bool
  pub broker_equity : F
  pub trading_capital : F
  pub settled_cash : F
  pub shorting_enabled : Bool
  pub regt_buying_power : F

-- An open position, as the capital check reads it.
pub record Holding (F : Type 0) : Type 0 where
  pub qty_open : ℕ
  pub avg_entry : F

-- The body of the message, with what the entry reads of its exit policy.
pub record Body (F : Type 0) : Type 0 where
  pub qty : ℕ
  pub limit_price : F
  pub side : Option Intent
  pub policy_side : Option Side
  pub atr_value : Option F
  pub atr_14 : F
  pub initial_k : F
  pub catastrophe_k : F

-- The row of a new position.
pub record Opened (F : Type 0) : Type 0 where
  pub qty : ℕ
  pub avg_entry : F
  pub side : Side
  pub initial_stop : F
  pub catastrophe_stop : F
  pub r_unit : F

pub record EntryRow (F : Type 0) : Type 0 where
  pub qty : ℕ
  pub state : OrderState

-- What a delivery does outside, in its order.
pub data Write (F : Type 0) : Type 0 where
  order_sent : BrokerSide → ℕ → F → Write F
  order_created : BrokerOrder F → Write F
  status_set : IntentStatus → Write F
  order_moved : BrokerOrder F → Write F
  fill_recorded : ℕ → F → Write F
  position_opened : Opened F → Write F
  vetoed : EntryVeto → Write F
  stop_sent : BrokerSide → ℕ → F → Write F
  stop_linked : F → Write F
  degraded : Write F

-- What there is of an intent: its row, its entry orders, fills, positions and decisions in the
-- journal, newest first, and what the broker was sent.
pub record EntryDesk (F : Type 0) : Type 0 where
  pub status : Option IntentStatus
  pub orders : List (EntryRow F)
  pub fills : List (ℕ × F)
  pub positions : List (Opened F)
  pub vetoes : List EntryVeto
  pub submissions : List (BrokerSide × ℕ × F)
  pub stops : List (BrokerSide × ℕ × F)
  pub linked_stop : Option F
  pub is_degraded : Bool

-- What the broker answers in a delivery: the order it accepts (`none` is a reject), each look at it,
-- the look after a cancel, and whether it takes the catastrophe stop.
pub record EntryAnswers (F : Type 0) : Type 0 where
  pub accepted : Option (BrokerOrder F)
  pub looks : ℕ → BrokerOrder F
  pub last : BrokerOrder F
  pub stop_accepted : Bool

-- A delivery raises, or returns.
pub data HandleEnd : Type 0 where
  raised finished : HandleEnd
