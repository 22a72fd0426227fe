-- ===== src/Lib.antt =====
-- The news pipeline reads news, decides which of it may move a stock, and trades on it under fixed
-- rules. Items are stored in revisions and queued (src/c1_ingestion/store.py, src/common/queue.py); a
-- triaged signal is routed to the queues of the agents (src/router/rules.py); the confirmation gate
-- passes or vetoes a thesis on live prices (src/c3_gate/rules.py); the risk agent sizes the entry
-- (src/a3_risk/sizing.py); and the exit engine looks at every minute bar of an open position
-- (src/c4_exec/engine.py), with its monitors (src/common/invalidation_dsl.py) and its exit layers
-- (src/c4_exec/exits.py). A scanner of movers feeds the same path (src/c10_scanner/), a detector of
-- bursts keeps a book of trades (src/c12_burst/book.py). Before triage, copies of a story are joined in
-- clusters (src/c2_dedup/) and repeats are suppressed (src/a1_triage/suppression.py); a nightly plan
-- enters on standing theses (src/c11_thesis/service.py); a watchdog reports what is down
-- (src/c7_watchdog/service.py); and the execution service enters, reconciles with the
-- broker and watches the heartbeats (src/c4_exec/). Long and short go through one module of signs
-- (src/common/direction.py).
--
-- The files:
--   Base, Base/Lists, Base/Int, Base/Div, Base/Tests: names of the library, Boolean tests, integers over the
--     native numbers.
--   Num: the operations on floats that the code uses, as a record `Num`, and the laws of floats that
--     some theorems need, as `IsFloat`: an order with strict and weak tests, monotone subtraction,
--     rounding and floor, and exact multiplication by one and minus one. Each such theorem takes the
--     laws as an argument. NaN is outside the laws.
--   Num/Fixed, Num/Fixed/Laws: decimal fixed point with four digits, a carrier that has the laws and
--     runs the examples.
--   Direction, Direction/Laws: src/common/direction.py, one function each.
--   Exits, Exits/Priority, Exits/Ratchet: `evaluate_on_bar` of src/c4_exec/exits.py. A position's
--     `exit_policy` is a record with an option where the code tests for a missing key.
--   Engine with Stops, ScaleOut, Halts: `step`, `_apply`, `_ratchet`, `_tighten_from_fire` and
--     `check_halt` of src/c4_exec/engine.py. What `execute_exit` answers is an argument; the policy that the actions
--     leave behind is the state.
--   Mechanics, Mechanics/Protection: `execute_exit` of src/c4_exec/mechanics.py, with the row that
--     `record_exit` of src/c4_exec/state.py writes. The broker's answers are a record with one field
--     for each call, its exceptions included; the state is what the journal and the broker hold of
--     the position. The database does not fail.
--   Invalidation with Types, Compile, Compile/Sound, Monitor, Mixed: src/common/invalidation_dsl.py.
--   Gate with Types, Verdicts, Quote, Shadow, Credibility: src/c3_gate/rules.py.
--   Sizing with Types, Vetoes, Clips: src/a3_risk/sizing.py. An exception of a division by zero is
--     `none`.
--   Router, Router/Routes: src/router/rules.py and `priority_score` of src/router/facts.py.
--   Queue, Queue/Order, Queue/Keys: src/common/queue.py over schema/news-store-schema.sql. A
--     transaction is one step; rows that another claim has locked are not in the table it reads.
--   Store, Store/Revisions: `store_item` of src/c1_ingestion/store.py.
--   Breaker, Breaker/Resets, Breaker/Day: src/c4_exec/breaker.py over the audit rows that it writes;
--     the date of an instant in Chicago is an argument, since the time zones are not part of the
--     repository.
--   Deadman, Deadman/Ownership, Deadman/Report: `check` of src/c4_exec/deadman.py over the flags of
--     `journal.control`; the heartbeat ages are a function, and a write of the operator is an event of
--     its own.
--   Reconcile with Dict, Backed, Distinct, Converge, Refill: `reconcile` of src/c4_exec/reconcile.py over the rows
--     of `journal.positions`, with `_catastrophe_fill` and the update of `record_exit`. The broker's
--     positions and what it says of the stop orders are arguments.
--   Entry with Types, Single, Outcome, Funds: `handle_intent` of src/c4_exec/service.py with
--     `_already_processed`, `_preflight`, `_await_terminal` and `_open_position`. A delivery is the list
--     of its writes, so that one that dies has done a prefix of them.
--   Passes with Types, Promotion, Close: the passes of src/c4_exec/engine.py over the open positions
--     (force-flat, guard, open exit, overnight, promotion), `effective_policy`, and the rule of
--     src/c4_exec/overnight.py.
--   Scanner with Types, Filter, Budget, Due: src/c10_scanner/rules.py and the loop of `scan_once` in
--     src/c10_scanner/service.py. The measurements, scores and loans of a scan's names are its input.
--   Gaps, Gaps/Tracking: `GapMonitor` of src/c1_ingestion/heartbeat.py.
--   Book with Keys, Order, Reads: `SymbolBook` of src/c12_burst/book.py, its buckets as a list in the
--     order of the dictionary.
--   Recheck, Recheck/Schedule: the schedule of the gate, in src/c3_gate/service.py. Its verdict at a
--     time is an argument.
--   Watchdog with Types, Freshness, Healthy, Alerts, Alerted, Recovery: a pass of
--     src/c7_watchdog/service.py over src/common/health.py. What systemd answers and the ages of the
--     health rows are arguments; the memory in `journal.control` is the state.
--   Stories with Partition, Joined, Redelivery: src/c2_dedup/cluster.py and `handle_message` of
--     src/c2_dedup/service.py. The answers of the vector store are arguments of a delivery.
--   Suppression, Suppression/Once: src/a1_triage/suppression.py with `_suppress_repeat` and `handle` of
--     src/a1_triage/service.py.
--   Thesis with Measures, Caps, Management: src/c11_thesis/service.py.
--   Burst, Burst/Spaced: src/c12_burst/detect.py with `vol_mult` and `extreme` of the book.
--   Preclose with Foretold, Closes: `arm`, `preclose_invalidation_pass` and `session_close_pass` of
--     src/c4_exec/engine.py, over the monitors of Invalidation and the exit of Mechanics.
--   Guard with Verdicts, Once: `handle` of src/a12_guard/service.py with src/a12_guard/schema.py and
--     src/a12_guard/auto.py. The parsed answers of the model are arguments of a delivery.
--   Examples: concrete inputs, and each theorem that has hypotheses at one of them.
--
-- The polls of an exit and the looks at an entry run on fuel, one more than the window is long, which
-- is enough where they are at least a second apart; the looks of the gate's schedule on one more than
-- the seconds that its window and the deferral leave. Every other recursion is on a list.
-- Not modelled: texts for the journal and the dicts of numbers that verdicts carry, SQL and network
-- calls, prompts and models, the counterfactual and reporting agents, the news sources, and the regular
-- expression of `catalyst_class`.
pub mod Base
pub mod Num
pub mod Direction
pub mod Exits
pub mod Engine
pub mod Router
pub mod Gate
pub mod Sizing
pub mod Invalidation
pub mod Queue
pub mod Store
pub mod Mechanics
pub mod Breaker
pub mod Deadman
pub mod Reconcile
pub mod Entry
pub mod Passes
pub mod Scanner
pub mod Gaps
pub mod Book
pub mod Recheck
pub mod Watchdog
pub mod Stories
pub mod Suppression
pub mod Thesis
pub mod Burst
pub mod Preclose
pub mod Guard
mod Examples
