-- ===== src/Examples/Intents.antt =====
-- The theorems on the entry service, at one intent for ten shares.
use news_pipeline.Base.{
  ◌≡◌, refl, ◌==◌, true, false, not, ◌&&◌, none, some, List, [], ◌∷◌, default_to, is_none, arith,
}
use news_pipeline.Num.Fixed.{Fixed, fixed_num}
use news_pipeline.Direction.{Side, buy}
use news_pipeline.Entry.Types.{
  pending, BrokerStatus, BrokerOrder, Flags, Holding, Body, EntryDesk, EntryAnswers,
}
use news_pipeline.Entry.{apply_writes, handle_intent, await_terminal}
use news_pipeline.Entry.Single.{Delivery, IsSingle, deliver_all, deliver_all-IsSingle}
use news_pipeline.Entry.Funds.{sends, is_new, can_spend, handle_intent-sends}
use news_pipeline.Entry.Outcome.{after_entry, handle_intent-desk}
use news_pipeline.Examples.Samples.{cents}

abbrev body : Body Fixed
body = record {
  qty = 10;
  limit_price = cents 1000;
  side = some buy;
  policy_side = some Side.long;
  atr_value = none;
  atr_14 = cents 50;
  initial_k = cents 200;
  catastrophe_k = cents 400;
}

abbrev flags : Flags Fixed
flags = record {
  kill_switch = false;
  drawdown_breaker = false;
  block_entries = false;
  broker_equity = cents 10000000;
  trading_capital = cents 5000000;
  settled_cash = cents 5000000;
  shorting_enabled = false;
  regt_buying_power = cents 0;
}

abbrev others : List (Holding Fixed)
others = record { qty_open = 100; avg_entry = cents 2000 } ∷ []

abbrev taken : BrokerOrder Fixed
taken = record {
  qty = 10;
  status = BrokerStatus.accepted;
  filled_qty = 0;
  filled_avg_price = cents 0;
}

abbrev part : BrokerOrder Fixed
part = record taken { status = BrokerStatus.canceled; filled_qty = 6; filled_avg_price = cents 999 }

-- Nothing for two looks; six shares filled when the order is cancelled.
abbrev answers : EntryAnswers Fixed
answers = record { accepted = some taken; looks = λ n. taken; last = part; stop_accepted = true }

abbrev new_desk : EntryDesk Fixed
new_desk = record {
  status = some pending;
  orders = [];
  fills = [];
  positions = [];
  vetoes = [];
  submissions = [];
  stops = [];
  linked_stop = none;
  is_degraded = false;
}

-- A delivery that dies after three writes, and a whole one.
abbrev deliveries : List (Delivery Fixed)
deliveries =
    record { flags = flags; held = others; answers = answers; survives = 3 }
    ∷ record { flags = flags; held = others; answers = answers; survives = 9 }
    ∷ []

deliver_all-IsSingle_example : IsSingle (deliver_all 4 2 body deliveries new_desk)
deliver_all-IsSingle_example =
    deliver_all-IsSingle 4 2 body deliveries new_desk (omega arith, omega arith)

handle_intent-sends_example :
    sends (handle_intent 4 2 flags others body answers [] (some pending)).0 ≡ (
      not (10 == 0)
      && is_new {F = Fixed} (some pending) []
      && can_spend flags others body
      && not (is_none (some taken)))
handle_intent-sends_example =
    handle_intent-sends 4 2 flags others body answers [] (some pending) (omega arith)

handle_intent-desk_example :
    (o : BrokerOrder Fixed) × (await_terminal 5 4 2 0 0 answers.looks part ≡ some o)
    × (apply_writes
          (default_to [] (handle_intent 4 2 flags others body answers [] (some pending)).0)
          new_desk
        ≡ after_entry body taken o true new_desk)
unfolding news_pipeline.Entry.already_processed
handle_intent-desk_example =
    handle_intent-desk 4 2 flags others body answers taken pending new_desk (omega arith) refl refl
      refl refl
