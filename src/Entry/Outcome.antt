-- ===== src/Entry/Outcome.antt =====
-- What a complete delivery of src/c4_exec/service.py leaves behind.
use news_pipeline.Base.{
  ℕ, suc, ◌≤◌, Bool, true, false, ◌==◌, leb, ◌≡◌, refl, Option, none, some, List, [], ◌∷◌, arith,
  if◌then◌else◌, default_to, is_none, Bool-cases, inl, inr,
}
use news_pipeline.Num.{or_else, Num}
use news_pipeline.Direction.{
  entry_stop, r_unit, Side, buy, broker_side, exit_intent, is_long, broker_buy, broker_sell,
}
use news_pipeline.Entry.Types.{
  IntentStatus, filled, partial, BrokerOrder, Flags, Holding, Body, Opened, EntryRow, EntryDesk,
  EntryAnswers, order_state,
}
use news_pipeline.Entry.{
  already_processed, apply_write, apply_writes, after_wait, open_position, submit_entry,
  checked_entry, conclude_entry, handle_intent, await_terminal, opened, unfilled_status,
}
use news_pipeline.Entry.Funds.{await_terminal-some, can_spend, can_spend-preflight}

exit_side :
    (s : Side) → (if is_long s then broker_sell else broker_buy) ≡ broker_side (exit_intent s)
unfolding broker_side exit_intent
exit_side Side.long = refl
exit_side Side.short = refl

found : {A : Type 0} {o : Option A} → is_none o ≡ false → (a : A) × (o ≡ some a)
found {o = none} h = absurd (ground (arith, h))
found {o = some a} h = (a, refl)

module _ {F : Type 0} ⦃num : Num F⦄ where
  -- The position that a fill makes: its stops stand off the price of the fill.
  abbrev pub off_fill : Body F → BrokerOrder F → Opened F
  off_fill b o =
      let side = default_to Side.long b.policy_side in
      let price = o.filled_avg_price in
      let stop = entry_stop side price (num.mul b.initial_k (or_else b.atr_value b.atr_14)) in
      record {
        qty = o.filled_qty;
        avg_entry = price;
        side = side;
        initial_stop = stop;
        catastrophe_stop =
            entry_stop side price (num.mul b.catastrophe_k (or_else b.atr_value b.atr_14));
        r_unit = r_unit side price stop;
      }

  -- The desk after an order that the broker took and that ended as `o`.
  abbrev pub after_entry : Body F → BrokerOrder F → BrokerOrder F → Bool → EntryDesk F → EntryDesk F
  after_entry b order o stop_accepted d =
      let row : EntryRow F = record { qty = order.qty; state = order_state o.status } in
      let tried = record d {
        orders = row ∷ d.orders;
        submissions = (broker_side (default_to buy b.side), b.qty, b.limit_price) ∷ d.submissions;
      } in
      let p = off_fill b o in
      let held = record tried {
        status = some (if leb o.qty o.filled_qty then filled else partial);
        fills = (p.qty, p.avg_entry) ∷ d.fills;
        positions = p ∷ d.positions;
      } in
      if o.filled_qty == 0
      then record tried { status = some (unfilled_status o.status) }
      else if stop_accepted
      then record held {
        stops = (broker_side (exit_intent p.side), p.qty, p.catastrophe_stop) ∷ d.stops;
        linked_stop = some p.catastrophe_stop;
      }
      else record held { is_degraded = true }

  conclude_entry-desk :
      (b : Body F) (order o : BrokerOrder F) (stop_accepted : Bool) (d : EntryDesk F)
      → apply_writes (default_to [] (conclude_entry b order stop_accepted (some o))) d
        ≡ after_entry b order o stop_accepted d
  unfolding conclude_entry after_wait open_position apply_writes apply_write opened
  conclude_entry-desk b order o true d = elim (Bool-cases (o.filled_qty == 0)) [
    | inl unfilled ↦ rw unfilled refl
    | inr some_shares ↦ rw (some_shares, exit_side (default_to Side.long b.policy_side)) refl
  ]
  conclude_entry-desk b order o false d = elim (Bool-cases (o.filled_qty == 0)) [
    | inl unfilled ↦ rw unfilled refl
    | inr some_shares ↦ rw some_shares refl
  ]

  -- A complete delivery of a well-formed, new intent that the capital covers and the broker takes ends
  -- with the last that was seen of the order: unfilled, the intent is cancelled or expired and there
  -- is no position; filled, in whole or in part, there is a position for exactly the filled shares at
  -- the filled price, with both stops computed from that price, and a stop order on the broker's side
  -- that closes it, or an alarm where the broker refuses one. The pause between two looks is positive.
  pub handle_intent-desk :
      (timeout sleep : ℕ) (g : Flags F) (held : List (Holding F)) (b : Body F) (a : EntryAnswers F)
      (order : BrokerOrder F) (status : IntentStatus) (d : EntryDesk F)
      → 1 ≤ sleep
      → (b.qty == 0) ≡ false
      → already_processed status d.orders ≡ false
      → can_spend g held b ≡ true
      → a.accepted ≡ some order
      → (o : BrokerOrder F) × (await_terminal (suc timeout) timeout sleep 0 0 a.looks a.last
          ≡ some o)
        × (apply_writes
              (default_to [] (handle_intent timeout sleep g held b a d.orders (some status)).0)
              d
            ≡ after_entry b order o a.stop_accepted d)
  unfolding handle_intent checked_entry submit_entry
  handle_intent-desk timeout sleep g held b a order status d spaced sized new funds accept =
      let (o, seen) = found (await_terminal-some timeout sleep a.looks a.last spaced) in
      (
        o,
        seen,
        rw (sized, new, can_spend-preflight g held b funds, accept, seen)
            (conclude_entry-desk b order o a.stop_accepted d),
      )
