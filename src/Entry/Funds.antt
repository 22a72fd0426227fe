-- ===== src/Entry/Funds.antt =====
-- When src/c4_exec/service.py sends an entry order to the broker.
use news_pipeline.Base.{
  ℕ, zero, suc, ◌+◌, ◌≤◌, ◌<◌, Bool, true, false, not, ◌&&◌, ◌||◌, ◌==◌, leb, ◌≡◌, refl, Option,
  none, some, List, arith, if◌then◌else◌, any, is_none, Bool-cases, Option-cases, inl, inr,
}
use news_pipeline.Num.{Num, zero_f, min_f}
use news_pipeline.Entry.Types.{
  IntentStatus, BrokerOrder, Flags, Holding, Body, EntryRow, Write, order_sent, order_created,
  status_set, order_moved, fill_recorded, position_opened, vetoed, stop_sent, stop_linked, degraded,
  EntryAnswers, EntryVeto,
}
use news_pipeline.Entry.{
  already_processed, preflight, submit_entry, checked_entry, conclude_entry, handle_intent,
  await_terminal, deployed_from, notional, is_short_intent,
}

module _ {F : Type 0} where
  await_terminal-Returns :
      (fuel timeout sleep waited n : ℕ) (looks : ℕ → BrokerOrder F) (last : BrokerOrder F)
      → 1 ≤ sleep
      → 1 ≤ fuel
      → timeout < fuel + waited
      → is_none (await_terminal fuel timeout sleep waited n looks last) ≡ false
  unfolding await_terminal
  await_terminal-Returns zero timeout sleep waited n looks last spaced fuelled enough =
      absurd (omega (arith, fuelled))
  await_terminal-Returns (suc fuel) timeout sleep waited n looks last spaced fuelled enough =
      elim (Bool-cases (leb timeout waited)) [
        | inl over ↦ ground (arith, over)
        | inr within ↦ ground (
          arith,
          await_terminal-Returns fuel timeout sleep (waited + sleep) (suc n) looks last spaced
              (ground (arith, within, enough)) (ground (arith, spaced, enough)),
        )
      ]

  -- An answer of the wait is there.
  pub await_terminal-some :
      (timeout sleep : ℕ) (looks : ℕ → BrokerOrder F) (last : BrokerOrder F)
      → 1 ≤ sleep
      → is_none (await_terminal (suc timeout) timeout sleep 0 0 looks last) ≡ false
  await_terminal-some timeout sleep looks last spaced =
      await_terminal-Returns (suc timeout) timeout sleep 0 0 looks last spaced (omega arith)
        (omega arith)

  abbrev pub is_sent : Write F → Bool
  is_sent (order_sent side qty price) = true
  is_sent (order_created o) = false
  is_sent (position_opened p) = false
  is_sent (status_set status) = false
  is_sent (order_moved o) = false
  is_sent (fill_recorded qty price) = false
  is_sent (vetoed why) = false
  is_sent (stop_sent side qty price) = false
  is_sent (stop_linked price) = false
  is_sent degraded = false

module _ {F : Type 0} ⦃num : Num F⦄ where
  open num use {add, is_lt}

  -- Entries are allowed, the capital covers what is deployed and the order, and the account can pay
  -- it: a long from settled cash, a short from buying power and with leave to short.
  abbrev pub can_spend : Flags F → List (Holding F) → Body F → Bool
  can_spend g held b =
      let effective = min_f g.broker_equity g.trading_capital in
      not (g.kill_switch || g.drawdown_breaker || g.block_entries)
      && not (is_lt effective (add (deployed_from zero_f held) (notional b)))
      && (if is_short_intent b.side
          then g.shorting_enabled && not (is_lt g.regt_buying_power (notional b))
          else not (is_lt g.settled_cash (notional b)))

  preflight-is_none :
      (g : Flags F) (held : List (Holding F)) (b : Body F)
      → is_none (preflight g held b) ≡ can_spend g held b
  unfolding preflight
  preflight-is_none g held b = ground arith

  pub can_spend-preflight :
      (g : Flags F) (held : List (Holding F)) (b : Body F)
      → can_spend g held b ≡ true
      → preflight g held b ≡ none
  can_spend-preflight g held b funds = ground (arith, funds, preflight-is_none g held b)

  abbrev pub sends : Option (List (Write F)) → Bool
  sends none = false
  sends (some ws) = any is_sent ws

  conclude_entry-sends :
      (b : Body F) (order : BrokerOrder F) (stop_accepted : Bool) (seen : Option (BrokerOrder F))
      → sends (conclude_entry b order stop_accepted seen) ≡ not (is_none seen)
  unfolding conclude_entry
  conclude_entry-sends b order stop_accepted none = refl
  conclude_entry-sends b order stop_accepted (some o) = refl

  checked_entry-sends :
      (timeout sleep : ℕ) (b : Body F) (a : EntryAnswers F) (veto : Option EntryVeto)
      → 1 ≤ sleep
      → sends (checked_entry timeout sleep b a veto) ≡ (is_none veto && not (is_none a.accepted))
  unfolding checked_entry submit_entry
  checked_entry-sends timeout sleep b a (some veto) spaced = refl
  checked_entry-sends timeout sleep b a none spaced = elim (Option-cases a.accepted) [
    | inl reject ↦ rw reject refl
    | inr (order, accept) ↦
        rw
          (
            accept,
            conclude_entry-sends b order a.stop_accepted
                (await_terminal (suc timeout) timeout sleep 0 0 a.looks a.last),
            await_terminal-some timeout sleep a.looks a.last spaced,
          )
          refl
  ]

  abbrev pub is_new : Option IntentStatus → List (EntryRow F) → Bool
  is_new none orders = false
  is_new (some status) orders = not (already_processed status orders)

  -- An order goes out exactly for a well-formed intent that is in the journal and was not processed,
  -- where entries are allowed, the capital covers the order and what is deployed, the account can pay
  -- for it, and the broker takes it. The pause between two looks is positive.
  pub handle_intent-sends :
      (timeout sleep : ℕ) (g : Flags F) (held : List (Holding F)) (b : Body F) (a : EntryAnswers F)
      (orders : List (EntryRow F)) (status : Option IntentStatus)
      → 1 ≤ sleep
      → sends (handle_intent timeout sleep g held b a orders status).0 ≡ (
          not (b.qty == 0)
          && is_new status orders
          && can_spend g held b
          && not (is_none a.accepted))
  unfolding handle_intent
  handle_intent-sends timeout sleep g held b a orders none spaced = ground arith
  handle_intent-sends timeout sleep g held b a orders (some status) spaced = ground (
    arith,
    checked_entry-sends timeout sleep b a (preflight g held b) spaced,
    preflight-is_none g held b,
  )
