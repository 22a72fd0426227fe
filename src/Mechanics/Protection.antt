-- ===== src/Mechanics/Protection.antt =====
-- What an exit of src/c4_exec/mechanics.py leaves behind: its rows, and the shares it leaves guarded.
use news_pipeline.Base.{
  ℕ, zero, suc, ◌+◌, ◌-◌, ◌≤◌, ◌≡◌, refl, ◌⊎◌, inl, inr, Bool, true, false, Option, none, some, ◌∷◌,
  ltb, arith, Bool-cases, Option-cases, ap, sym, ◌∙◌,
}
use news_pipeline.Num.{Num}
use news_pipeline.Exits.{Layer, Position}
use news_pipeline.Engine.{filled, reinstated, catastrophe_filled}
use news_pipeline.Mechanics.{
  Order, is_filled, RowLayer, catastrophe, synthetic, ExitRow, Desk, Submission, taken, rejected,
  submit_raised, Answers, ExitEnd, ended, raised_at, Polled, window_over, seen, poll_raised,
  record_exit, protect, poll, settle_final, cancel_exit, conclude, submit, send_exit, check_stop,
  cancel_stop, exit_from, execute_exit,
}

module _ {F : Type 0} where
  -- Polls end; and where they end with an exception one of them raised it.
  abbrev PollEnds : (ℕ → Option (Order F)) → Option (Polled F) → Type 0
  PollEnds polls none = ⊥
  PollEnds polls (some window_over) = Unit
  PollEnds polls (some (seen o)) = is_filled o.status ≡ true
  PollEnds polls (some poll_raised) = (i : ℕ) × (polls i ≡ none)

  -- Enough fuel for the window is one unit more than it is long.
  poll-ends :
      (k max_secs sleep waited n : ℕ) (polls : ℕ → Option (Order F))
      → 1 ≤ sleep
      → max_secs ≤ waited + k
      → PollEnds polls (poll (suc k) max_secs sleep waited n polls)
  unfolding poll
  poll-ends zero max_secs sleep waited n polls s h =
      let over : ltb waited max_secs ≡ false = ground (arith, h) in rw over tt
  poll-ends (suc k) max_secs sleep waited n polls s h = elim (Bool-cases (ltb waited max_secs)) [
    | inr over ↦ rw over tt
    | inl open_yet ↦ elim (Option-cases (polls n)) [
      | inl fault ↦ rw (open_yet, fault) (n, fault)
      | inr (o, found) ↦ elim (Bool-cases (is_filled o.status)) [
        | inl done ↦ rw (open_yet, found, done) done
        | inr working ↦
            rw (open_yet, found, working)
              (poll-ends k max_secs sleep (waited + sleep) (n + 1) polls s (omega arith))
      ]
    ]
  ]

  -- Where every poll shows an order that is not filled the window expires.
  abbrev pub ShowsWorking : Option (Order F) → Type 0
  ShowsWorking none = ⊥
  ShowsWorking (some o) = is_filled o.status ≡ false

  poll-expires :
      (k max_secs sleep waited n : ℕ) (polls : ℕ → Option (Order F))
      → 1 ≤ sleep
      → max_secs ≤ waited + k
      → ((i : ℕ) → ShowsWorking (polls i))
      → poll (suc k) max_secs sleep waited n polls ≡ some window_over
  unfolding poll
  poll-expires zero max_secs sleep waited n polls s h un =
      let over : ltb waited max_secs ≡ false = ground (arith, h) in rw over refl
  poll-expires (suc k) max_secs sleep waited n polls s h un =
      elim (Bool-cases (ltb waited max_secs)) [
        | inr over ↦ rw over refl
        | inl open_yet ↦ elim (Option-cases (polls n)) [
          | inl fault ↦ absurd (rw fault at (un n))
          | inr (o, found) ↦
              let working : is_filled o.status ≡ false = rw found at (un n) in
              rw (open_yet, found, working)
                (poll-expires k max_secs sleep (waited + sleep) (n + 1) polls s (omega arith) un)
        ]
      ]

  -- Where there was a stop, one that is named at its price guards every share that the broker holds.
  abbrev pub IsGuarded : Option F → Desk F → Type 0
  IsGuarded none after = Unit
  IsGuarded (some stop) after = (after.named_stop ≡ some stop) × (after.guarded ≡ some after.held)

  -- One row more than before, of the layer; its quantity is what is sold and what the broker no longer
  -- holds.
  abbrev pub HasRow : RowLayer → Desk F → Desk F → Type 0
  HasRow layer desk after =
      (row : ExitRow F) × (row.exit_layer ≡ layer)
      × (after.rows ≡ row ∷ desk.rows)
      × (after.sold ≡ desk.sold + row.qty)
      × (after.held ≡ desk.held - row.qty)

  abbrev pub SameRows : Desk F → Desk F → Type 0
  SameRows desk after =
      (after.rows ≡ desk.rows) × (after.sold ≡ desk.sold) × (after.held ≡ desk.held)

  -- Some call of the broker that the code does not guard raised.
  abbrev pub HasFault : Answers F → Type 0
  HasFault a =
      (a.stop_cancelled ≡ none)
      ⊎ (a.submission ≡ submit_raised)
      ⊎ ((i : ℕ) × (a.polls i ≡ none))
      ⊎ (a.exit_cancelled ≡ false)
      ⊎ (a.final ≡ none)
      ⊎ (a.stop_placed ≡ false)

  -- How an exit may end; `Fault` is what an exception needs.
  abbrev pub IsSettled : Layer → Type 0 → Option F → Desk F → Option (ExitEnd F) → Type 0
  IsSettled layer Fault stop desk none = ⊥
  IsSettled layer Fault stop desk (some (raised_at after)) =
      Fault × (SameRows desk after ⊎ HasRow (synthetic layer) desk after)
  IsSettled layer Fault stop desk (some (ended reinstated after)) =
      SameRows desk after × IsGuarded stop after
  IsSettled layer Fault stop desk (some (ended filled after)) =
      HasRow (synthetic layer) desk after × ((after.held ≡ 0) ⊎ IsGuarded stop after)
  IsSettled layer Fault stop desk (some (ended catastrophe_filled after)) =
      HasRow catastrophe desk after × (after.guarded ≡ none)

  -- The last look shows an order that took nothing, or it raises.
  abbrev pub TookNothing : Option (Order F) → Type 0
  TookNothing none = Unit
  TookNothing (some o) = (is_filled o.status ≡ false) × (o.filled_qty ≡ 0)

  protect-reinstated :
      (layer : Layer) (Fault : Type 0) (stop : Option F) (qty : ℕ) (placed : Bool)
      (before desk : Desk F)
      → (placed ≡ false → Fault)
      → SameRows before desk
      → desk.held ≡ qty
      → IsSettled layer Fault stop before (some (protect stop qty placed reinstated desk))
  unfolding protect
  protect-reinstated layer Fault none qty placed before desk fault same whole = (same, tt)
  protect-reinstated layer Fault (some stop) qty true before desk fault same whole =
      (same, (refl, ap (λ n. some n) (sym whole)))
  protect-reinstated layer Fault (some stop) qty false before desk fault same whole =
      (fault refl, inl same)

  protect-filled :
      (layer : Layer) (Fault : Type 0) (stop : Option F) (qty : ℕ) (placed : Bool)
      (before desk : Desk F)
      → (placed ≡ false → Fault)
      → HasRow (synthetic layer) before desk
      → desk.held ≡ qty
      → IsSettled layer Fault stop before (some (protect stop qty placed filled desk))
  unfolding protect
  protect-filled layer Fault none qty placed before desk fault row left = (row, inr tt)
  protect-filled layer Fault (some stop) qty true before desk fault row left =
      (row, inr (refl, ap (λ n. some n) (sym left)))
  protect-filled layer Fault (some stop) qty false before desk fault row left =
      (fault refl, inr row)

module _ {F : Type 0} ⦃num : Num F⦄ where
  record_exit-HasRow :
      (p : Position F) (layer : RowLayer) (o : Order F) (partial : Bool) (desk : Desk F)
      → HasRow layer desk (record_exit p layer o partial desk)
  unfolding record_exit
  record_exit-HasRow p layer o partial desk = (_, refl, refl, refl, refl)

  record_exit-held :
      (p : Position F) (layer : RowLayer) (o : Order F) (partial : Bool) (desk : Desk F)
      → (record_exit p layer o partial desk).held ≡ desk.held - o.filled_qty
  unfolding record_exit
  record_exit-held p layer o partial desk = refl

module _ {F : Type 0} ⦃num : Num F⦄ (p : Position F) (qty : ℕ) (layer : Layer) (a : Answers F)
    (late : TookNothing a.final) where
  settle_final-IsSettled :
      (stop : Option F) (desk : Desk F) (final : Option (Order F))
      → a.final ≡ final
      → desk.held ≡ p.qty_open
      → TookNothing final
      → IsSettled layer
          (HasFault a)
          stop
          desk
          (some (settle_final p qty layer a.stop_placed stop desk final))
  unfolding settle_final
  settle_final-IsSettled stop desk none e whole nothing =
      (inr (inr (inr (inr (inl e)))), inl (refl, refl, refl))
  settle_final-IsSettled stop desk (some o) e whole (working, nothing) =
      let same : desk.held - o.filled_qty ≡ desk.held = omega (arith, nothing) in
      rw working (
        protect-reinstated layer (HasFault a) stop p.qty_open a.stop_placed desk
          (record desk { held = desk.held - o.filled_qty })
          (λ fault. inr (inr (inr (inr (inr fault))))) (refl, refl, same) (same ∙ whole))

  cancel_exit-IsSettled :
      (stop : Option F) (desk : Desk F) (cancelled : Bool)
      → a.exit_cancelled ≡ cancelled
      → desk.held ≡ p.qty_open
      → IsSettled layer
          (HasFault a)
          stop
          desk
          (some (cancel_exit p qty layer a.stop_placed stop desk a.final cancelled))
  unfolding cancel_exit
  cancel_exit-IsSettled stop desk true e whole =
      settle_final-IsSettled stop desk a.final refl whole late
  cancel_exit-IsSettled stop desk false e whole = (inr (inr (inr (inl e))), inl (refl, refl, refl))

  conclude-IsSettled :
      (stop : Option F) (desk : Desk F) (polled : Option (Polled F))
      → desk.held ≡ p.qty_open
      → PollEnds a.polls polled
      → IsSettled layer (HasFault a) stop desk (conclude p qty layer a stop desk polled)
  unfolding conclude
  conclude-IsSettled stop desk none whole h = h
  conclude-IsSettled stop desk (some poll_raised) whole h =
      (inr (inr (inl h)), inl (refl, refl, refl))
  conclude-IsSettled stop desk (some window_over) whole h =
      cancel_exit-IsSettled stop desk a.exit_cancelled refl whole
  conclude-IsSettled stop desk (some (seen o)) whole h =
      let row = record_exit-HasRow p (synthetic layer) o (ltb qty p.qty_open) desk in
      let left = record_exit-held p (synthetic layer) o (ltb qty p.qty_open) desk in
      elim (Bool-cases (ltb o.filled_qty p.qty_open)) [
        | inl part ↦ rw part (
            protect-filled layer (HasFault a) stop (p.qty_open - o.filled_qty) a.stop_placed desk _
              (λ fault. inr (inr (inr (inr (inr fault))))) row
              (left ∙ ap (λ n. n - o.filled_qty) whole))
        | inr sold_out ↦
            let gone : desk.held - o.filled_qty ≡ 0 = ground (arith, sold_out, whole) in
            rw sold_out (row, inl (left ∙ gone))
      ]

  module _ (max_secs sleep : ℕ) (spaced : 1 ≤ sleep) where
    submit-IsSettled :
        (stop : Option F) (desk : Desk F) (s : Submission)
        → a.submission ≡ s
        → desk.held ≡ p.qty_open
        → IsSettled layer (HasFault a) stop desk (submit p qty layer max_secs sleep a stop desk s)
    unfolding submit
    submit-IsSettled stop desk rejected e whole =
        protect-reinstated layer (HasFault a) stop p.qty_open a.stop_placed desk desk
          (λ fault. inr (inr (inr (inr (inr fault))))) (refl, refl, refl) whole
    submit-IsSettled stop desk submit_raised e whole = (inr (inl e), inl (refl, refl, refl))
    submit-IsSettled stop desk taken e whole =
        conclude-IsSettled stop desk (poll (suc max_secs) max_secs sleep 0 0 a.polls) whole
          (poll-ends max_secs max_secs sleep 0 0 a.polls spaced (omega arith))

    send_exit-IsSettled :
        (stop : Option F) (desk : Desk F)
        → desk.held ≡ p.qty_open
        → IsSettled layer (HasFault a) stop desk (send_exit p qty layer max_secs sleep a stop desk)
    unfolding send_exit
    send_exit-IsSettled stop desk whole = submit-IsSettled stop desk a.submission refl whole

    check_stop-IsSettled :
        (stop : F) (desk : Desk F) (looked : Option (Order F))
        → desk.held ≡ p.qty_open
        → IsSettled layer
            (HasFault a)
            (some stop)
            desk
            (check_stop p qty layer max_secs sleep a stop desk looked)
    unfolding check_stop record_exit
    check_stop-IsSettled stop desk none whole = send_exit-IsSettled (some stop) desk whole
    check_stop-IsSettled stop desk (some o) whole = elim (Bool-cases (is_filled o.status)) [
      | inl gone ↦ rw gone ((_, refl, refl, refl, refl), refl)
      | inr live ↦ rw live (send_exit-IsSettled (some stop) desk whole)
    ]

    cancel_stop-IsSettled :
        (stop : F) (desk : Desk F) (cancelled : Option Bool)
        → a.stop_cancelled ≡ cancelled
        → desk.held ≡ p.qty_open
        → IsSettled layer
            (HasFault a)
            (some stop)
            desk
            (cancel_stop p qty layer max_secs sleep a stop desk cancelled)
    unfolding cancel_stop
    cancel_stop-IsSettled stop desk none e whole = (inl e, inl (refl, refl, refl))
    cancel_stop-IsSettled stop desk (some true) e whole =
        send_exit-IsSettled (some stop) (record desk { guarded = none }) whole
    cancel_stop-IsSettled stop desk (some false) e whole =
        check_stop-IsSettled stop desk a.stop_order whole

    exit_from-IsSettled :
        (desk : Desk F) (named : Option F)
        → desk.held ≡ p.qty_open
        → IsSettled layer
            (HasFault a)
            named
            desk
            (exit_from p qty layer max_secs sleep a desk named)
    exit_from-IsSettled desk none whole = send_exit-IsSettled none desk whole
    exit_from-IsSettled desk (some stop) whole =
        cancel_stop-IsSettled stop desk a.stop_cancelled refl whole

module _ {F : Type 0} ⦃num : Num F⦄ where
  -- Assumed are polls at least a second apart, a broker that holds the open quantity at the start, and
  -- that the last look at an exit whose window is over, if there is one, shows an order that took
  -- nothing. Then an exit always ends. It ends with an exception only where a call of the broker raised
  -- that the code does not guard (the cancel of the stop, the submission, a poll, the cancel of the exit
  -- or the look after it, a new stop), with at most one row added. A reinstated exit adds no row, and a
  -- filled one adds one row of its layer; where the position named a stop, a stop at the same price then
  -- guards exactly the shares that are left, if any are. A catastrophe fill adds one row of its own
  -- layer, and no stop is left.
  pub execute_exit-IsSettled :
      (p : Position F) (qty : ℕ) (layer : Layer) (max_secs sleep : ℕ) (a : Answers F)
      (desk : Desk F)
      → 1 ≤ sleep
      → desk.held ≡ p.qty_open
      → TookNothing a.final
      → IsSettled layer
          (HasFault a)
          desk.named_stop
          desk
          (execute_exit p qty layer max_secs sleep a desk)
  unfolding execute_exit
  execute_exit-IsSettled p qty layer max_secs sleep a desk s whole late =
      exit_from-IsSettled p qty layer a late max_secs sleep s desk desk.named_stop whole

  -- The race with the cancel. Polls are at least a second apart; the position names a stop, which was
  -- cancelled; the broker took the exit; every poll shows it working; its cancel is answered, and the
  -- look after it shows it filled. Then the exit counts as filled and its quantity is recorded, and
  -- whatever the broker would say to a new stop, none guards what is left.
  pub execute_exit-raced :
      (p : Position F) (qty : ℕ) (layer : Layer) (max_secs sleep : ℕ) (a : Answers F)
      (desk : Desk F) (stop : F) (o : Order F)
      → 1 ≤ sleep
      → desk.named_stop ≡ some stop
      → a.stop_cancelled ≡ some true
      → a.submission ≡ taken
      → ((i : ℕ) → ShowsWorking (a.polls i))
      → a.exit_cancelled ≡ true
      → a.final ≡ some o
      → is_filled o.status ≡ true
      → (after : Desk F) × (execute_exit p qty layer max_secs sleep a desk
          ≡ some (ended filled after))
        × (after.sold ≡ desk.sold + o.filled_qty)
        × (after.guarded ≡ none)
  unfolding execute_exit cancel_stop send_exit submit conclude cancel_exit settle_final record_exit
  execute_exit-raced p qty layer max_secs sleep a desk stop o s named off sent un cancelled last
        raced =
      let over = poll-expires max_secs max_secs sleep 0 0 a.polls s (omega arith) un in
      (
        record_exit p (synthetic layer) o (ltb qty p.qty_open) (record desk { guarded = none }),
        ground (arith, named, off, sent, over, cancelled, last, raced),
        refl,
        refl,
      )
