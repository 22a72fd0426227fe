-- ===== src/Scanner/Due.antt =====
-- Which candidates a scan of src/c10_scanner/service.py emits.
use news_pipeline.Base.{
  ℕ, suc, ◌+◌, Bool, true, false, not, ◌&&◌, ◌||◌, ◌≡◌, refl, none, List, [], ◌∷◌, All, arith,
  is_none, Bool-cases, inl, inr, subst, sym,
}
use news_pipeline.Num.{Num}
use news_pipeline.Scanner.Types.{ScanCfg, ScanCandidate, ScanFacts}
use news_pipeline.Scanner.{
  is_down, is_refused, is_restricted, emission_disposition, decide, emit_loop, insert_ranked,
  is_survivor, survivors, scan_once, in_early_window,
}
use news_pipeline.Scanner.Filter.{is_tradable, filter_candidate-pass}
use news_pipeline.Scanner.Budget.{scan_once-cases}

module _ {F : Type 0} ⦃num : Num F⦄ where
  open num use {is_lt}

  -- What the scan asks of a candidate of its own: the score, and of one that moves down, where shorts
  -- are checked, no short-sale restriction, no refusal of a loan, and that it is not the early window.
  abbrev pub may_emit : ScanCfg F → Bool → ScanCandidate F → Bool
  may_emit cfg early c =
      not (is_lt c.score cfg.min_emit_score)
      && (not (is_down c.metrics && cfg.precheck_short_availability)
          || (not (is_restricted c.metrics.move_pct cfg.ssr_trigger_pct)
              && not (is_refused c.etb_ok)
              && not early))

  disposition-may_emit :
      (cfg : ScanCfg F) (emitted today last_hour open_scanner : ℕ) (early : Bool)
      (c : ScanCandidate F)
      → is_none (
          emission_disposition c.score c.metrics cfg emitted today last_hour open_scanner c.etb_ok
            early)
        ≡ true
      → may_emit cfg early c ≡ true
  unfolding emission_disposition
  disposition-may_emit cfg emitted today last_hour open_scanner early c h = ground (arith, h)

  disposition-score :
      (cfg : ScanCfg F) (emitted today last_hour open_scanner : ℕ) (c : ScanCandidate F)
      → is_none (
          emission_disposition c.score c.metrics cfg emitted today last_hour open_scanner none
            false)
        ≡ true
      → is_lt c.score cfg.min_emit_score ≡ false
  unfolding emission_disposition
  disposition-score cfg emitted today last_hour open_scanner c h = ground (arith, h)

  decide-may_emit :
      (cfg : ScanCfg F) (early : Bool) (facts : ScanFacts) (emitted : ℕ) (c : ScanCandidate F)
      → is_none (decide cfg early facts emitted c) ≡ true
      → may_emit cfg early c ≡ true
  unfolding decide
  decide-may_emit cfg early facts emitted c h = ground (
    arith,
    h,
    disposition-score cfg emitted (facts.emitted_today + emitted)
        (facts.emitted_last_hour + emitted) facts.open_scanner c,
    disposition-may_emit cfg emitted (facts.emitted_today + emitted)
        (facts.emitted_last_hour + emitted) facts.open_scanner early c,
  )

  -- A candidate that moves up is decided without regard to the early window.
  decide-early :
      (cfg : ScanCfg F) (facts : ScanFacts) (emitted : ℕ) (c : ScanCandidate F)
      → is_down c.metrics ≡ false
      → decide cfg true facts emitted c ≡ decide cfg false facts emitted c
  unfolding decide
  decide-early cfg facts emitted c up = ground (arith, up)

  -- The early window changes nothing for candidates that move up: they are emitted in it as they are
  -- in the session.
  pub emit_loop-ignores_early :
      (cfg : ScanCfg F) (facts : ScanFacts) (emitted : ℕ) (cs : List (ScanCandidate F))
      → All (λ c. is_down (ScanCandidate.metrics c) ≡ false) cs
      → emit_loop cfg true facts emitted cs ≡ emit_loop cfg false facts emitted cs
  unfolding emit_loop
  emit_loop-ignores_early cfg facts emitted [] up = refl
  emit_loop-ignores_early cfg facts emitted (c ∷ cs) up =
      rw
        (
          decide-early cfg facts emitted c up.0,
          emit_loop-ignores_early cfg facts (suc emitted) cs up.1,
          emit_loop-ignores_early cfg facts emitted cs up.1,
        )
        refl

  insert_ranked-All :
      (P : ScanCandidate F → Type 0) (c : ScanCandidate F) (cs : List (ScanCandidate F))
      → P c
      → All P cs
      → All P (insert_ranked c cs)
  unfolding insert_ranked
  insert_ranked-All P c [] h hs = (h, tt)
  insert_ranked-All P c (d ∷ ds) h hs = elim (Bool-cases (is_lt c.score d.score)) [
    | inl later ↦ rw later (hs.0, insert_ranked-All P c ds h hs.1)
    | inr here ↦ rw here (h, hs)
  ]

  survivors-All :
      (cfg : ScanCfg F) (cs : List (ScanCandidate F))
      → All (λ c. is_survivor cfg c ≡ true) (survivors cfg cs)
  unfolding survivors
  survivors-All cfg [] = tt
  survivors-All cfg (c ∷ cs) = elim (Bool-cases (is_survivor cfg c)) [
    | inl alive ↦ rw alive (
        insert_ranked-All (λ d. is_survivor cfg d ≡ true) c (survivors cfg cs) alive
          (survivors-All cfg cs))
    | inr dropped ↦ rw dropped (survivors-All cfg cs)
  ]

  -- The scan does not pass the candidate over, it has no strong news, every condition of the filters
  -- holds, and it may be emitted.
  abbrev pub IsDue : ScanCfg F → Bool → ScanCandidate F → Type 0
  IsDue cfg early c =
      (c.passed_over ≡ false)
      × (c.strong_news ≡ false)
      × (is_tradable c.metrics cfg c.is_etf c.earnings_next_sessions ≡ true)
      × (may_emit cfg early c ≡ true)

  is_survivor-tradable :
      (cfg : ScanCfg F) (c : ScanCandidate F)
      → is_survivor cfg c ≡ true
      → (c.passed_over ≡ false)
        × (c.strong_news ≡ false)
        × (is_tradable c.metrics cfg c.is_etf c.earnings_next_sessions ≡ true)
  unfolding is_survivor
  is_survivor-tradable cfg c alive =
      let pass = filter_candidate-pass c.metrics cfg c.is_etf c.earnings_next_sessions in
      let kept = rw pass at alive in
      (ground (arith, kept), ground (arith, kept), ground (arith, kept))

  is_survivor-IsDue :
      (cfg : ScanCfg F) (early : Bool) (c : ScanCandidate F)
      → is_survivor cfg c ≡ true
      → may_emit cfg early c ≡ true
      → IsDue cfg early c
  is_survivor-IsDue cfg early c alive allowed =
      let (known, news, tradable) = is_survivor-tradable cfg c alive in
      (known, news, tradable, allowed)

  emit_loop-IsDue :
      (cfg : ScanCfg F) (early : Bool) (facts : ScanFacts) (e : ℕ) (cs : List (ScanCandidate F))
      → All (λ c. is_survivor cfg c ≡ true) cs
      → All (IsDue cfg early) (emit_loop cfg early facts e cs)
  unfolding emit_loop
  emit_loop-IsDue cfg early facts e [] h = tt
  emit_loop-IsDue cfg early facts e (c ∷ cs) h =
      elim (Bool-cases (is_none (decide cfg early facts e c))) [
        | inl emitted ↦ rw emitted (
          is_survivor-IsDue cfg early c h.0 (decide-may_emit cfg early facts e c emitted),
          emit_loop-IsDue cfg early facts (suc e) cs h.1,
        )
        | inr passed ↦ rw passed (emit_loop-IsDue cfg early facts e cs h.1)
      ]

  -- Every candidate that a scan emits is not one that the scan passes over, meets every condition of the
  -- filters, has no strong news and reaches the score. Where the configuration checks shorts
  -- (precheck_short_availability) and it moves down, it is also not under the short-sale restriction,
  -- the broker did not answer that its shares cannot be borrowed (no answer counts as none), and it is
  -- not in the early window. Nothing of that is said where the configuration does not check.
  pub scan_once-IsDue :
      (now_et : ℕ) (cfg : ScanCfg F) (facts : ScanFacts) (universe : List (ScanCandidate F))
      → All (IsDue cfg (in_early_window now_et cfg)) (scan_once now_et cfg facts universe)
  scan_once-IsDue now_et cfg facts universe =
      let early = in_early_window now_et cfg in
      elim (scan_once-cases now_et cfg facts universe) [
        | inl nothing ↦ subst (λ es. All (IsDue cfg early) es) (sym nothing) tt
        | inr looped ↦
            subst (λ es. All (IsDue cfg early) es) (sym looped)
              (emit_loop-IsDue cfg early facts 0 (survivors cfg universe)
                (survivors-All cfg universe))
      ]
