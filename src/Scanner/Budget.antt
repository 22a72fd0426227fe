-- ===== src/Scanner/Budget.antt =====
-- What a scan of src/c10_scanner/service.py emits, and its budget.
use news_pipeline.Base.{
  ℕ, suc, ◌+◌, ◌≤◌, Bool, true, false, ◌||◌, ◌==◌, leb, ◌≡◌, refl, Option, none, List, [], ◌∷◌,
  length, arith, if◌then◌else◌, is_none, Bool-cases, inl, inr, ◌⊎◌, subst, sym,
}
use news_pipeline.Num.{Num}
use news_pipeline.Scanner.Types.{Metrics, ScanCfg, ScanCandidate, ScanFacts}
use news_pipeline.Scanner.{
  capped, emission_disposition, decide, emit_loop, survivors, scan_once, in_early_window,
}

if_cases :
    {A : Type 0} (b : Bool) (x y : A) → ((if b then x else y) ≡ x) ⊎ ((if b then x else y) ≡ y)
if_cases true x y = inl refl
if_cases false x y = inr refl

module _ {F : Type 0} ⦃num : Num F⦄ where
  open num use {is_lt}

  disposition-capped :
      (score : F) (m : Metrics F) (cfg : ScanCfg F) (emitted today last_hour open_scanner : ℕ)
      (etb_ok : Option Bool) (early : Bool)
      → is_none (emission_disposition score m cfg emitted today last_hour open_scanner etb_ok early)
        ≡ true
      → is_none (capped cfg emitted today last_hour open_scanner) ≡ true
  unfolding emission_disposition
  disposition-capped score m cfg emitted today last_hour open_scanner etb_ok early h =
      ground (arith, h)

  -- A candidate is emitted only if the caps have room.
  decide-capped :
      (cfg : ScanCfg F) (early : Bool) (facts : ScanFacts) (emitted : ℕ) (c : ScanCandidate F)
      → is_none (decide cfg early facts emitted c) ≡ true
      → is_none (
          capped cfg emitted
            (facts.emitted_today + emitted)
            (facts.emitted_last_hour + emitted)
            facts.open_scanner)
        ≡ true
  unfolding decide
  decide-capped cfg early facts emitted c h =
      let room =
        disposition-capped c.score c.metrics cfg emitted (facts.emitted_today + emitted)
          (facts.emitted_last_hour + emitted) facts.open_scanner in
      ground (arith, h, room none false, room c.etb_ok early)

  capped-room :
      (cfg : ScanCfg F) (emitted today last_hour open_scanner : ℕ)
      → is_none (capped cfg emitted today last_hour open_scanner) ≡ true
      → (suc emitted ≤ cfg.max_per_scan)
        × (suc today ≤ cfg.max_per_day)
        × ((cfg.max_per_hour == 0 || leb (suc last_hour) cfg.max_per_hour) ≡ true)
        × (suc open_scanner ≤ cfg.max_concurrent_positions)
  unfolding capped
  capped-room cfg emitted today last_hour open_scanner h = ground (arith, h)

  -- A count that each emission finds below its limit stays within it.
  emit_loop-within :
      (cfg : ScanCfg F) (early : Bool) (facts : ScanFacts) (base limit : ℕ)
      → ((e : ℕ) (c : ScanCandidate F)
          → is_none (decide cfg early facts e c) ≡ true
          → suc (base + e) ≤ limit)
      → (e : ℕ) (cs : List (ScanCandidate F)) → base + e ≤ limit
      → base + (e + length (emit_loop cfg early facts e cs)) ≤ limit
  unfolding emit_loop
  emit_loop-within cfg early facts base limit room e [] h = omega (arith, h)
  emit_loop-within cfg early facts base limit room e (c ∷ cs) h =
      elim (Bool-cases (is_none (decide cfg early facts e c))) [
        | inl emitted ↦ rw emitted (
            omega (
              arith,
              emit_loop-within cfg early facts base limit room (suc e) cs
                  (omega (arith, room e c emitted)),
            ))
        | inr capped_here ↦ rw capped_here (emit_loop-within cfg early facts base limit room e cs h)
      ]

  decide-room :
      (cfg : ScanCfg F) (early : Bool) (facts : ScanFacts) (e : ℕ) (c : ScanCandidate F)
      → is_none (decide cfg early facts e c) ≡ true
      → (suc e ≤ cfg.max_per_scan)
        × (suc (facts.emitted_today + e) ≤ cfg.max_per_day)
        × ((cfg.max_per_hour == 0 || leb (suc (facts.emitted_last_hour + e)) cfg.max_per_hour)
            ≡ true)
        × (suc facts.open_scanner ≤ cfg.max_concurrent_positions)
  decide-room cfg early facts e c h =
      capped-room cfg e (facts.emitted_today + e) (facts.emitted_last_hour + e) facts.open_scanner
        (decide-capped cfg early facts e c h)

  -- A scan emits nothing, or what its loop emits of the ranked survivors.
  pub scan_once-cases :
      (now_et : ℕ) (cfg : ScanCfg F) (facts : ScanFacts) (universe : List (ScanCandidate F))
      → (scan_once now_et cfg facts universe ≡ [])
        ⊎ (scan_once now_et cfg facts universe
            ≡ emit_loop cfg (in_early_window now_et cfg) facts 0 (survivors cfg universe))
  unfolding scan_once
  scan_once-cases now_et cfg facts universe = if_cases _ _ _

  hour-room :
      (cfg : ScanCfg F) (early : Bool) (facts : ScanFacts) (hour e : ℕ)
      (cs : List (ScanCandidate F))
      → cfg.max_per_hour ≤ hour
      → facts.emitted_last_hour + e ≤ hour
      → (cfg.max_per_hour ≡ 0)
        ⊎ (facts.emitted_last_hour + (e + length (emit_loop cfg early facts e cs)) ≤ hour)
  hour-room cfg early facts hour e cs h1 h0 = elim (Bool-cases (cfg.max_per_hour == 0)) [
    | inl off ↦ inl (ground (arith, off))
    | inr paced ↦ inr (
        emit_loop-within cfg early facts facts.emitted_last_hour hour
          (λ e c due. ground (arith, decide-room cfg early facts e c due, h1, paced)) e cs h0)
  ]

  -- Whatever the cap of the hour is, a scan emits no more than its own cap, and never lifts the count of
  -- the day above the larger of the cap of the day and what it was. The same holds of the hour, unless
  -- the cap of the hour is zero, which switches it off.
  pub scan_once-budget :
      (now_et : ℕ) (cfg : ScanCfg F) (facts : ScanFacts) (universe : List (ScanCandidate F))
      (day hour : ℕ)
      → facts.emitted_today ≤ day
      → cfg.max_per_day ≤ day
      → facts.emitted_last_hour ≤ hour
      → cfg.max_per_hour ≤ hour
      → let n = length (scan_once now_et cfg facts universe) in
        (n ≤ cfg.max_per_scan)
        × (facts.emitted_today + n ≤ day)
        × ((cfg.max_per_hour ≡ 0) ⊎ (facts.emitted_last_hour + n ≤ hour))
  scan_once-budget now_et cfg facts universe day hour d0 d1 h0 h1 =
      let early = in_early_window now_et cfg in
      let ranked = survivors cfg universe in
      elim (scan_once-cases now_et cfg facts universe) [
        | inl nothing ↦
            subst
              (λ es.
                (length es ≤ cfg.max_per_scan)
                × (facts.emitted_today + length es ≤ day)
                × ((cfg.max_per_hour ≡ 0) ⊎ (facts.emitted_last_hour + length es ≤ hour)))
              (sym nothing) (omega arith, omega (arith, d0), inr (omega (arith, h0)))
        | inr looped ↦
            subst
              (λ es.
                (length es ≤ cfg.max_per_scan)
                × (facts.emitted_today + length es ≤ day)
                × ((cfg.max_per_hour ≡ 0) ⊎ (facts.emitted_last_hour + length es ≤ hour)))
              (sym looped)
              (
                omega (
                  arith,
                  emit_loop-within cfg early facts 0 cfg.max_per_scan
                      (λ e c due. omega (arith, (decide-room cfg early facts e c due).0)) 0 ranked
                      (omega arith),
                ),
                omega (
                  arith,
                  emit_loop-within cfg early facts facts.emitted_today day
                      (λ e c due. omega (arith, (decide-room cfg early facts e c due).1, d1)) 0
                      ranked (omega (arith, d0)),
                ),
                elim (hour-room cfg early facts hour 0 ranked h1 (omega (arith, h0))) [
                  | inl off ↦ inl off
                  | inr paced ↦ inr (omega (arith, paced))
                ],
              )
      ]
