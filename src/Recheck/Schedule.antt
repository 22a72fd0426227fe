-- ===== src/Recheck/Schedule.antt =====
-- That the looks of the gate of src/c3_gate/service.py end, and where they fall.
use news_pipeline.Base.{
  ℕ, zero, suc, ◌+◌, ◌-◌, ◌≤◌, ◌<◌, Bool, false, leb, ◌≡◌, refl, Option, none, some, List, arith,
  is_none, Bool-cases, Option-cases, inl, inr,
}
use news_pipeline.Recheck.{
  RecheckCfg, min_ℕ, max_ℕ, bars_mature_ts, defer_delay, recheck_delay, noted, evaluations,
}

abbrev pub window_end : ℕ → RecheckCfg → ℕ
window_end published_ts cfg = published_ts + cfg.intraday_window_secs

-- What a deferral says: the window is not mature, and the delay is five seconds at least.
abbrev IsDeferral : ℕ → ℕ → Option ℕ → Type 0
IsDeferral mature now none = mature ≤ now
IsDeferral mature now (some d) = (now < mature) × (5 ≤ d)

clamped : (a : ℕ) → 5 ≤ min_ℕ (max_ℕ a 5) 300
clamped a = ground arith

-- The next look is five seconds off at least, and less than five seconds beyond what is left.
bounded_step :
    (step left : ℕ)
    → 1 ≤ left
    → (5 ≤ min_ℕ (max_ℕ step 5) (max_ℕ left 5)) × (min_ℕ (max_ℕ step 5) (max_ℕ left 5) < left + 5)
bounded_step step left some_left = ground (arith, some_left)

defer_delay-IsDeferral :
    (published_ts now bars : ℕ)
    → IsDeferral (bars_mature_ts published_ts bars) now (defer_delay published_ts now bars)
unfolding defer_delay
defer_delay-IsDeferral published_ts now bars =
    let mature = bars_mature_ts published_ts bars in
    elim (Bool-cases (leb mature now)) [
      | inl ripe ↦ rw ripe (ground (arith, ripe))
      | inr early ↦ rw early (ground (arith, early), clamped ((mature - now) + 1))
    ]

-- What a re-check says: the window is open, the delay is five seconds at least, and the next look
-- falls less than five seconds after the end of the window without its margin.
abbrev IsRecheck : ℕ → ℕ → ℕ → Option ℕ → Type 0
IsRecheck end margin now none = Unit
IsRecheck end margin now (some d) = (now < end) × (5 ≤ d) × ((now + d) + margin < end + 5)

recheck_delay-IsRecheck :
    (published_ts now : ℕ) (cfg : RecheckCfg)
    → IsRecheck
        (window_end published_ts cfg)
        cfg.confirm_final_margin_secs
        now
        (recheck_delay published_ts now cfg)
unfolding recheck_delay
recheck_delay-IsRecheck published_ts now cfg =
    let remaining = window_end published_ts cfg - now in
    let margin = cfg.confirm_final_margin_secs in
    elim (Bool-cases (leb remaining margin)) [
      | inl over ↦ rw over tt
      | inr open_still ↦
          let more : margin < remaining = ground (arith, open_still) in
          let bounds =
            bounded_step cfg.confirm_recheck_secs (remaining - margin) (omega (arith, more)) in
          rw open_still (omega (arith, more), bounds.0, omega (arith, more, bounds.1))
    ]

noted-some :
    (now : ℕ) (later : Option (List ℕ)) → is_none later ≡ false → is_none (noted now later) ≡ false
noted-some now none h = h
noted-some now (some times) h = refl

-- The gate's looks at a signal end by themselves, whatever its verdicts are: where `limit` is no earlier
-- than the maturity of the window and its end, and the fuel is at least one and exceeds the seconds from
-- `now` to `limit`, the schedule of the looks returns.
pub evaluations-Returns :
    (fuel : ℕ) (cfg : RecheckCfg) (bars published_ts : ℕ) (is_open_at : ℕ → Bool) (now limit : ℕ)
    → bars_mature_ts published_ts bars ≤ limit
    → window_end published_ts cfg ≤ limit
    → 1 ≤ fuel
    → limit < fuel + now
    → is_none (evaluations fuel cfg bars published_ts is_open_at now) ≡ false
unfolding evaluations
evaluations-Returns zero cfg bars published_ts is_open_at now limit m w fuelled enough =
    absurd (omega (arith, fuelled))
evaluations-Returns (suc fuel) cfg bars published_ts is_open_at now limit m w fuelled enough =
    let later : (next : ℕ)
        → now < next
        → now < limit
        → is_none (evaluations fuel cfg bars published_ts is_open_at next) ≡ false =
      λ next after within.
        evaluations-Returns fuel cfg bars published_ts is_open_at next limit m w
          (omega (arith, enough, within)) (omega (arith, enough, after)) in
    elim (Option-cases (defer_delay published_ts now bars)) [
      | inr (d, deferred) ↦
          let bounds : (now < bars_mature_ts published_ts bars) × (5 ≤ d) =
            rw deferred at (defer_delay-IsDeferral published_ts now bars) in
          rw deferred (later (now + d) (omega (arith, bounds.1)) (omega (arith, bounds.0, m)))
      | inl mature ↦ elim (Bool-cases (is_open_at now)) [
        | inr final ↦ rw (mature, final) refl
        | inl unsure ↦ elim (Option-cases (recheck_delay published_ts now cfg)) [
          | inl over ↦ rw (mature, unsure, over) refl
          | inr (d, again) ↦
              let bounds : (now < window_end published_ts cfg)
                  × (5 ≤ d)
                  × ((now + d) + cfg.confirm_final_margin_secs < window_end published_ts cfg + 5) =
                rw again at (recheck_delay-IsRecheck published_ts now cfg) in
              rw (mature, unsure, again)
                (noted-some now (evaluations fuel cfg bars published_ts is_open_at (now + d))
                  (later (now + d) (omega (arith, bounds.1)) (omega (arith, bounds.0, w))))
        ]
      ]
    ]
