-- ===== src/Recheck.antt =====
-- src/c3_gate/service.py: when the intraday gate looks at a signal, and when it looks again. Times and
-- delays are whole seconds.
pub mod Schedule
use news_pipeline.Base.{
  ℕ, zero, suc, ◌+◌, ◌-◌, ◌*◌, ◌/◌, Bool, true, false, not, ◌&&◌, ◌||◌, ◌==◌, ltb, leb, Option,
  none, some, List, [], ◌∷◌, any, is_empty, if◌then◌else◌,
}
use news_pipeline.Num.{Num}

-- The keys of the gate's configuration that the schedule reads.
pub record RecheckCfg : Type 0 where
  pub min_confirm_bars : ℕ
  pub fast_confirm_bars : ℕ
  pub fast_urgency : List ℕ
  pub intraday_window_secs : ℕ
  pub confirm_final_margin_secs : ℕ
  pub confirm_recheck_secs : ℕ

abbrev pub min_ℕ : ℕ → ℕ → ℕ
min_ℕ a b = if leb a b then a else b

abbrev pub max_ℕ : ℕ → ℕ → ℕ
max_ℕ a b = if leb a b then b else a

-- `bars_mature_ts`: the boundary after the minute of the publication, and the bars.
unfoldable pub bars_mature_ts : ℕ → ℕ → ℕ
bars_mature_ts published_ts min_bars = ((published_ts / 60) * 60 + 60) + min_bars * 60

-- `defer_delay`
unfoldable pub defer_delay : ℕ → ℕ → ℕ → Option ℕ
defer_delay published_ts now min_bars =
    let mature = bars_mature_ts published_ts min_bars in
    if leb mature now then none else some (min_ℕ (max_ℕ ((mature - now) + 1) 5) 300)

abbrev pub is_fast : Option ℕ → List ℕ → Bool
is_fast none fast = false
is_fast (some u) fast = any (λ v. v == u) fast

-- `confirm_bars_for`; an empty list of fast urgencies has none.
unfoldable pub confirm_bars_for : Option ℕ → RecheckCfg → ℕ
confirm_bars_for urgency cfg =
    if is_fast urgency cfg.fast_urgency
    then max_ℕ 1 (min_ℕ cfg.fast_confirm_bars cfg.min_confirm_bars)
    else cfg.min_confirm_bars

-- `abandon_recheck`
unfoldable pub abandon_recheck : {F : Type 0} ⦃num : Num F⦄ → Option F → Bool → F → Bool
abandon_recheck none abandons extended_pct = false
abandon_recheck ⦃num⦄ (some pct_move) abandons extended_pct =
    abandons && num.is_le extended_pct pct_move

-- `recheck_delay`
unfoldable pub recheck_delay : ℕ → ℕ → RecheckCfg → Option ℕ
recheck_delay published_ts now cfg =
    let remaining = (published_ts + cfg.intraday_window_secs) - now in
    if leb remaining cfg.confirm_final_margin_secs
    then none
    else some (
        min_ℕ (max_ℕ cfg.confirm_recheck_secs 5)
          (max_ℕ (remaining - cfg.confirm_final_margin_secs) 5))

-- The times at which the gate evaluates a signal of the session that it claims at `now`: a window that
-- is not mature defers the message, and a verdict that may still change at a time (`is_open_at`: a veto
-- of the intraday rule, not abandoned, for a reason that is checked again) is looked at again. A deferred
-- message is claimed when its delay is over. `none` is a lack of fuel.
abbrev pub noted : ℕ → Option (List ℕ) → Option (List ℕ)
noted now none = none
noted now (some times) = some (now ∷ times)

abbrev pub last_look : ℕ → Option ℕ → (ℕ → Option (List ℕ)) → Option (List ℕ)
last_look now none later = some (now ∷ [])
last_look now (some d) later = noted now (later (now + d))

abbrev pub first_look : Option ℕ → ℕ → Bool → Option ℕ → (ℕ → Option (List ℕ)) → Option (List ℕ)
first_look (some d) now is_open again later = later (now + d)
first_look none now is_open again later =
    if is_open then last_look now again later else some (now ∷ [])

unfoldable pub evaluations : ℕ → RecheckCfg → ℕ → ℕ → (ℕ → Bool) → ℕ → Option (List ℕ)
unfolding defer_delay recheck_delay
evaluations zero cfg bars published_ts is_open_at now = none
evaluations (suc fuel) cfg bars published_ts is_open_at now =
    first_look (defer_delay published_ts now bars) now (is_open_at now)
      (recheck_delay published_ts now cfg)
      (λ next. evaluations fuel cfg bars published_ts is_open_at next)
