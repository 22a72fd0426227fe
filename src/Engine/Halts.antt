-- ===== src/Engine/Halts.antt =====
-- The halt heuristic of src/c4_exec/engine.py: `check_halt`, and what `step` does to it. Times are seconds;
-- the open of the session is an argument, since the time zones are not part of the repository.
use news_pipeline.Base.{
  ℕ, ◌+◌, ◌*◌, Bool, true, false, ◌||◌, ◌≡◌, refl, Option, none, some, List, [], ◌∷◌, ltb, leb,
  arith, Bool-cases, inl, inr, if◌then◌else◌,
}

-- `last_bar_ts` and `frozen` of one position.
pub record HaltState : Type 0 where
  pub last_bar : Option ℕ
  pub frozen : Bool

abbrev latest_of : ℕ → ℕ → ℕ
latest_of a b = if leb a b then b else a

-- No bar for longer than the limit, counted from the open of the session at the earliest.
abbrev pub is_bar_old : ℕ → ℕ → ℕ → Option ℕ → Bool
is_bar_old halt_stale_min open_ts now none = false
is_bar_old halt_stale_min open_ts now (some last) =
    ltb (latest_of last open_ts + halt_stale_min * 60) now

-- `check_halt`
unfoldable pub check_halt : ℕ → ℕ → ℕ → HaltState → HaltState
check_halt halt_stale_min open_ts now s =
    if is_bar_old halt_stale_min open_ts now s.last_bar then record s { frozen = true } else s

-- The start of `step`: a bar ends the freeze.
abbrev pub see_bar : ℕ → HaltState → HaltState
see_bar now s = record { last_bar = some now; frozen = false }

-- A pass of the engine's loop over the position: its time, the open of its session, and whether the
-- data source has a bar.
pub record HaltPass : Type 0 where
  pub now : ℕ
  pub open_ts : ℕ
  pub has_bar : Bool

unfoldable pub halt_pass : ℕ → HaltPass → HaltState → HaltState
unfolding check_halt
halt_pass halt_stale_min p s =
    let checked = check_halt halt_stale_min p.open_ts p.now s in
    if p.has_bar then see_bar p.now checked else checked

unfoldable pub halt_passes : ℕ → List HaltPass → HaltState → HaltState
unfolding halt_pass
halt_passes halt_stale_min [] s = s
halt_passes halt_stale_min (p ∷ ps) s = halt_passes halt_stale_min ps (halt_pass halt_stale_min p s)

-- The passes after the last bar, and the time of that bar.
abbrev pub since_bar : Option ℕ → List HaltPass → List HaltPass → Option ℕ × List HaltPass
since_bar last quiet [] = (last, quiet)
since_bar last quiet (p ∷ ps) =
    if p.has_bar then since_bar (some p.now) [] ps else since_bar last (p ∷ quiet) ps

abbrev pub any_stale : ℕ → Option ℕ → List HaltPass → Bool
any_stale halt_stale_min last [] = false
any_stale halt_stale_min last (p ∷ ps) =
    is_bar_old halt_stale_min p.open_ts p.now last || any_stale halt_stale_min last ps

halt_pass-state :
    (limit : ℕ) (p : HaltPass) (last : Option ℕ) (frozen : Bool)
    → halt_pass limit p (record { last_bar = last; frozen = frozen }) ≡ (
        if p.has_bar
        then record { last_bar = some p.now; frozen = false }
        else record { last_bar = last; frozen = is_bar_old limit p.open_ts p.now last || frozen })
unfolding halt_pass
halt_pass-state limit p last frozen = ground arith

-- After any passes a position is frozen exactly if some pass since its last bar found that bar too old.
pub halt_passes-frozen :
    (limit : ℕ) (ps : List HaltPass) (last : Option ℕ) (quiet : List HaltPass)
    → let (bar, later_passes) = since_bar last quiet ps in
      halt_passes limit ps (record { last_bar = last; frozen = any_stale limit last quiet })
      ≡ record { last_bar = bar; frozen = any_stale limit bar later_passes }
unfolding halt_passes
halt_passes-frozen limit [] last quiet = refl
halt_passes-frozen limit (p ∷ ps) last quiet = elim (Bool-cases p.has_bar) [
  | inl seen ↦
      rw (halt_pass-state limit p last (any_stale limit last quiet))
        (simp seen (halt_passes-frozen limit ps (some p.now) []))
  | inr gap ↦
      rw (halt_pass-state limit p last (any_stale limit last quiet))
        (simp gap (halt_passes-frozen limit ps last (p ∷ quiet)))
]
