-- ===== src/Watchdog/Recovery.antt =====
-- The emails of src/c7_watchdog/service.py on what was alerted and is over.
use news_pipeline.Base.{
  ℕ, suc, ◌+◌, ◌≤◌, Bool, true, false, ◌||◌, ◌++◌, ◌≡◌, refl, none, some, List, [], ◌∷◌, All, any,
  length, arith, Bool-cases, inl, inr,
}
use news_pipeline.Watchdog.Types.{Finding, critical, warning, is_critical_finding}
use news_pipeline.Watchdog.Alerts.{
  FindingKey, WatchMemory, AlertCfg, AlertMode, fresh_alert, repeat_alert, recovered, cleared,
  mode_list, emails, fingerprint, same_print, alert_pass, watch_passes, passes_seen, is_due,
}
use news_pipeline.Watchdog.Alerted.{Finds, same_print_refl, pass-keeps, pass-NewOutcome}

any-append :
    {A : Type 0} (p : A → Bool) (xs ys : List A) → any p (xs ++ ys) ≡ (any p xs || any p ys)
any-append p [] ys = refl
any-append p (x ∷ xs) ys = ground (arith, any-append p xs ys)

-- The pass finds what the fingerprint says, and nothing critical.
abbrev pub FindsWarnings : List FindingKey → ℕ × List Finding → Type 0
FindsWarnings print p = Finds print p × (any is_critical_finding p.1 ≡ false)

-- The last alert was on these findings, and on warnings only.
abbrev IsWarned : List FindingKey → WatchMemory → Type 0
IsWarned print m = (m.alerted ≡ print) × (m.last_severity ≡ some warning)

pass-keeps_IsWarned :
    (cfg : AlertCfg) (k : FindingKey) (ks : List FindingKey) (p : ℕ × List Finding)
    (m : WatchMemory)
    → FindsWarnings (k ∷ ks) p
    → IsWarned (k ∷ ks) m
    → IsWarned (k ∷ ks) (alert_pass cfg m p).0
unfolding alert_pass fingerprint
pass-keeps_IsWarned cfg k ks (now, []) m (found, mild) (known, warned) = cc
pass-keeps_IsWarned cfg k ks (now, f ∷ fs) m (found, mild) (known, warned) = (
  pass-keeps cfg k ks (now, f ∷ fs) m found known,
  rw (found, known, same_print_refl (k ∷ ks))
      (elim (Bool-cases (is_due now m.last_alert cfg.realert_hours)) [
        | inl due ↦ rw (due, mild) refl
        | inr quiet ↦ rw quiet warned
      ]),
)

passes-keep-IsWarned :
    (cfg : AlertCfg) (k : FindingKey) (ks : List FindingKey) (ps : List (ℕ × List Finding))
    (m : WatchMemory)
    → All (FindsWarnings (k ∷ ks)) ps
    → IsWarned (k ∷ ks) m
    → IsWarned (k ∷ ks) (watch_passes cfg ps m)
unfolding watch_passes
passes-keep-IsWarned cfg k ks [] m found warned = warned
passes-keep-IsWarned cfg k ks (p ∷ ps) m (here, there) warned =
    passes-keep-IsWarned cfg k ks ps (alert_pass cfg m p).0 there
      (pass-keeps_IsWarned cfg k ks p m here warned)

passes-IsWarned :
    (cfg : AlertCfg) (k : FindingKey) (ks : List FindingKey) (ps : List (ℕ × List Finding))
    (m : WatchMemory)
    → All (FindsWarnings (k ∷ ks)) ps
    → same_print (k ∷ ks) m.alerted ≡ false
    → 1 ≤ length ps
    → suc cfg.warn_confirm_passes ≤ passes_seen (k ∷ ks) m.pending + length ps
    → IsWarned (k ∷ ks) (watch_passes cfg ps m)
unfolding watch_passes
passes-IsWarned cfg k ks [] m found fresh some_pass enough = absurd (omega (arith, some_pass))
passes-IsWarned cfg k ks (p ∷ ps) m (here, there) fresh some_pass enough =
    elim (pass-NewOutcome cfg k ks p m here.0 fresh) [
      | inl (known, sent, worst) ↦
          passes-keep-IsWarned cfg k ks ps (alert_pass cfg m p).0 there (known, rw here.1 at worst)
      | inr (quiet, same, counted, mild, early) ↦
          let next : passes_seen (k ∷ ks) (alert_pass cfg m p).0.pending
              ≡ passes_seen (k ∷ ks) m.pending + 1 =
            rw (counted, same_print_refl (k ∷ ks)) refl in
          passes-IsWarned cfg k ks ps (alert_pass cfg m p).0 there (rw same fresh)
            (omega (arith, early, enough)) (omega (arith, early, enough, next))
    ]

warned-silent :
    (cfg : AlertCfg) (k : FindingKey) (ks : List FindingKey) (m : WatchMemory) (now : ℕ)
    → IsWarned (k ∷ ks) m
    → (alert_pass cfg m (now, [])).1 ≡ none
unfolding alert_pass
warned-silent cfg k ks m now (known, warned) = rw (known, warned) refl

abbrev pub is_recovered : AlertMode → Bool
is_recovered recovered = true
is_recovered fresh_alert = false
is_recovered repeat_alert = false
is_recovered cleared = false

-- A pass that finds something sends no such email.
pass-no_recovery :
    (cfg : AlertCfg) (k : FindingKey) (ks : List FindingKey) (p : ℕ × List Finding)
    (m : WatchMemory)
    → Finds (k ∷ ks) p
    → any is_recovered (mode_list (alert_pass cfg m p).1) ≡ false
unfolding alert_pass fingerprint
pass-no_recovery cfg k ks (now, []) m found = cc
pass-no_recovery cfg k ks (now, f ∷ fs) m found = ground arith

passes-no_recovery :
    (cfg : AlertCfg) (k : FindingKey) (ks : List FindingKey) (ps : List (ℕ × List Finding))
    (q : ℕ × List Finding) (m : WatchMemory)
    → All (FindsWarnings (k ∷ ks)) ps
    → (alert_pass cfg (watch_passes cfg ps m) q).1 ≡ none
    → any is_recovered (emails cfg (ps ++ q ∷ []) m) ≡ false
unfolding emails watch_passes
passes-no_recovery cfg k ks [] q m found last = rw last refl
passes-no_recovery cfg k ks (p ∷ ps) q m (here, there) last =
    rw (any-append is_recovered (mode_list (alert_pass cfg m p).1) _) (
      rw
        (
          pass-no_recovery cfg k ks p m here.0,
          passes-no_recovery cfg k ks ps q (alert_pass cfg m p).0 there last,
        )
        refl)

-- No email says that a critical finding is over, where warnings outlast it long enough to be alerted.
-- Whatever is kept at the start, a critical alert included: passes find the same warnings and nothing
-- critical, there is at least one of them and at least as many as a warning has to be seen
-- (warn_confirm_passes), and the last alert was not on these warnings. Then neither these passes nor
-- the one after them, which finds nothing, sends an email of a recovery.
pub watch_passes-recovery_silent :
    (cfg : AlertCfg) (k : FindingKey) (ks : List FindingKey) (ps : List (ℕ × List Finding))
    (m : WatchMemory) (now : ℕ)
    → All (FindsWarnings (k ∷ ks)) ps
    → same_print (k ∷ ks) m.alerted ≡ false
    → 1 ≤ length ps
    → cfg.warn_confirm_passes ≤ length ps
    → any is_recovered (emails cfg (ps ++ (now, []) ∷ []) m) ≡ false
watch_passes-recovery_silent cfg k ks ps m now found fresh some_pass confirmed =
    passes-no_recovery cfg k ks ps (now, []) m found
      (warned-silent cfg k ks (watch_passes cfg ps m) now
        (passes-IsWarned cfg k ks ps m found fresh some_pass (ground (arith, confirmed))))

-- Otherwise the critical set that was alerted last is reported as over, and forgotten.
pub alert_pass-recovered :
    (cfg : AlertCfg) (k : FindingKey) (ks : List FindingKey) (m : WatchMemory) (now : ℕ)
    → m.alerted ≡ k ∷ ks
    → m.last_severity ≡ some critical
    → let r = alert_pass cfg m (now, []) in
      (r.1 ≡ some recovered) × (r.0.alerted ≡ []) × (r.0.last_severity ≡ none)
unfolding alert_pass fingerprint
alert_pass-recovered cfg k ks m now known worst = rw (known, worst) (refl, refl, refl)
