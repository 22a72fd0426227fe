-- ===== src/Watchdog/Alerted.antt =====
-- That a finding set that lasts is alerted by src/c7_watchdog/service.py.
use news_pipeline.Base.{
  ℕ, suc, ◌+◌, ◌≤◌, Bool, true, false, ◌||◌, leb, ◌≡◌, refl, Option, none, some, List, [], ◌∷◌, All,
  any, length, is_empty, arith, if◌then◌else◌, Bool-cases, ◌⊎◌, inl, inr,
}
use news_pipeline.Watchdog.Types.{Finding, critical, warning, is_critical_finding}
use news_pipeline.Watchdog.Alerts.{
  FindingKey, WatchMemory, AlertCfg, AlertMode, fresh_alert, fingerprint, same_print, alert_pass,
  watch_passes, emails, passes_seen, is_due,
}

pub same_print_refl : (ks : List FindingKey) → same_print ks ks ≡ true
unfolding same_print
same_print_refl [] = refl
same_print_refl (k ∷ ks) = ground (arith, same_print_refl ks)

pub same_print-eq : (js ks : List FindingKey) → same_print js ks ≡ true → js ≡ ks
unfolding same_print
same_print-eq [] [] h = refl
same_print-eq [] (k ∷ ks) h = cc
same_print-eq (j ∷ js) [] h = cc
same_print-eq (j ∷ js) (k ∷ ks) h = ground (arith, same_print-eq js ks)

-- The pass finds exactly what the fingerprint says.
abbrev pub Finds : List FindingKey → ℕ × List Finding → Type 0
Finds print p = fingerprint p.1 ≡ print

-- A pass that finds what was alerted last keeps it.
pub pass-keeps :
    (cfg : AlertCfg) (k : FindingKey) (ks : List FindingKey) (p : ℕ × List Finding)
    (m : WatchMemory)
    → Finds (k ∷ ks) p
    → m.alerted ≡ k ∷ ks
    → (alert_pass cfg m p).0.alerted ≡ k ∷ ks
unfolding alert_pass fingerprint
pass-keeps cfg k ks (now, []) m found known = cc
pass-keeps cfg k ks (now, f ∷ fs) m found known =
    rw (found, known, same_print_refl (k ∷ ks))
      (elim (Bool-cases (is_due now m.last_alert cfg.realert_hours)) [
        | inl due ↦ rw due found
        | inr quiet ↦ rw quiet refl
      ])

passes-keep :
    (cfg : AlertCfg) (k : FindingKey) (ks : List FindingKey) (ps : List (ℕ × List Finding))
    (m : WatchMemory)
    → All (Finds (k ∷ ks)) ps
    → m.alerted ≡ k ∷ ks
    → (watch_passes cfg ps m).alerted ≡ k ∷ ks
unfolding watch_passes
passes-keep cfg k ks [] m found known = known
passes-keep cfg k ks (p ∷ ps) m (here, there) known =
    passes-keep cfg k ks ps (alert_pass cfg m p).0 there (pass-keeps cfg k ks p m here known)

-- What a pass does with findings that were not alerted: it alerts them, or it counts the pass.
abbrev pub NewOutcome :
    AlertCfg → List FindingKey → Bool → WatchMemory → WatchMemory × Option AlertMode → Type 0
NewOutcome cfg print crit m r =
    let seen = passes_seen print m.pending in
    ((r.0.alerted ≡ print)
      × (r.1 ≡ some fresh_alert)
      × (r.0.last_severity ≡ some (if crit then critical else warning)))
    ⊎ ((r.1 ≡ none)
        × (r.0.alerted ≡ m.alerted)
        × (r.0.pending ≡ record { print = print; seen = seen })
        × (crit ≡ false)
        × (suc seen ≤ cfg.warn_confirm_passes))

pub pass-NewOutcome :
    (cfg : AlertCfg) (k : FindingKey) (ks : List FindingKey) (p : ℕ × List Finding)
    (m : WatchMemory)
    → Finds (k ∷ ks) p
    → same_print (k ∷ ks) m.alerted ≡ false
    → NewOutcome cfg (k ∷ ks) (any is_critical_finding p.1) m (alert_pass cfg m p)
unfolding alert_pass fingerprint
pass-NewOutcome cfg k ks (now, []) m found fresh = cc
pass-NewOutcome cfg k ks (now, f ∷ fs) m found fresh =
    rw (found, fresh)
      (elim (Bool-cases (any is_critical_finding (f ∷ fs) || leb cfg.warn_confirm_passes 1)) [
        | inl at_once ↦ rw at_once (inl (found, refl, refl))
        | inr damped ↦
            elim (Bool-cases (leb cfg.warn_confirm_passes (passes_seen (k ∷ ks) m.pending))) [
              | inl confirmed ↦ rw (damped, confirmed) (inl (found, refl, refl))
              | inr early ↦
                  rw (damped, early)
                    (inr (refl, refl, refl, ground (arith, damped), ground (arith, early)))
            ]
      ])

IsAlerted : AlertCfg → List FindingKey → List (ℕ × List Finding) → WatchMemory → Type 0
IsAlerted cfg print ps m =
    ((watch_passes cfg ps m).alerted ≡ print) × (is_empty (emails cfg ps m) ≡ false)

-- A first pass that alerts, and passes that find the same.
IsAlerted-first :
    (cfg : AlertCfg) (k : FindingKey) (ks : List FindingKey) (p : ℕ × List Finding)
    (ps : List (ℕ × List Finding)) (m : WatchMemory)
    → All (Finds (k ∷ ks)) ps
    → (alert_pass cfg m p).0.alerted ≡ k ∷ ks
    → (alert_pass cfg m p).1 ≡ some fresh_alert
    → IsAlerted cfg (k ∷ ks) (p ∷ ps) m
unfolding IsAlerted watch_passes emails
IsAlerted-first cfg k ks p ps m found known sent =
    (passes-keep cfg k ks ps (alert_pass cfg m p).0 found known, rw sent refl)

IsAlerted-later :
    (cfg : AlertCfg) (k : FindingKey) (ks : List FindingKey) (p : ℕ × List Finding)
    (ps : List (ℕ × List Finding)) (m : WatchMemory)
    → (alert_pass cfg m p).1 ≡ none
    → IsAlerted cfg (k ∷ ks) ps (alert_pass cfg m p).0
    → IsAlerted cfg (k ∷ ks) (p ∷ ps) m
unfolding IsAlerted watch_passes emails
IsAlerted-later cfg k ks p ps m quiet (known, sent) = (known, rw quiet sent)

passes-IsAlerted :
    (cfg : AlertCfg) (k : FindingKey) (ks : List FindingKey) (ps : List (ℕ × List Finding))
    (m : WatchMemory)
    → All (Finds (k ∷ ks)) ps
    → same_print (k ∷ ks) m.alerted ≡ false
    → 1 ≤ length ps
    → suc cfg.warn_confirm_passes ≤ passes_seen (k ∷ ks) m.pending + length ps
    → IsAlerted cfg (k ∷ ks) ps m
passes-IsAlerted cfg k ks [] m found fresh some_pass enough = absurd (omega (arith, some_pass))
passes-IsAlerted cfg k ks (p ∷ ps) m (here, there) fresh some_pass enough =
    elim (pass-NewOutcome cfg k ks p m here fresh) [
      | inl (known, sent, worst) ↦ IsAlerted-first cfg k ks p ps m there known sent
      | inr (quiet, same, counted, mild, early) ↦
          let next : passes_seen (k ∷ ks) (alert_pass cfg m p).0.pending
              ≡ passes_seen (k ∷ ks) m.pending + 1 =
            rw (counted, same_print_refl (k ∷ ks)) refl in
          IsAlerted-later cfg k ks p ps m quiet (
            passes-IsAlerted cfg k ks ps (alert_pass cfg m p).0 there (rw same fresh)
              (omega (arith, early, enough)) (omega (arith, early, enough, next)))
    ]

-- A set of findings that lasts is alerted: where it is not the set that was alerted last, and every
-- pass finds it, an email goes out and the set is the one that is remembered, whatever is kept at the
-- start, if the first of the passes finds a critical one or there are as many passes as a warning has
-- to be seen.
pub watch_passes-alerted :
    (cfg : AlertCfg) (k : FindingKey) (ks : List FindingKey) (p : ℕ × List Finding)
    (ps : List (ℕ × List Finding)) (m : WatchMemory)
    → All (Finds (k ∷ ks)) (p ∷ ps)
    → same_print (k ∷ ks) m.alerted ≡ false
    → (any is_critical_finding p.1 ≡ true) ⊎ (cfg.warn_confirm_passes ≤ length (p ∷ ps))
    → ((watch_passes cfg (p ∷ ps) m).alerted ≡ k ∷ ks) × (is_empty (emails cfg (p ∷ ps) m) ≡ false)
unfolding IsAlerted
watch_passes-alerted cfg k ks p ps m found fresh (inl crit) =
    elim (pass-NewOutcome cfg k ks p m found.0 fresh) [
      | inl (known, sent, worst) ↦ IsAlerted-first cfg k ks p ps m found.1 known sent
      | inr (quiet, same, counted, mild, early) ↦ cc
    ]
watch_passes-alerted cfg k ks p ps m found fresh (inr confirmed) =
    passes-IsAlerted cfg k ks (p ∷ ps) m found fresh (omega arith) (ground (arith, confirmed))
