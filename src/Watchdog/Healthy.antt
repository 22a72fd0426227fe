-- ===== src/Watchdog/Healthy.antt =====
-- When a pass of src/c7_watchdog/service.py has nothing to report.
use news_pipeline.Base.{
  ℕ, Bool, true, false, not, ◌&&◌, ◌||◌, ◌≡◌, refl, ◌∙◌, ap, Option, none, some, List, [], ◌∷◌,
  ◌++◌, map, all, is_empty, arith,
}
use news_pipeline.Num.{Num}
use news_pipeline.Watchdog.Types.{UnitInfo, Names, WatchCfg, is_transient, is_active}
use news_pipeline.Watchdog.Freshness.{
  Limit, StaleRow, get_key, insert_name, sorted_names, freshness_limits, stale_row,
  insert_stale_row, insert_rows, stale_components, is_warned, names_where, to_warn, is_claimed,
  is_doomed, is_past_days,
}
use news_pipeline.Watchdog.{
  Probes, service_findings, timer_findings, all_services, all_timers, service_names, evaluate_units,
  stale_finding, orphan_finding,
}

-- A unit that systemd knows, and that is starting or stopping, or is up and will be after a reboot.
abbrev pub is_unit_well : Option UnitInfo → Bool
is_unit_well none = false
is_unit_well (some info) =
    info.is_loaded
    && (is_transient info.active_state || (is_active info.active_state && info.is_enabled))

-- The last run did not fail, as far as systemd says.
abbrev pub is_run_well : Option UnitInfo → Bool
is_run_well none = true
is_run_well (some info) = not info.has_failed

is_empty-append {ℓ} :
    {A : Type ℓ} (xs ys : List A) → is_empty (xs ++ ys) ≡ (is_empty xs && is_empty ys)
is_empty-append [] ys = refl
is_empty-append (x ∷ xs) ys = refl

is_empty-map : {A B : Type 0} (f : A → B) (xs : List A) → is_empty (map f xs) ≡ is_empty xs
is_empty-map f [] = refl
is_empty-map f (x ∷ xs) = refl

all-insert_name :
    (p : ℕ → Bool) (n : ℕ) (ms : List ℕ) → all p (insert_name n ms) ≡ (p n && all p ms)
unfolding insert_name
all-insert_name p n [] = refl
all-insert_name p n (m ∷ ms) = ground (arith, all-insert_name p n ms)

all-sorted_names : (p : ℕ → Bool) (ns : List ℕ) → all p (sorted_names ns) ≡ all p ns
unfolding sorted_names
all-sorted_names p [] = refl
all-sorted_names p (n ∷ ns) =
    all-insert_name p n (sorted_names ns) ∙ ap (λ b. p n && b) (all-sorted_names p ns)

is_empty-insert_name : (n : ℕ) (ms : List ℕ) → is_empty (insert_name n ms) ≡ false
unfolding insert_name
is_empty-insert_name n [] = refl
is_empty-insert_name n (m ∷ ms) = ground arith

is_empty-sorted_names : (ns : List ℕ) → is_empty (sorted_names ns) ≡ is_empty ns
unfolding sorted_names
is_empty-sorted_names [] = refl
is_empty-sorted_names (n ∷ ns) = is_empty-insert_name n (sorted_names ns)

service_findings-is_empty :
    (n : ℕ) (info : Option UnitInfo) → is_empty (service_findings n info) ≡ is_unit_well info
unfolding service_findings
service_findings-is_empty n none = refl
service_findings-is_empty n (some info) = ground arith

timer_findings-is_empty :
    (names : Names) (n : ℕ) (tinfo sinfo : Option UnitInfo)
    → is_empty (timer_findings names n tinfo sinfo) ≡ (is_unit_well tinfo && is_run_well sinfo)
unfolding timer_findings
timer_findings-is_empty names n none sinfo = refl
timer_findings-is_empty names n (some tinfo) none = ground arith
timer_findings-is_empty names n (some tinfo) (some sinfo) = ground arith

all_services-is_empty :
    (probes : Probes) (ns : List ℕ)
    → is_empty (all_services probes ns) ≡ all (λ n. is_unit_well (probes.service_info n)) ns
unfolding all_services
all_services-is_empty probes [] = refl
all_services-is_empty probes (n ∷ ns) =
    rw
      (
        is_empty-append (service_findings n (probes.service_info n)) (all_services probes ns),
        service_findings-is_empty n (probes.service_info n),
        all_services-is_empty probes ns,
      )
      refl

all_timers-is_empty :
    (names : Names) (probes : Probes) (ns : List ℕ)
    → is_empty (all_timers names probes ns)
      ≡ all (λ n. is_unit_well (probes.timer_info n) && is_run_well (probes.service_info n)) ns
unfolding all_timers
all_timers-is_empty names probes [] = refl
all_timers-is_empty names probes (n ∷ ns) =
    rw
      (
        is_empty-append (timer_findings names n (probes.timer_info n) (probes.service_info n))
            (all_timers names probes ns),
        timer_findings-is_empty names n (probes.timer_info n) (probes.service_info n),
        all_timers-is_empty names probes ns,
      )
      refl

all-map :
    {A B : Type 0} (p : B → Bool) (f : A → B) (xs : List A)
    → all p (map f xs) ≡ all (λ x. p (f x)) xs
all-map p f [] = refl
all-map p f (x ∷ xs) = rw (all-map p f xs) refl

is_empty-four :
    {A : Type 0} (xs ys zs ws : List A) (a b c d : Bool)
    → is_empty xs ≡ a
    → is_empty ys ≡ b
    → is_empty zs ≡ c
    → is_empty ws ≡ d
    → is_empty (xs ++ (ys ++ (zs ++ ws))) ≡ (a && (b && (c && d)))
is_empty-four xs ys zs ws a b c d p q r s =
    rw
      (
        is_empty-append xs (ys ++ (zs ++ ws)),
        is_empty-append ys (zs ++ ws),
        is_empty-append zs ws,
        p,
        q,
        r,
        s,
      )
      refl

module _ {F : Type 0} ⦃num : Num F⦄ where
  open num use {is_lt}

  -- The row is there only if it is young enough, or its limit counts in the session only.
  abbrev pub is_row_fresh : Bool → Limit F → Option F → Bool
  is_row_fresh in_session info none = true
  is_row_fresh in_session info (some age) =
      (info.rth_only && not in_session) || not (is_lt info.max_age_min age)

  -- The row is of a component that the configuration names, or it is not old enough for a warning, or
  -- it is old enough to be deleted, or events write it.
  abbrev pub is_row_owned : Names → WatchCfg F → ℕ × F → Bool
  is_row_owned names cfg (c, age) =
      is_claimed cfg c
      || (not (is_past_days cfg.warn_after_days age)
          || (is_past_days cfg.delete_after_days age || names.is_dynamic c))

  is_empty-insert_stale_row :
      (r : StaleRow F) (rs : List (StaleRow F)) → is_empty (insert_stale_row r rs) ≡ false
  unfolding insert_stale_row
  is_empty-insert_stale_row r [] = refl
  is_empty-insert_stale_row r (s ∷ ss) = ground arith

  is_empty-insert_rows :
      (rs ss : List (StaleRow F)) → is_empty (insert_rows rs ss) ≡ (is_empty rs && is_empty ss)
  is_empty-insert_rows [] ss = refl
  is_empty-insert_rows (r ∷ rs) ss = is_empty-insert_stale_row r ss

  stale_row-is_empty :
      (in_session : Bool) (c : ℕ) (info : Limit F) (age : Option F)
      → is_empty (stale_row in_session c info age) ≡ is_row_fresh in_session info age
  unfolding stale_row
  stale_row-is_empty in_session c info none = refl
  stale_row-is_empty in_session c info (some age) = ground arith

  stale_components-is_empty :
      (limits : List (ℕ × Limit F)) (ages : List (ℕ × F)) (in_session : Bool)
      → is_empty (stale_components limits ages in_session)
        ≡ all (λ l. is_row_fresh in_session l.1 (get_key l.0 ages)) limits
  unfolding stale_components
  stale_components-is_empty [] ages in_session = refl
  stale_components-is_empty ((c, info) ∷ limits) ages in_session =
      rw
        (
          is_empty-insert_rows (stale_row in_session c info (get_key c ages))
              (stale_components limits ages in_session),
          stale_row-is_empty in_session c info (get_key c ages),
          stale_components-is_empty limits ages in_session,
        )
        refl

  names_where-is_empty :
      (names : Names) (cfg : WatchCfg F) (ages : List (ℕ × F))
      → is_empty (names_where (is_warned names cfg) ages) ≡ all (is_row_owned names cfg) ages
  unfolding names_where is_warned is_doomed
  names_where-is_empty names cfg [] = refl
  names_where-is_empty names cfg ((c, age) ∷ ages) =
      ground (arith, names_where-is_empty names cfg ages)

  to_warn-is_empty :
      (names : Names) (cfg : WatchCfg F) (ages : List (ℕ × F))
      → is_empty (to_warn names cfg ages) ≡ all (is_row_owned names cfg) ages
  unfolding to_warn
  to_warn-is_empty names cfg ages =
      is_empty-sorted_names (names_where (is_warned names cfg) ages)
      ∙ names_where-is_empty names cfg ages

  -- A pass finds nothing exactly if every service is known to systemd and on its way, or up and
  -- enabled; every timer likewise, with a last run that did not fail; no component with a limit has a
  -- row that is too old, limits of the session aside outside it; and no row that could warn is without
  -- an owner.
  pub evaluate_units-silent :
      (names : Names) (cfg : WatchCfg F) (probes : Probes) (ages : List (ℕ × F)) (in_session : Bool)
      → is_empty (evaluate_units names cfg probes ages in_session) ≡ (
          all (λ s. is_unit_well (probes.service_info s.name)) cfg.services
          && (all
                (λ n. is_unit_well (probes.timer_info n) && is_run_well (probes.service_info n))
                cfg.timers
              && (all (λ l. is_row_fresh in_session l.1 (get_key l.0 ages)) (freshness_limits cfg)
                  && all (is_row_owned names cfg) ages)))
  unfolding evaluate_units
  evaluate_units-silent names cfg probes ages in_session =
      let rows = stale_components (freshness_limits cfg) ages in_session in
      let well = λ (n : ℕ). is_unit_well (probes.service_info n) in
      is_empty-four (all_services probes (service_names cfg))
        (all_timers names probes (sorted_names cfg.timers)) (map stale_finding rows)
        (map orphan_finding (to_warn names cfg ages)) _ _ _ _
        (all_services-is_empty probes (service_names cfg)
          ∙ all-sorted_names well (map (λ s. s.name) cfg.services)
          ∙ all-map well (λ s. s.name) cfg.services)
        (all_timers-is_empty names probes (sorted_names cfg.timers)
          ∙ all-sorted_names
              (λ n. is_unit_well (probes.timer_info n) && is_run_well (probes.service_info n))
              cfg.timers)
        (is_empty-map stale_finding rows
          ∙ stale_components-is_empty (freshness_limits cfg) ages in_session)
        (is_empty-map orphan_finding (to_warn names cfg ages) ∙ to_warn-is_empty names cfg ages)
