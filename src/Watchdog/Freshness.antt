-- ===== src/Watchdog/Freshness.antt =====
-- src/common/health.py: which health rows are too old, and which no part of the configuration claims.
-- A dict is the list of its entries.
use news_pipeline.Base.{
  ℕ, Bool, false, not, ◌&&◌, ◌||◌, ◌==◌, leb, Option, none, some, List, [], ◌∷◌, any, if◌then◌else◌,
}
use news_pipeline.Base.Int.{pos}
use news_pipeline.Num.{Num, zero_f}
use news_pipeline.Watchdog.Types.{Names, ServiceOpts, HeartbeatOpts, WatchCfg}

-- A value of `freshness_limits`, without the unit and the description that a text names.
pub record Limit (F : Type 0) : Type 0 where
  pub max_age_min : F
  pub rth_only : Bool

-- An entry of `stale_components`
pub record StaleRow (F : Type 0) : Type 0 where
  pub component : ℕ
  pub age_min : F
  pub limit_min : F

module _ {V : Type 0} where
  -- `d.get(key)`
  unfoldable pub get_key : ℕ → List (ℕ × V) → Option V
  get_key k [] = none
  get_key k ((j, v) ∷ d) = if j == k then some v else get_key k d

  -- `d[key] = value`, which keeps the place of a key that is there.
  unfoldable pub put_key : ℕ → V → List (ℕ × V) → List (ℕ × V)
  put_key k v [] = (k, v) ∷ []
  put_key k v ((j, w) ∷ d) = if j == k then (k, v) ∷ d else (j, w) ∷ put_key k v d

abbrev pub has_name : ℕ → List ℕ → Bool
has_name n ns = any (λ m. m == n) ns

unfoldable pub insert_name : ℕ → List ℕ → List ℕ
insert_name n [] = n ∷ []
insert_name n (m ∷ ms) = if leb n m then n ∷ m ∷ ms else m ∷ insert_name n ms

-- `sorted(names)`
unfoldable pub sorted_names : List ℕ → List ℕ
unfolding insert_name
sorted_names [] = []
sorted_names (n ∷ ns) = insert_name n (sorted_names ns)

abbrev pub claims_health : ℕ → Option ℕ → Bool
claims_health c none = false
claims_health c (some comp) = comp == c

module _ {F : Type 0} ⦃num : Num F⦄ where
  open num use {is_lt, mul, of_ℤ}

  abbrev pub service_limit : Option ℕ → Option F → Bool → List (ℕ × Limit F) → List (ℕ × Limit F)
  service_limit (some comp) (some limit) rth_only limits =
      put_key comp (record { max_age_min = limit; rth_only = rth_only }) limits
  service_limit health limit rth_only limits = limits

  unfoldable pub service_limits : List (ServiceOpts F) → List (ℕ × Limit F) → List (ℕ × Limit F)
  unfolding put_key
  service_limits [] limits = limits
  service_limits (s ∷ ss) limits =
      service_limits ss (service_limit s.health s.max_age_min s.rth_only limits)

  unfoldable pub heartbeat_limits : List (HeartbeatOpts F) → List (ℕ × Limit F) → List (ℕ × Limit F)
  unfolding put_key
  heartbeat_limits [] limits = limits
  heartbeat_limits (h ∷ hs) limits =
      heartbeat_limits hs
        (put_key h.name (record { max_age_min = h.max_age_min; rth_only = h.rth_only }) limits)

  -- `freshness_limits`
  unfoldable pub freshness_limits : WatchCfg F → List (ℕ × Limit F)
  unfolding service_limits heartbeat_limits
  freshness_limits cfg = heartbeat_limits cfg.heartbeats (service_limits cfg.services [])

  -- The row of a component, where it is past its limit.
  unfoldable pub stale_row : Bool → ℕ → Limit F → Option F → List (StaleRow F)
  stale_row in_session comp info none = []
  stale_row in_session comp info (some age) =
      if (info.rth_only && not in_session) || not (is_lt info.max_age_min age)
      then []
      else (record { component = comp; age_min = age; limit_min = info.max_age_min }) ∷ []

  -- `out.sort(key=age, reverse=True)`, which keeps the order of equal ages.
  unfoldable pub insert_stale_row : StaleRow F → List (StaleRow F) → List (StaleRow F)
  insert_stale_row r [] = r ∷ []
  insert_stale_row r (s ∷ ss) =
      if is_lt r.age_min s.age_min then s ∷ insert_stale_row r ss else r ∷ s ∷ ss

  abbrev pub insert_rows : List (StaleRow F) → List (StaleRow F) → List (StaleRow F)
  insert_rows [] rs = rs
  insert_rows (r ∷ _) rs = insert_stale_row r rs

  -- `stale_components`
  unfoldable pub stale_components : List (ℕ × Limit F) → List (ℕ × F) → Bool → List (StaleRow F)
  unfolding stale_row insert_stale_row get_key
  stale_components [] ages in_session = []
  stale_components ((comp, info) ∷ limits) ages in_session =
      insert_rows (stale_row in_session comp info (get_key comp ages))
        (stale_components limits ages in_session)

  -- `component in claimed_components(cfg)`
  unfoldable pub is_claimed : WatchCfg F → ℕ → Bool
  is_claimed cfg c =
      any (λ s. claims_health c s.health) cfg.services
      || (any (λ h. h.name == c) cfg.heartbeats || has_name c cfg.never_orphan)

  -- `days > 0 and age > days * 1440`
  abbrev pub is_past_days : F → F → Bool
  is_past_days days age = is_lt zero_f days && is_lt (mul days (of_ℤ (pos 1440))) age

  unfoldable pub is_doomed : WatchCfg F → ℕ → F → Bool
  unfolding is_claimed
  is_doomed cfg c age = not (is_claimed cfg c) && is_past_days cfg.delete_after_days age

  unfoldable pub is_warned : Names → WatchCfg F → ℕ → F → Bool
  unfolding is_claimed is_doomed
  is_warned names cfg c age =
      not (is_claimed cfg c)
      && (is_past_days cfg.warn_after_days age
          && (not (is_doomed cfg c age) && not (names.is_dynamic c)))

  unfoldable pub names_where : (ℕ → F → Bool) → List (ℕ × F) → List ℕ
  names_where p [] = []
  names_where p ((c, age) ∷ ages) = if p c age then c ∷ names_where p ages else names_where p ages

  -- The two lists of `orphan_rows`.
  unfoldable pub to_delete : WatchCfg F → List (ℕ × F) → List ℕ
  unfolding is_doomed names_where sorted_names
  to_delete cfg ages = sorted_names (names_where (is_doomed cfg) ages)

  unfoldable pub to_warn : Names → WatchCfg F → List (ℕ × F) → List ℕ
  unfolding is_warned names_where sorted_names
  to_warn names cfg ages = sorted_names (names_where (is_warned names cfg) ages)

  -- `ages.pop(gone)` for the rows of `_delete_orphans`
  unfoldable pub pruned : WatchCfg F → List (ℕ × F) → List (ℕ × F)
  unfolding is_doomed
  pruned cfg [] = []
  pruned cfg ((c, age) ∷ ages) =
      if is_doomed cfg c age then pruned cfg ages else (c, age) ∷ pruned cfg ages
