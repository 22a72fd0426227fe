-- ===== src/Gate/Shadow.antt =====
-- The filters of src/c3_gate/rules.py that re-read a verdict: the source restriction of the long
-- news lane, and the two shadow lanes that measure a veto without an order path.
use news_pipeline.Base.{
  ℕ, Bool, true, false, not, ◌&&◌, ◌||◌, ◌≡◌, Option, none, some, List, [], ◌∷◌, arith, any,
  is_empty, if◌then◌else◌, default_to, ◌==◌,
}
use news_pipeline.Base.Int.{ℤ, pos, ltb_ℤ, leb_ℤ}
use news_pipeline.Num.{Num, truthy, zero_f}
use news_pipeline.Direction.{Thesis, up, down}
use news_pipeline.Gate.{
  Verdict, pass, veto, would_trade, Rule, Reason, priced_in, gate_extended, lane_source,
  GateVerdict, veto_for, MarketState, GateCfg, is_up, move_from,
}
use news_pipeline.Gate.Verdicts.{is_pass}

unfoldable pub Reason-discrete : Discrete Reason
Reason-discrete = hlevel

abbrev is_veto : Verdict → Bool
is_veto veto = true
is_veto pass = false
is_veto would_trade = false

-- Membership of a source, by its number, in the allowed ones.
abbrev pub is_listed : List ℕ → Option ℕ → Bool
is_listed allowed none = false
is_listed allowed (some source) = any (λ a. a == source) allowed

unfoldable pub lane_source_filter : GateVerdict → Thesis → Option ℕ → List ℕ → GateVerdict
lane_source_filter v direction source allowed =
    if is_empty allowed || not (is_pass v.verdict)
    then v
    else if not (is_up direction)
    then v
    else if is_listed allowed source
    then v
    else veto_for v.rule lane_source

-- The filter lets a verdict pass exactly if it passed before and no list is configured, the thesis
-- is down, or its source is listed; it never changes the rule of a verdict.
pub lane_source_filter-pass :
    (v : GateVerdict) (direction : Thesis) (source : Option ℕ) (allowed : List ℕ)
    → (is_pass (lane_source_filter v direction source allowed).verdict ≡ (
        is_pass v.verdict
        && (is_empty allowed || (not (is_up direction) || is_listed allowed source))))
      × ((lane_source_filter v direction source allowed).rule ≡ v.rule)
unfolding lane_source_filter
lane_source_filter-pass v direction source allowed = ground arith

-- `fade` and `drift` of the configuration.
pub record ShadowCfg (F : Type 0) : Type 0 where
  pub enabled : Bool
  pub source_vetoes : List Reason
  pub window_max_min_after_open : Option ℤ
  pub min_pct : Option F
  pub max_pct : Option F

-- What a shadow lane reports of the veto that it re-reads.
pub record Candidate (F : Type 0) : Type 0 where
  pub source_veto : Reason
  pub source_rule : Rule
  pub move : F
  pub minutes_since_open : ℤ

-- `FADE_SOURCE_VETOES` and `DRIFT_SOURCE_VETOES`, which an empty setting stands for.
abbrev pub sources_of : List Reason → List Reason
sources_of [] = priced_in ∷ gate_extended ∷ []
sources_of (r ∷ rs) = r ∷ rs

unfoldable pub same_reason : Reason → Reason → Bool
same_reason a b = elim (Reason-discrete a b) [ yes e ↦ true | no e ↦ false ]

unfoldable pub is_source : List Reason → Reason → Bool
unfolding same_reason
is_source sources r = any (λ s. same_reason s r) (sources_of sources)

module _ {F : Type 0} ⦃num : Num F⦄ where
  open num use {lit, sub, div, neg, round, is_lt, is_le}

  abbrev pub in_band : F → F → F → Bool
  in_band lo hi move = is_le lo move && is_lt move hi

  -- The checks that the lanes share, on a veto with its reason and the minutes since the open.
  unfoldable pub shadow_read :
      ShadowCfg F
      → ℤ
      → F
      → F
      → F
      → MarketState F
      → GateCfg F
      → Rule
      → Option Reason
      → Option ℤ
      → Option (Candidate F)
  shadow_read scfg window lo hi move state cfg rule none minutes = none
  shadow_read scfg window lo hi move state cfg rule (some reason) none = none
  shadow_read scfg window lo hi move state cfg rule (some reason) (some minutes) =
      if not (is_source scfg.source_vetoes reason)
      then none
      else if ltb_ℤ minutes cfg.open_blackout_min
      then none
      else if ltb_ℤ window minutes
      then none
      else if not (in_band lo hi move)
      then none
      else some (record {
        source_veto = reason;
        source_rule = rule;
        move = round move 5;
        minutes_since_open = minutes;
      })

  unfoldable pub fade_candidate :
      Option (ShadowCfg F) → Thesis → MarketState F → GateVerdict → GateCfg F → Option (Candidate F)
  fade_candidate none direction state v cfg = none
  fade_candidate (some f) direction state v cfg =
      if not f.enabled
      then none
      else if not (is_up direction)
      then none
      else if not (is_veto v.verdict)
      then none
      else shadow_read f (default_to (pos 90) f.window_max_min_after_open)
          (default_to (lit 4 2) f.min_pct) (default_to (lit 12 2) f.max_pct)
          (move_from state.prenews_price state.last_price) state cfg v.rule v.veto_reason
          state.minutes_since_open

  -- The fall from the pre-news price, zero from a zero price.
  unfoldable pub drop_of : MarketState F → F
  drop_of state =
      if truthy state.prenews_price
      then div (sub state.prenews_price state.last_price) state.prenews_price
      else zero_f

  unfoldable pub drift_candidate :
      Option (ShadowCfg F) → Thesis → MarketState F → GateVerdict → GateCfg F → Option (Candidate F)
  unfolding drop_of
  drift_candidate none direction state v cfg = none
  drift_candidate (some d) direction state v cfg =
      if not d.enabled
      then none
      else if is_up direction
      then none
      else if not (is_veto v.verdict)
      then none
      else shadow_read d (default_to (pos 240) d.window_max_min_after_open)
          (default_to (lit 1 2) d.min_pct) (default_to (lit 15 2) d.max_pct) (drop_of state) state
          cfg v.rule v.veto_reason state.minutes_since_open

  shadow_read-window :
      (scfg : ShadowCfg F) (window : ℤ) (lo hi move : F) (state : MarketState F) (cfg : GateCfg F)
      (rule : Rule) (reason : Option Reason) (minutes : Option ℤ) (c : Candidate F)
      → shadow_read scfg window lo hi move state cfg rule reason minutes ≡ some c
      → (reason ≡ some c.source_veto)
        × (is_source scfg.source_vetoes c.source_veto ≡ true)
        × (minutes ≡ some c.minutes_since_open)
        × (leb_ℤ cfg.open_blackout_min c.minutes_since_open ≡ true)
        × (leb_ℤ c.minutes_since_open window ≡ true)
        × (in_band lo hi move ≡ true)
  unfolding shadow_read
  shadow_read-window scfg window lo hi move state cfg rule none minutes c h = cc
  shadow_read-window scfg window lo hi move state cfg rule (some r) none c h = cc
  shadow_read-window scfg window lo hi move state cfg rule (some r) (some m) c h = ground arith

  -- What a report of a shadow lane entails, for its direction, window and band.
  abbrev pub IsReport :
      Thesis
      → ShadowCfg F
      → ℤ
      → F
      → F
      → F
      → Thesis
      → MarketState F
      → GateVerdict
      → GateCfg F
      → Candidate F
      → Type 0
  IsReport wanted scfg window lo hi move direction state v cfg c =
      (direction ≡ wanted)
      × (v.verdict ≡ veto)
      × (v.veto_reason ≡ some c.source_veto)
      × (is_source scfg.source_vetoes c.source_veto ≡ true)
      × (state.minutes_since_open ≡ some c.minutes_since_open)
      × (leb_ℤ cfg.open_blackout_min c.minutes_since_open ≡ true)
      × (leb_ℤ c.minutes_since_open window ≡ true)
      × (in_band lo hi move ≡ true)

  -- A fade report is made only for an up thesis vetoed for a configured reason, after the opening
  -- blackout, within its window and on a move inside its band; the drift lane is then silent.
  pub fade_candidate-IsReport :
      (f : ShadowCfg F) (drift : Option (ShadowCfg F)) (direction : Thesis) (state : MarketState F)
      (v : GateVerdict) (cfg : GateCfg F) (c : Candidate F)
      → fade_candidate (some f) direction state v cfg ≡ some c
      → IsReport up f
          (default_to (pos 90) f.window_max_min_after_open)
          (default_to (lit 4 2) f.min_pct)
          (default_to (lit 12 2) f.max_pct)
          (move_from state.prenews_price state.last_price)
          direction
          state
          v
          cfg
          c
        × (drift_candidate drift direction state v cfg ≡ none)
  unfolding fade_candidate drift_candidate
  fade_candidate-IsReport f drift direction state v cfg c h = ground (
    arith,
    shadow_read-window f (default_to (pos 90) f.window_max_min_after_open)
        (default_to (lit 4 2) f.min_pct) (default_to (lit 12 2) f.max_pct)
        (move_from state.prenews_price state.last_price) state cfg v.rule v.veto_reason
        state.minutes_since_open c,
  )

  -- A drift report is made only for a down thesis vetoed for a configured reason, after the opening
  -- blackout, within its window and on a fall inside its band; the fade lane is then silent.
  pub drift_candidate-IsReport :
      (d : ShadowCfg F) (fade : Option (ShadowCfg F)) (direction : Thesis) (state : MarketState F)
      (v : GateVerdict) (cfg : GateCfg F) (c : Candidate F)
      → drift_candidate (some d) direction state v cfg ≡ some c
      → IsReport down d
          (default_to (pos 240) d.window_max_min_after_open)
          (default_to (lit 1 2) d.min_pct)
          (default_to (lit 15 2) d.max_pct)
          (drop_of state)
          direction
          state
          v
          cfg
          c
        × (fade_candidate fade direction state v cfg ≡ none)
  unfolding fade_candidate drift_candidate
  drift_candidate-IsReport d fade direction state v cfg c h = ground (
    arith,
    shadow_read-window d (default_to (pos 240) d.window_max_min_after_open)
        (default_to (lit 1 2) d.min_pct) (default_to (lit 15 2) d.max_pct) (drop_of state) state cfg
        v.rule v.veto_reason state.minutes_since_open c,
  )
