-- ===== src/Thesis.antt =====
-- The plan of src/c11_thesis/service.py: which entries a run of `run_thesis_entries` plans. Theses,
-- tickers and decisions are numbered; what the store and the market data answer is an argument.
pub mod Measures
pub mod Caps
pub mod Management
use news_pipeline.Base.{
  ℕ, zero, suc, ◌+◌, ◌-◌, Bool, true, false, not, ◌&&◌, ◌||◌, ◌==◌, leb, Option, none, some, List,
  [], ◌∷◌, ◌++◌, any, length, if◌then◌else◌,
}
use news_pipeline.Base.Int.{ℤ, pos, leb_ℤ}
use news_pipeline.Num.{Num}
use news_pipeline.Thesis.Measures.{
  DailyBar, ThesisCfg, ThesisSkip, min_risk, atr14, last_daily_close, size_position, candidate_skip,
}

-- A row of `load_up_theses`; a beneficiary without a ticker is `none`.
pub record UpThesis : Type 0 where
  pub thesis_id : ℕ
  pub decision_id : ℕ
  pub beneficiaries : List (Option ℕ)

-- What the queries of the run and the market data answer.
pub record PlanFacts (F : Type 0) : Type 0 where
  pub is_held : ℕ → Bool
  pub is_pending : ℕ → Bool
  pub in_cooloff : ℕ → Bool
  pub level : ℕ → Option F
  pub bars : ℕ → Option (List (DailyBar F))
  pub effective : F
  pub open_decisions : List ℕ

-- An entry of `planned`
pub record PlannedEntry (F : Type 0) : Type 0 where
  pub ticker : ℕ
  pub thesis_id : ℕ
  pub qty : ℤ
  pub limit : F

-- An entry of `skips`
pub record SkippedEntry : Type 0 where
  pub ticker : ℕ
  pub thesis_id : ℕ
  pub reason : ThesisSkip

-- The variables of the loops; the lists are newest first.
pub record Plan (F : Type 0) : Type 0 where
  pub planned : List (PlannedEntry F)
  pub skips : List SkippedEntry
  pub per_thesis : ℕ → ℕ

abbrev pub count_if : {A : Type 0} → (A → Bool) → List A → ℕ
count_if p [] = 0
count_if p (x ∷ xs) = (if p x then 1 else 0) + count_if p xs

-- The count of `per_thesis` before the loops: the open positions of each thesis.
unfoldable pub initial_count : List UpThesis → List ℕ → ℕ → ℕ
initial_count [] decisions id = 0
initial_count (t ∷ ts) decisions id =
    (if t.thesis_id == id then count_if (λ d. d == t.decision_id) decisions else 0)
    + initial_count ts decisions id

-- `budget_today`
abbrev pub room_total : ℕ → ℕ → ℕ
room_total max_open open_count = max_open - open_count

abbrev pub budget_today : ℕ → ℕ → ℕ → ℕ
budget_today max_new max_open open_count =
    if leb max_new (room_total max_open open_count) then max_new else room_total max_open open_count

module _ {F : Type 0} ⦃num : Num F⦄ (cfg : ThesisCfg F) (facts : PlanFacts F) where
  open num use {add, mul, round, of_ℤ}

  abbrev pub is_planned : ℕ → List (PlannedEntry F) → Bool
  is_planned ticker = any (λ e. e.ticker == ticker)

  -- The tickers that the loop passes over without a word.
  abbrev pub is_passed_over : ℕ → Plan F → Bool
  is_passed_over ticker st =
      facts.is_held ticker || (facts.is_pending ticker || is_planned ticker st.planned)

  abbrev pub skip_entry : ℕ → ℕ → ThesisSkip → Plan F → Plan F
  skip_entry id ticker reason st = record st {
    skips = record { ticker = ticker; thesis_id = id; reason = reason } ∷ st.skips;
  }

  -- `round(prev_close * (1 + chase_buffer_pct), 2)`
  abbrev pub limit_of : List (DailyBar F) → F
  limit_of daily = round (mul (last_daily_close daily) (add (of_ℤ (pos 1)) cfg.chase_buffer_pct)) 2

  abbrev pub plan_entry : ℕ → ℕ → ℤ → List (DailyBar F) → Plan F → Plan F
  plan_entry id ticker qty daily st = record st {
    planned =
        record { ticker = ticker; thesis_id = id; qty = qty; limit = limit_of daily } ∷ st.planned;
    per_thesis = λ i. if i == id then suc (st.per_thesis i) else st.per_thesis i;
  }

  abbrev pub bars_of : Option (List (DailyBar F)) → List (DailyBar F)
  bars_of none = []
  bars_of (some daily) = daily

  abbrev pub atr_or_zero : Option F → F
  atr_or_zero none = of_ℤ (pos 0)
  atr_or_zero (some atr) = atr

  unfoldable pub sized_qty : List (DailyBar F) → ℤ
  unfolding size_position atr14
  sized_qty daily = size_position cfg facts.effective (atr_or_zero (atr14 daily))

  -- A candidate that is looked at: a skip before the sizing, one by the sizing, or an entry.
  abbrev pub place : ℕ → ℕ → Option ThesisSkip → List (DailyBar F) → Plan F → Plan F
  place id ticker (some reason) daily st = skip_entry id ticker reason st
  place id ticker none daily st =
      if leb_ℤ (pos 1) (sized_qty daily)
      then plan_entry id ticker (sized_qty daily) daily st
      else skip_entry id ticker min_risk st

  unfoldable pub consider : ℕ → ℕ → Plan F → Plan F
  unfolding candidate_skip sized_qty
  consider id ticker st =
      place id ticker
        (candidate_skip cfg (facts.in_cooloff ticker) (facts.bars ticker) (facts.level ticker))
        (bars_of (facts.bars ticker)) st

  -- The loop over the beneficiaries of a thesis.
  unfoldable pub plan_beneficiaries : ℕ → ℕ → List (Option ℕ) → Plan F → Plan F
  unfolding consider
  plan_beneficiaries budget id [] st = st
  plan_beneficiaries budget id (none ∷ bs) st =
      let rest = plan_beneficiaries budget id bs st in
      if leb budget (length st.planned) then st else rest
  plan_beneficiaries budget id (some ticker ∷ bs) st =
      let passed = plan_beneficiaries budget id bs st in
      let considered = plan_beneficiaries budget id bs (consider id ticker st) in
      if leb budget (length st.planned)
      then st
      else if is_passed_over ticker st
      then passed
      else if leb cfg.max_per_thesis (st.per_thesis id)
      then st
      else considered

  -- The loop over the theses.
  unfoldable pub plan_theses : ℕ → List UpThesis → Plan F → Plan F
  unfolding plan_beneficiaries
  plan_theses budget [] st = st
  plan_theses budget (t ∷ ts) st =
      let rest = plan_theses budget ts (plan_beneficiaries budget t.thesis_id t.beneficiaries st) in
      if leb budget (length st.planned) then st else rest

  -- The entry planning of `run_thesis_entries`.
  unfoldable pub entry_plan : List UpThesis → Plan F
  unfolding plan_theses initial_count
  entry_plan theses =
      plan_theses
        (budget_today cfg.max_new_per_day cfg.max_open_positions (length facts.open_decisions))
        theses
        (record {
          planned = [];
          skips = [];
          per_thesis = initial_count theses facts.open_decisions;
        })
