-- ===== src/Router.antt =====
-- src/router/rules.py: the routing rules, with the priority score of src/router/facts.py.
pub mod Routes
use news_pipeline.Base.{
  ℕ, ◌-◌, Bool, true, false, not, ◌||◌, Option, none, some, List, [], ◌∷◌, ◌++◌, is_empty, is_none,
  leb, if◌then◌else◌,
}
use news_pipeline.Base.Int.{ℤ, pos, negsuc, ◌+ℤ◌, ◌-ℤ◌, ◌*ℤ◌, ltb_ℤ, leb_ℤ}
use news_pipeline.Num.{Num}

pub data QueueName : Type 0 where
  guard_queue thesis_queue analyst_queue overnight_queue : QueueName

pub data Origin : Type 0 where
  eh_shadow thesis_copy : Origin

-- `Route`
pub record Route : Type 0 where
  pub queue : QueueName
  pub priority : ℤ
  pub origin : Option Origin

pub data Action : Type 0 where
  escalate discard : Action

-- `RoutingDecision`
pub record RoutingDecision : Type 0 where
  pub action : Action
  pub routes : List Route

-- The fields of `TriageOutput` and of `RoutingFacts` that the rules read; tickers are numbered.
pub record Triage (F : Type 0) : Type 0 where
  pub material : Bool
  pub confidence : F
  pub tickers : List ℕ

pub record Facts : Type 0 where
  pub market_open : Bool
  pub position_ids : List ℕ
  pub priority_score : ℤ
  pub eh_session : Bool

-- The keyword arguments of `route`.
pub record Levers (F : Type 0) : Type 0 where
  pub overnight_base : ℤ
  pub min_confidence : F
  pub eh_shadow_on : Bool
  pub thesis_copy_min_score : Option ℤ

abbrev pub max_ℤ : ℤ → ℤ → ℤ
max_ℤ a b = if ltb_ℤ a b then b else a

abbrev pub min_ℤ : ℤ → ℤ → ℤ
min_ℤ a b = if ltb_ℤ b a then b else a

abbrev pub to_queue : QueueName → ℤ → Option Origin → Route
to_queue q priority origin = record { queue = q; priority = priority; origin = origin }

-- Rule 1.
unfoldable pub guard_routes : Facts → List Route
guard_routes facts =
    if is_empty facts.position_ids then [] else to_queue guard_queue (pos 0) none ∷ []

-- Rule 4.
unfoldable pub session_routes : {F : Type 0} → Facts → Levers F → List Route
session_routes facts l =
    if facts.market_open
    then to_queue analyst_queue (pos 100) none ∷ []
    else to_queue overnight_queue (max_ℤ (pos 0) (l.overnight_base -ℤ facts.priority_score)) none
      ∷ (if l.eh_shadow_on
          then (if facts.eh_session
              then to_queue analyst_queue (pos 100) (some eh_shadow) ∷ []
              else [])
          else [])

-- Rule 5.
unfoldable pub copy_routes : Option ℤ → Facts → List Route
copy_routes none facts = []
copy_routes (some least) facts =
    if leb_ℤ least facts.priority_score
    then to_queue thesis_queue (max_ℤ (pos 0) (pos 100 -ℤ facts.priority_score)) (some thesis_copy)
      ∷ []
    else []

module _ {F : Type 0} ⦃num : Num F⦄ where
  open num use {is_lt, mul, of_ℤ, nearest}

  unfoldable pub route : Triage F → Facts → Levers F → RoutingDecision
  unfolding guard_routes session_routes copy_routes
  route triage facts l =
      if not triage.material || is_lt triage.confidence l.min_confidence
      then record { action = discard; routes = guard_routes facts }
      else if is_empty triage.tickers
      then record {
        action = escalate;
        routes = guard_routes facts ++ to_queue thesis_queue (pos 100) none ∷ [];
      }
      else record {
        action = escalate;
        routes =
            guard_routes facts
            ++ session_routes facts l
            ++ copy_routes l.thesis_copy_min_score facts;
      }

  -- `priority_score` of facts.py; the weights are the values looked up in the configuration.
  unfoldable pub priority_score : ℤ → ℤ → F → ℤ → ℤ → ℤ → ℤ
  priority_score tier_w urg_w novelty independent_outlets bonus cap =
      let corroboration = min_ℤ ((max_ℤ independent_outlets (pos 1) -ℤ pos 1) *ℤ bonus) cap in
      tier_w +ℤ urg_w +ℤ nearest (mul novelty (of_ℤ (pos 4))) +ℤ corroboration
