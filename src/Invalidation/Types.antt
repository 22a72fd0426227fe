-- ===== src/Invalidation/Types.antt =====
-- The data of src/common/invalidation_dsl.py. The vocabularies are data types, so a specification
-- with an unknown word cannot be written; what is left to check is what `validate` checks of numbers.
use news_pipeline.Base.{ℕ, Bool, true, false, Option, List, ◌≡◌, refl}
use news_pipeline.Engine.{FireAction}

pub data Metric : Type 0 where
  close low high last vwap volume_ratio drawdown_r : Metric

pub data Tf : Type 0 where
  one_min five_min fifteen_min session : Tf

pub data Op : Type 0 where
  lt le gt ge cross_below cross_above : Op

-- `REFS` and the lazy `__vwap__`.
pub data Ref : Type 0 where
  prenews_price entry_price initial_stop prior_day_low prior_day_high day_open vwap_ref : Ref

pub data Value (F : Type 0) : Type 0 where
  literal : F → Value F
  ref : Ref → Option F → Value F

pub record Cond (F : Type 0) : Type 0 where
  pub metric : Metric
  pub tf : Tf
  pub op : Op
  pub value : Value F

-- The custom form of a specification.
pub record Spec (F : Type 0) : Type 0 where
  pub conds : List (Cond F)
  pub persist : ℕ
  pub action : FireAction F

-- The names of `STDLIB`, and the parameters of its `_params`.
pub data Std : Type 0 where
  close_below_prenews session_close_below_prior_low close_above_prenews : Std
  session_close_above_prior_high vwap_loss_on_volume give_back_from_entry break_of_day_open : Std

pub data Param : Type 0 where
  vol_mult r_param : Param

pub data AnySpec (F : Type 0) : Type 0 where
  std : Std → List (Param × F) → AnySpec F
  custom : Spec F → AnySpec F

pub data MipError : Type 0 where
  schema unresolvable_ref absurd_level immediate_fire : MipError

pub data Checked (A : Type 0) : Type 0 where
  accepted : A → Checked A
  raised : MipError → Checked A

infixl 5 ◌>>◌ ◌>>=◌
-- A check that is left for its effect only.
abbrev pub ◌>>◌ : {B : Type 0} → Checked (Unit {0}) → Checked B → Checked B
raised code >> next = raised code
accepted done >> next = next

abbrev pub ◌>>=◌ : {B A : Type 0} → Checked A → (A → Checked B) → Checked B
raised code >>= next = raised code
accepted value >>= next = next value

-- `if not test: raise MIPError(error)`
abbrev pub require : Bool → MipError → Checked (Unit {0})
require false code = raised code
require true code = accepted tt

pub record ArmContext (F : Type 0) : Type 0 where
  pub entry_price : F
  pub initial_stop : F
  pub r_unit : F
  pub prenews_price : Option F
  pub prior_day_low : Option F
  pub prior_day_high : Option F
  pub day_open : Option F
  pub mark : Option F

pub record MipBar (F : Type 0) : Type 0 where
  pub tf : Tf
  pub high : F
  pub low : F
  pub close : F
  pub vwap : F
  pub volume_ratio : F

pub data Lazy : Type 0 where
  lazy_vwap lazy_day_open : Lazy

pub record CompiledCond (F : Type 0) : Type 0 where
  pub metric : Metric
  pub tf : Tf
  pub op : Op
  pub value : Option F
  pub lazy_ref : Option Lazy
  pub entry_price : F
  pub r_unit : F
  pub prev : Option F

pub record CompiledPredicate (F : Type 0) : Type 0 where
  pub conds : List (CompiledCond F)
  pub persist_bars : ℕ
  pub action : FireAction F
  pub streak : ℕ
  pub fired : Bool

-- A chain that is accepted accepted its first part.
pub bind_accepted :
    {B A : Type 0} (part : Checked A) (next : A → Checked B) {result : B}
    → (part >>= next) ≡ accepted result
    → (value : A) × (part ≡ accepted value) × (next value ≡ accepted result)
bind_accepted (raised code) next h = cc
bind_accepted (accepted value) next h = (value, refl, h)

pub require-accepted :
    {B : Type 0} (test : Bool) (code : MipError) (next : Checked B) {result : B}
    → (require test code >> next) ≡ accepted result
    → (test ≡ true) × (next ≡ accepted result)
require-accepted true code next h = (refl, h)
require-accepted false code next h = cc
