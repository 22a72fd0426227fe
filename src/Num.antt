-- ===== src/Num.antt =====
-- Floating-point numbers as an interface: the operations that the program's arithmetic uses
-- (`float` and `round`, `math.floor`, the comparisons), and the facts about them that it relies on.
use news_pipeline.Base.{ℕ, Bool, true, false, ◌≡◌, Option, none, some, if◌then◌else◌}
use news_pipeline.Base.Int.{ℤ, pos, negsuc, ◌≤ℤ◌}
pub mod Fixed

-- The operations on Python's floats. The carrier stands for the finite values.
pub record Num (F : Type 0) : Type 0 where
  -- `float(n)`
  pub of_ℤ : ℤ → F
  -- the literal m * 10^(-d)
  pub lit : ℕ → ℕ → F
  pub add : F → F → F
  pub sub : F → F → F
  pub mul : F → F → F
  pub div : F → F → F
  -- `x // y`, which divides exactly before it rounds down
  pub floor_div : F → F → F
  pub neg : F → F
  -- `round(x, digits)`, `math.floor(x)`, `round(x)`
  pub round : F → ℕ → F
  pub floor : F → ℤ
  pub nearest : F → ℤ
  pub is_lt : F → F → Bool
  pub is_le : F → F → Bool
  pub is_eq : F → F → Bool

module _ {F : Type 0} ⦃num : Num F⦄ where
  open num use {of_ℤ, neg, is_lt, is_eq}

  -- `0.0`
  abbrev pub zero_f : F
  zero_f = of_ℤ (pos 0)

  -- `bool(x)` of a float
  abbrev pub truthy : F → Bool
  truthy x = if is_eq x zero_f then false else true

  -- `x or d`, where `x` is `None` or a float
  abbrev pub or_else : Option F → F → F
  or_else none d = d
  or_else (some x) d = if truthy x then x else d

  -- Python's `max` and `min` keep the first argument on a tie.
  abbrev pub max_f : F → F → F
  max_f a b = if is_lt a b then b else a

  abbrev pub min_f : F → F → F
  min_f a b = if is_lt b a then b else a

  abbrev pub abs_f : F → F
  abs_f x = if is_lt x zero_f then neg x else x

  infix 50 ◌≤f◌ ◌<f◌
  abbrev pub ◌≤f◌ : F → F → Type 0
  a ≤f b = num.is_le a b ≡ true

  abbrev pub ◌<f◌ : F → F → Type 0
  a <f b = num.is_lt a b ≡ true

-- What IEEE arithmetic promises of finite values: a total order, rounding that respects it, and
-- exact results where the source leans on them.
pub record IsFloat (F : Type 0) ⦃num : Num F⦄ : Type 0 where
  pub le_refl : (a : F) → a ≤f a
  pub le_trans : (a b c : F) → a ≤f b → b ≤f c → a ≤f c
  pub lt_not_ge : (a b : F) → num.is_lt a b ≡ (if num.is_le b a then false else true)
  pub le_of_lt : (a b : F) → a <f b → a ≤f b
  pub sub_mono : (a b c : F) → a ≤f b → num.sub a c ≤f num.sub b c
  pub sub_anti : (a b c : F) → a ≤f b → num.sub c b ≤f num.sub c a
  -- gradual underflow: a difference is negative exactly if the operands are in that order
  pub sub_sign : (a b : F) → num.is_le zero_f (num.sub a b) ≡ num.is_le b a
  pub neg_sub : (a b : F) → num.is_le zero_f (num.neg (num.sub a b)) ≡ num.is_le a b
  pub round_mono : (a b : F) (d : ℕ) → a ≤f b → num.round a d ≤f num.round b d
  pub floor_le : (a : F) → num.of_ℤ (num.floor a) ≤f a
  pub floor_mono : (a b : F) → a ≤f b → num.floor a ≤ℤ num.floor b
  pub floor_of_ℤ : (z : ℤ) → num.floor (num.of_ℤ z) ≡ z
  pub mul_one : (a : F) → num.mul (num.of_ℤ (pos 1)) a ≡ a
  pub mul_minus_one : (a : F) → num.mul (num.of_ℤ (negsuc 0)) a ≡ num.neg a
