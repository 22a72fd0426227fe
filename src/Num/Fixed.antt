-- ===== src/Num/Fixed.antt =====
-- A concrete carrier for `Num`: decimal fixed point with four digits, as an integer count of
-- ten-thousandths. The witnesses run the models on it.
pub mod Laws
use news_pipeline.Base.{
  ℕ, zero, suc, ◌+◌, ◌-◌, ◌*◌, ◌/◌, ◌%◌, ◌≤◌, ◌≡◌, refl, Bool, true, false, arith, ltb, leb, ◌==◌,
  if◌then◌else◌,
}
use news_pipeline.Base.Int.{
  ℤ, pos, negsuc, pos_part, neg_part, sub_ℕ, ◌+ℤ◌, ◌-ℤ◌, ◌*ℤ◌, ◌≤ℤ◌, ltb_ℤ, leb_ℤ, eqb_ℤ,
}
use news_pipeline.Num.{Num}

pub data Fixed : Type 0 where
  fx : ℤ → Fixed

abbrev pub units : Fixed → ℤ
units (fx z) = z

abbrev pow10 : ℕ → ℕ
pow10 zero = 1
pow10 (suc d) = 10 * pow10 d

-- A magnitude divided towards zero, with its sign kept.
abbrev pub quot_ℤ : ℤ → ℕ → ℤ
quot_ℤ z k = sub_ℕ (pos_part z / k) (neg_part z / k)

abbrev pub fixed_of_ℤ : ℤ → Fixed
fixed_of_ℤ z = fx (sub_ℕ (10000 * pos_part z) (10000 * neg_part z))

abbrev fixed_div : Fixed → Fixed → Fixed
fixed_div (fx a) (fx b) = fx (
    sub_ℕ ((10000 * pos_part a) / pos_part b + (10000 * neg_part a) / neg_part b)
      ((10000 * pos_part a) / neg_part b + (10000 * neg_part a) / pos_part b))

abbrev ceil_div : ℕ → ℕ → ℕ
ceil_div a b = (a + b - 1) / b

abbrev fixed_floor_div : Fixed → Fixed → Fixed
fixed_floor_div (fx a) (fx b) = fixed_of_ℤ (
    sub_ℕ (pos_part a / pos_part b + neg_part a / neg_part b)
      (ceil_div (pos_part a) (neg_part b) + ceil_div (neg_part a) (pos_part b)))

-- To a multiple of k units, towards zero.
abbrev pub to_multiple : ℤ → ℕ → ℤ
to_multiple z k = sub_ℕ (pos_part z / k * k) (neg_part z / k * k)

-- To d digits, of which the carrier holds four.
abbrev pub fixed_round : Fixed → ℕ → Fixed
fixed_round (fx a) zero = fx (to_multiple a 10000)
fixed_round (fx a) (suc zero) = fx (to_multiple a 1000)
fixed_round (fx a) (suc (suc zero)) = fx (to_multiple a 100)
fixed_round (fx a) (suc (suc (suc zero))) = fx (to_multiple a 10)
fixed_round (fx a) (suc (suc (suc (suc d)))) = fx a

abbrev pub fixed_floor : Fixed → ℤ
fixed_floor (fx a) = sub_ℕ (pos_part a / 10000) ((neg_part a + 9999) / 10000)

abbrev fixed_neg : Fixed → Fixed
fixed_neg (fx a) = fx (sub_ℕ (neg_part a) (pos_part a))

instance abbrev pub fixed_num : Num Fixed
fixed_num = record {
  of_ℤ = fixed_of_ℤ;
  lit = λ m d. fx (pos (m * 10000 / pow10 d));
  add = λ a b. fx (units a +ℤ units b);
  sub = λ a b. fx (units a -ℤ units b);
  mul = λ a b. fx (quot_ℤ (units a *ℤ units b) 10000);
  div = fixed_div;
  floor_div = fixed_floor_div;
  neg = fixed_neg;
  round = fixed_round;
  floor = fixed_floor;
  nearest = λ a. fixed_floor (fx (units a +ℤ pos 5000));
  is_lt = λ a b. ltb_ℤ (units a) (units b);
  is_le = λ a b. leb_ℤ (units a) (units b);
  is_eq = λ a b. eqb_ℤ (units a) (units b);
}
