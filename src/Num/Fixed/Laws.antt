-- ===== src/Num/Fixed/Laws.antt =====
-- The fixed-point carrier has every law that the models assume of floats.
use news_pipeline.Base.{ℕ, zero, suc, ◌≡◌, arith, true, false, if◌then◌else◌}
use news_pipeline.Base.Int.{ℤ, pos, negsuc, ◌≤ℤ◌}
use news_pipeline.Num.{IsFloat, ◌≤f◌, ◌<f◌, zero_f}
use news_pipeline.Num.Fixed.{Fixed, fx, fixed_round, fixed_num, fixed_of_ℤ, fixed_floor}

le_trans_lem : (a b c : Fixed) → a ≤f b → b ≤f c → a ≤f c
le_trans_lem (fx a) (fx b) (fx c) p q = ground arith

lt_not_ge_lem : (a b : Fixed) → fixed_num.is_lt a b ≡ (if fixed_num.is_le b a then false else true)
lt_not_ge_lem (fx a) (fx b) = ground arith

le_of_lt_lem : (a b : Fixed) → a <f b → a ≤f b
le_of_lt_lem (fx a) (fx b) p = ground arith

sub_mono_lem : (a b c : Fixed) → a ≤f b → fixed_num.sub a c ≤f fixed_num.sub b c
sub_mono_lem (fx a) (fx b) (fx c) p = ground arith

sub_anti_lem : (a b c : Fixed) → a ≤f b → fixed_num.sub c b ≤f fixed_num.sub c a
sub_anti_lem (fx a) (fx b) (fx c) p = ground arith

sub_sign_lem : (a b : Fixed) → fixed_num.is_le zero_f (fixed_num.sub a b) ≡ fixed_num.is_le b a
sub_sign_lem (fx a) (fx b) = ground arith

neg_sub_lem :
    (a b : Fixed) → fixed_num.is_le zero_f (fixed_num.neg (fixed_num.sub a b)) ≡ fixed_num.is_le a b
neg_sub_lem (fx a) (fx b) = ground arith

floor_le_lem : (a : Fixed) → fixed_of_ℤ (fixed_floor a) ≤f a
floor_le_lem (fx (pos a)) = ground arith
floor_le_lem (fx (negsuc a)) = ground arith

floor_mono_lem : (a b : Fixed) → a ≤f b → fixed_floor a ≤ℤ fixed_floor b
floor_mono_lem (fx a) (fx b) p = ground arith

floor_of_ℤ_lem : (z : ℤ) → fixed_floor (fixed_of_ℤ z) ≡ z
floor_of_ℤ_lem (pos a) = ground arith
floor_of_ℤ_lem (negsuc a) = ground arith

mul_one_lem : (a : Fixed) → fixed_num.mul (fixed_num.of_ℤ (pos 1)) a ≡ a
mul_one_lem (fx (pos a)) = ground arith
mul_one_lem (fx (negsuc a)) = ground arith

mul_minus_one_lem : (a : Fixed) → fixed_num.mul (fixed_num.of_ℤ (negsuc 0)) a ≡ fixed_num.neg a
mul_minus_one_lem (fx (pos a)) = ground arith
mul_minus_one_lem (fx (negsuc a)) = ground arith

round_mono_lem : (a b : Fixed) (d : ℕ) → a ≤f b → fixed_round a d ≤f fixed_round b d
round_mono_lem (fx a) (fx b) zero p = ground arith
round_mono_lem (fx a) (fx b) (suc zero) p = ground arith
round_mono_lem (fx a) (fx b) (suc (suc zero)) p = ground arith
round_mono_lem (fx a) (fx b) (suc (suc (suc zero))) p = ground arith
round_mono_lem (fx a) (fx b) (suc (suc (suc (suc d)))) p = p

le_refl_lem : (a : Fixed) → a ≤f a
le_refl_lem (fx a) = ground arith

pub Fixed-IsFloat : IsFloat Fixed
Fixed-IsFloat = record {
  le_refl = le_refl_lem;
  le_trans = le_trans_lem;
  lt_not_ge = lt_not_ge_lem;
  le_of_lt = le_of_lt_lem;
  sub_mono = sub_mono_lem;
  sub_anti = sub_anti_lem;
  sub_sign = sub_sign_lem;
  neg_sub = neg_sub_lem;
  round_mono = round_mono_lem;
  floor_le = floor_le_lem;
  floor_mono = floor_mono_lem;
  floor_of_ℤ = floor_of_ℤ_lem;
  mul_one = mul_one_lem;
  mul_minus_one = mul_minus_one_lem;
}
