-- ===== src/Float/Fixed.antt =====
-- A type that satisfies the laws: sign, magnitude in units of 1e-270, and NaN.
use native.Mathlib.Nat.{
  mul-le-mul, le_trans, le-div_iff_mul-le, div-mul-le_self, mul-div_cancel, mul-div_cancel_left,
}
use hopr_api.Prelude.{
  ℕ, zero, suc, ◌*◌, ◌/◌, ◌^◌, ◌≤◌, ◌≡◌, refl, ap, Bool, true, false, not, ◌&&◌, arith, leb, ◌==◌,
  if◌then◌else◌,
}
use hopr_api.Float.Defs.{Float, ◌≼◌}
use hopr_api.Float.Laws.{IsIeee, tiny_power}

pub data Fixed : Type 0 where
  nan : Fixed
  plus : ℕ → Fixed
  minus : ℕ → Fixed

abbrev scale : ℕ
scale = 10 ^ 270

abbrev pub flip : Fixed → Fixed
flip nan = nan
flip (plus m) = minus m
flip (minus m) = plus m

-- The product of two magnitudes, rounded down.
unfoldable pub scaled : ℕ → ℕ → ℕ
scaled a b = a * b / scale

scaled_mono : (a b c d : ℕ) → a ≤ b → c ≤ d → scaled a c ≤ scaled b d
unfolding scaled
scaled_mono a b c d h k =
    (le-div_iff_mul-le (omega arith)).1 (le_trans (div-mul-le_self (a * c) scale) (mul-le-mul h k))

scaled-scale : (a : ℕ) → (scaled a scale ≡ a) × (scaled scale a ≡ a)
unfolding scaled
scaled-scale a = (mul-div_cancel a (omega arith), mul-div_cancel_left a (omega arith))

scaled-zero : (a : ℕ) → (scaled a 0 ≡ 0) × (scaled 0 a ≡ 0)
unfolding scaled
scaled-zero a = omega arith

abbrev times : Fixed → Fixed → Fixed
times (plus a) (plus b) = plus (scaled a b)
times (plus a) (minus b) = minus (scaled a b)
times (minus a) (plus b) = minus (scaled a b)
times (minus a) (minus b) = plus (scaled a b)
times _ _ = nan

abbrev below : Fixed → Fixed → Bool
below (plus a) (plus b) = leb a b
below (plus a) (minus b) = a == 0 && b == 0
below (minus a) (plus b) = true
below (minus a) (minus b) = leb b a
below _ _ = false

instance abbrev pub fixed_float : Float Fixed
fixed_float = record {
  nought = plus 0;
  whole = plus scale;
  tiny = plus (10 ^ 261);
  neg = flip;
  mul = times;
  le = below;
}

zeros :
    (a b c d : ℕ)
    → (scaled a 0 ≡ 0) × (scaled 0 c ≡ 0) × (scaled b 0 ≡ 0) × (scaled 0 d ≡ 0) × (scaled 0 0 ≡ 0)
unfolding scaled
zeros a b c d = omega arith

times_mono :
    (a b c d : Fixed)
    → plus 0 ≼ a
    → a ≼ b
    → b ≼ plus scale
    → plus 0 ≼ c
    → c ≼ d
    → d ≼ plus scale
    → times a c ≼ times b d
times_mono (plus a) (plus b) (plus c) (plus d) h i j k l m = ground (arith, scaled_mono a b c d)
times_mono (plus a) (plus b) (plus c) (minus d) h i j k l m = ground (arith, zeros a b c d)
times_mono (plus a) (plus b) (minus c) (plus d) h i j k l m = ground (arith, zeros a b c d)
times_mono (plus a) (plus b) (minus c) (minus d) h i j k l m = ground (arith, zeros a b c d)
times_mono (plus a) (minus b) (plus c) (plus d) h i j k l m = ground (arith, zeros a b c d)
times_mono (plus a) (minus b) (plus c) (minus d) h i j k l m = ground (arith, zeros a b c d)
times_mono (plus a) (minus b) (minus c) (plus d) h i j k l m = ground (arith, zeros a b c d)
times_mono (plus a) (minus b) (minus c) (minus d) h i j k l m = ground (arith, zeros a b c d)
times_mono (minus a) (plus b) (plus c) (plus d) h i j k l m = ground (arith, zeros a b c d)
times_mono (minus a) (plus b) (plus c) (minus d) h i j k l m = ground (arith, zeros a b c d)
times_mono (minus a) (plus b) (minus c) (plus d) h i j k l m = ground (arith, zeros a b c d)
times_mono (minus a) (plus b) (minus c) (minus d) h i j k l m = ground (arith, zeros a b c d)
times_mono (minus a) (minus b) (plus c) (plus d) h i j k l m = ground (arith, zeros a b c d)
times_mono (minus a) (minus b) (plus c) (minus d) h i j k l m = ground (arith, zeros a b c d)
times_mono (minus a) (minus b) (minus c) (plus d) h i j k l m = ground (arith, zeros a b c d)
times_mono (minus a) (minus b) (minus c) (minus d) h i j k l m = ground (arith, zeros a b c d)
times_mono _ _ _ _ h i j k l m = cc

-- The power is above 0.0, and so are all before it.
power_stays : ℕ → Bool
power_stays n = not (below (tiny_power n) (plus 0))

powers_stay : ℕ → Bool
powers_stay zero = power_stays zero
powers_stay (suc n) = if power_stays (suc n) then powers_stay n else false

powers_stay_below : (n m : ℕ) → m ≤ n → powers_stay n ≡ true → power_stays m ≡ true
unfolding powers_stay
powers_stay_below zero m lt h = ground (arith, h)
powers_stay_below (suc n) m lt h = ground (arith, powers_stay_below n m)

thirty_powers : powers_stay 30 ≡ true
unfolding powers_stay power_stays tiny_power scaled
thirty_powers = refl

powers_positive : (n : ℕ) → n ≤ 30 → ¬ (tiny_power n ≼ plus 0)
unfolding power_stays
powers_positive n h e = ground (arith, powers_stay_below 30 n h thirty_powers)

times-scale : (x : Fixed) → x ≼ x → (times x (plus scale) ≡ x) × (times (plus scale) x ≡ x)
times-scale nan h = cc
times-scale (plus m) h = ground (arith, scaled-scale m)
times-scale (minus m) h = ground (arith, scaled-scale m)

pub Fixed-IsIeee : IsIeee Fixed
Fixed-IsIeee = record {
  num_of_le = ground arith;
  le_trans = ground arith;
  le_total = ground arith;
  neg_neg = ground arith;
  le-neg = ground arith;
  nought-le-neg = refl;
  neg-le-nought = refl;
  nought-le-tiny = refl;
  tiny-le-whole = refl;
  mul_mono = times_mono;
  mul-whole = λ x h. (times-scale x h).0;
  whole-mul = λ x h. (times-scale x h).1;
  nought-mul = ap plus (scaled-zero 0).0;
  tiny_power_pos = powers_positive;
}
