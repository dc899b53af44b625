-- ===== src/Float/Laws.antt =====
-- The facts of IEEE 754 doubles that the proofs use, and what follows from them for the operations
-- of the standard library.
use hopr_api.Prelude.{ℕ, zero, suc, ◌≤◌, ◌≡◌, ◌⊎◌, arith}
use hopr_api.Float.Defs.{Float, fmax, clamp_unit, ◌≼◌, InUnit, IsPositive}

-- 1e-9 multiplied by itself, `n` factors, in the order in which a fold multiplies.
unfoldable pub tiny_power {ℓ} : {F : Type ℓ} ⦃f : Float F⦄ → ℕ → F
tiny_power ⦃f⦄ zero = f.whole
tiny_power ⦃f⦄ (suc n) = f.mul (tiny_power n) f.tiny

pub record IsIeee {ℓ} (F : Type ℓ) ⦃f : Float F⦄ : Type ℓ where
  -- `<=` holds only between numbers, and orders them totally.
  pub num_of_le : (x y : F) → x ≼ y → (x ≼ x) × (y ≼ y)
  pub le_trans : (x y z : F) → x ≼ y → y ≼ z → x ≼ z
  pub le_total : (x y : F) → x ≼ x → y ≼ y → (x ≼ y) ⊎ (y ≼ x)
  -- Negation flips the sign bit.
  pub neg_neg : (x : F) → f.neg (f.neg x) ≡ x
  pub le-neg : (x y : F) → f.le (f.neg x) (f.neg y) ≡ f.le y x
  pub nought-le-neg : f.nought ≼ f.neg f.nought
  pub neg-le-nought : f.neg f.nought ≼ f.nought
  pub nought-le-tiny : f.nought ≼ f.tiny
  pub tiny-le-whole : f.tiny ≼ f.whole
  -- Rounding is monotone, and exact where a factor is 1.0.
  pub mul_mono :
      (a b c d : F)
      → f.nought ≼ a
      → a ≼ b
      → b ≼ f.whole
      → f.nought ≼ c
      → c ≼ d
      → d ≼ f.whole
      → f.mul a c ≼ f.mul b d
  pub mul-whole : (x : F) → x ≼ x → f.mul x f.whole ≡ x
  pub whole-mul : (x : F) → x ≼ x → f.mul f.whole x ≡ x
  pub nought-mul : f.mul f.nought f.nought ≡ f.nought
  -- 1e-270 is far above the least positive double.
  pub tiny_power_pos : (n : ℕ) → n ≤ 30 → ¬ (tiny_power n ≼ f.nought)

module _ {ℓ} {F : Type ℓ} ⦃f : Float F⦄ (laws : IsIeee F) where
  open f use {nought, whole, tiny, neg, mul}
  open laws use {
    num_of_le, le_trans, le_total, neg_neg, le-neg, nought-le-neg, neg-le-nought, nought-le-tiny,
    tiny-le-whole, mul_mono, mul-whole, nought-mul,
  }

  pub nought_num : nought ≼ nought
  nought_num = (num_of_le _ _ nought-le-tiny).0

  pub whole_num : whole ≼ whole
  whole_num = (num_of_le _ _ tiny-le-whole).1

  pub nought-le-whole : nought ≼ whole
  nought-le-whole = le_trans _ _ _ nought-le-tiny tiny-le-whole

  -- Negating a number that is not negative gives one that is not positive.
  pub neg-le_of_nonneg : (x : F) → nought ≼ x → neg x ≼ nought
  neg-le_of_nonneg x h = le_trans _ _ _ (rw (le-neg x nought) h) neg-le-nought

  -- A positive number negated is below 0.0.
  pub neg_rejects : (x : F) → IsPositive x → ¬ (nought ≼ neg x)
  neg_rejects x (h, p) below = p (rw (le-neg nought x) at (le_trans _ _ _ neg-le-nought below))

  pub neg-le_self : (x : F) → nought ≼ x → neg x ≼ x
  neg-le_self x h = le_trans _ _ _ (neg-le_of_nonneg x h) h

  pub clamp_unit-InUnit : (x : F) → x ≼ x → InUnit (clamp_unit x)
  clamp_unit-InUnit x h = ground (
    arith,
    nought_num,
    whole_num,
    nought-le-whole,
    le_total x nought h nought_num,
    le_total x whole h whole_num,
  )

  -- A product of two numbers in [0.0, 1.0] is in it, and not above the first.
  pub mul_bounds : (a c : F) → InUnit a → InUnit c → (nought ≼ mul a c) × (mul a c ≼ a)
  mul_bounds a c (a0, a1) (c0, c1) = (
    rw nought-mul at (mul_mono _ _ _ _ nought_num a0 a1 nought_num c0 c1),
    rw (mul-whole a (num_of_le _ _ a1).0) at
        (mul_mono _ _ _ _ a0 (num_of_le _ _ a1).0 a1 c0 c1 whole_num),
  )

  -- `multiplier.max(1e-9)` is at least 1e-9, also where the multiplier is NaN.
  pub tiny-le-fmax : (x : F) → tiny ≼ fmax x tiny
  tiny-le-fmax x = ground (arith, num_of_le tiny whole tiny-le-whole, le_total x tiny)

  pub fmax_tiny-le : (x : F) → x ≼ whole → fmax x tiny ≼ whole
  fmax_tiny-le x h = ground (arith, tiny-le-whole)
