-- ===== src/Float/Defs.antt =====
-- The interface to doubles, and the standard library's operations on it.
use hopr_api.Prelude.{◌≡◌, Bool, true, not, ◌&&◌, if◌then◌else◌}

pub record Float {ℓ} (F : Type ℓ) : Type ℓ where
  pub nought : F  -- 0.0
  pub whole : F  -- 1.0
  pub tiny : F  -- 1e-9
  pub neg : F → F
  pub mul : F → F → F
  pub le : F → F → Bool

module _ {ℓ} {F : Type ℓ} ⦃f : Float F⦄ where
  open f use {nought, whole, neg, mul, le}

  -- `x < y`; with a NaN on either side it is false.
  abbrev pub lt : F → F → Bool
  lt x y = le x y && not (le y x)

  abbrev pub is_nan : F → Bool
  is_nan x = not (le x x)

  -- `f64::max` and `f64::min` return the other operand when one is NaN.
  abbrev pub fmax : F → F → F
  fmax x y = if is_nan x then y else if is_nan y then x else if lt x y then y else x

  abbrev pub fmin : F → F → F
  fmin x y = if is_nan x then y else if is_nan y then x else if lt y x then y else x

  -- `f64::clamp(0.0, 1.0)`; a NaN stays NaN.
  abbrev pub clamp_unit : F → F
  clamp_unit x = let y = if lt x nought then nought else x in if lt whole y then whole else y

infix 45 ◌≼◌
abbrev pub ◌≼◌ {ℓ} : {F : Type ℓ} ⦃f : Float F⦄ → F → F → Type 0
◌≼◌ ⦃f⦄ x y = f.le x y ≡ true

-- A number in [0.0, 1.0].
abbrev pub InUnit {ℓ} : {F : Type ℓ} ⦃f : Float F⦄ → F → Type 0
InUnit ⦃f⦄ x = (f.nought ≼ x) × (x ≼ f.whole)

-- A number above 0.0.
abbrev pub IsPositive {ℓ} : {F : Type ℓ} ⦃f : Float F⦄ → F → Type 0
IsPositive ⦃f⦄ x = (f.nought ≼ x) × ¬ (x ≼ f.nought)
