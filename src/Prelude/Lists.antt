-- ===== src/Prelude/Lists.antt =====
-- Lists under native numbers, and membership by an `Eq` instance.
use Prim.Native.Nat.{ℕ, suc, ◌+◌}
use mathlib.Core.Path.{◌≡◌, refl, ap, sym}
use mathlib.Core.Logic.{inl, inr}
use mathlib.Core.Bool.{Bool, true, false, ◌&&◌, ◌||◌}
use mathlib.Core.List.{List, [], ◌∷◌, ◌++◌, map, Memᴰ}
use native.Mathlib.Omega.{arith}
use hopr_api.Prelude.Tests.{Eq, or_iff, Bool-cases}

module _ {ℓ} {A : Type ℓ} where
  abbrev pub length : List A → ℕ
  length [] = 0
  length (x ∷ xs) = suc (length xs)

  abbrev pub All {κ} : (A → Type κ) → List A → Type κ
  All P [] = Unit
  All P (x ∷ xs) = P x × All P xs

  pub All-Memᴰ {κ} : (P : A → Type κ) {x : A} (xs : List A) → All P xs → Memᴰ x xs → P x
  All-Memᴰ P [] ps m = elim m [ ]
  All-Memᴰ P (y ∷ xs) (p, ps) (Memᴰ.head h) = rw h p
  All-Memᴰ P (y ∷ xs) (p, ps) (Memᴰ.tail m) = All-Memᴰ P xs ps m

  -- `Iterator::all`
  abbrev pub every : (A → Bool) → List A → Bool
  every test [] = true
  every test (x ∷ xs) = test x && every test xs

  pub length-append : (xs ys : List A) → length (xs ++ ys) ≡ length xs + length ys
  length-append [] ys = omega arith
  length-append (x ∷ xs) ys = omega (arith, length-append xs ys)

module _ {ℓ} {A : Type ℓ} ⦃e : Eq A⦄ where
  -- `slice::contains`
  unfoldable pub contains : List A → A → Bool
  contains [] a = false
  contains (x ∷ xs) a = e.beq x a || contains xs a

  pub contains_sound : (xs : List A) (a : A) → contains xs a ≡ true → Memᴰ a xs
  unfolding contains
  contains_sound [] a h = cc
  contains_sound (x ∷ xs) a h = elim (Bool-cases (e.beq x a)) [
    | inl same ↦ Memᴰ.head (sym ((e.beq_iff x a).0 same))
    | inr other ↦ Memᴰ.tail (contains_sound xs a (rw other at h))
  ]

  pub contains_complete : (xs : List A) (a : A) → Memᴰ a xs → contains xs a ≡ true
  unfolding contains
  contains_complete [] a m = elim m [ ]
  contains_complete (x ∷ xs) a (Memᴰ.head h) = rw ((e.beq_iff x a).1 (sym h))
  contains_complete (x ∷ xs) a (Memᴰ.tail m) =
      (or_iff _ _ (e.beq_iff x a) (λ h. h, λ h. h)).1 (inr (contains_complete xs a m))

module _ {ℓ κ} {A : Type ℓ} {B : Type κ} where
  pub length-map : (f : A → B) (xs : List A) → length (map f xs) ≡ length xs
  length-map f [] = refl
  length-map f (x ∷ xs) = ap suc (length-map f xs)
