-- ===== src/Graph/Function/Discovery.antt =====
-- Whole paths: the fold that a search makes with a value function, pruning below the minimum.
use hopr_api.Prelude.{
  ℕ, suc, ◌+◌, ◌-◌, ◌<◌, ◌≡◌, ◌⊎◌, inl, inr, Bool, false, Option, none, some, List, [], ◌∷◌, All,
  arith, Bool-cases, if◌then◌else◌, unwrap_or,
}
use mathlib.Core.Option.{some-injective}
use hopr_api.Float.{Float, lt, ◌≼◌, InUnit, IsPositive}
use hopr_api.Float.Laws.{IsIeee, whole_num, nought_num, nought-le-whole}
use hopr_api.Word.{Word, IsUnsigned, u64_mod}
use hopr_api.Graph.Traits.{EdgeObservableRead}
use hopr_api.Graph.Function.{
  EdgeValueFn, forward, returning, forward_without_self_loopback, default_ticket_face_value,
}
use hopr_api.Graph.Function.Rejection.{IsMeasured, Backed}
use hopr_api.Graph.Function.Accepted.{accepted_funded}
use hopr_api.Graph.Function.Bounds.{value_fn-le}

pub none-some {ℓ} : {A : Type ℓ} {a : A} → none ≡ some a → ⊥
none-some e = cc

module _ {ℓ} {F : Type ℓ} ⦃f : Float F⦄ where
  abbrev below_min : F → Option F → Bool
  below_min value none = false
  below_min value (some least) = lt value least

module _ {ℓ} {F W : Type ℓ} ⦃f : Float F⦄ where
  -- The value of a path whose edges follow from `index` on, or `none` where it was discarded.
  unfoldable pub walk : (F → W → ℕ → F) → Option F → F → ℕ → List W → Option F
  walk fn least cost index [] = some cost
  walk fn least cost index (o ∷ os) =
      let rest = walk fn least (fn cost o index) (suc index) os in
      if below_min (fn cost o index) least then none else rest

  -- The value that a search gives to a whole path.
  unfoldable pub path_value : EdgeValueFn F W → List W → Option F
  path_value v os = walk v.value_fn v.min v.initial 0 os

-- A statement about every edge of a path, with the edge's index.
abbrev pub EachFrom {ℓ κ} : {W : Type ℓ} → (W → ℕ → Type κ) → ℕ → List W → Type κ
EachFrom P index [] = Unit
EachFrom P index (o ∷ os) = P o index × EachFrom P (suc index) os

module _ {ℓ} {F W : Type ℓ} ⦃f : Float F⦄ (laws : IsIeee F) (fn : F → W → ℕ → F)
    (IsSeen : W → Type ℓ)
    (falls : (cost : F) (o : W) (index : ℕ) → InUnit cost → IsSeen o → fn cost o index ≼ cost) where
  open f use {nought, whole}
  open laws use {num_of_le, le_trans, le_total}

  -- A step of a walk that was not discarded.
  pub kept :
      (cost : F) (o : W) (index : ℕ)
      → InUnit cost
      → IsSeen o
      → lt (fn cost o index) nought ≡ false
      → InUnit (fn cost o index)
  kept cost o index c s e =
      let down = falls cost o index c s in
      let num = (num_of_le _ _ down).0 in
      (
        ground (arith, le_total (fn cost o index) nought num (nought_num laws)),
        le_trans _ _ _ down c.1,
      )

  -- A walk goes on past an edge exactly where the edge's value is not below 0.0.
  pub walk_step :
      (os : List W) (cost : F) (o : W) (index : ℕ) {r : F}
      → walk fn (some nought) cost index (o ∷ os) ≡ some r
      → (lt (fn cost o index) nought ≡ false)
        × (walk fn (some nought) (fn cost o index) (suc index) os ≡ some r)
  unfolding walk
  walk_step os cost o index e = elim (Bool-cases (lt (fn cost o index) nought)) [
    | inl b ↦ absurd (none-some (rw b at e))
    | inr b ↦ (b, rw b at e)
  ]

  pub walk_bounds :
      (os : List W) (cost : F) (index : ℕ) {r : F}
      → InUnit cost
      → All IsSeen os
      → walk fn (some nought) cost index os ≡ some r
      → (nought ≼ r) × (r ≼ cost)
  walk_bounds [] cost index c s e =
      unfold walk in rw (← some-injective _ _ e) (c.0, (num_of_le nought cost c.0).1)
  walk_bounds (o ∷ os) cost index c (s, ss) e =
      let (b, e') = walk_step os cost o index e in
      let (low, high) =
        walk_bounds os (fn cost o index) (suc index) (kept cost o index c s b) ss e' in
      (low, le_trans _ _ _ high (falls cost o index c s))

  module _ (Sound : W → ℕ → Type 0)
      (sound : (cost : F) (o : W) (index : ℕ)
        → IsPositive cost
        → nought ≼ fn cost o index
        → Sound o index) where
    -- What an accepted edge proves holds of every edge of a path that keeps a positive value.
    walk_sound :
        (os : List W) (cost : F) (index : ℕ) {r : F}
        → InUnit cost
        → All IsSeen os
        → walk fn (some nought) cost index os ≡ some r
        → ¬ (r ≼ nought)
        → EachFrom Sound index os
    walk_sound [] cost index c s e p = tt
    walk_sound (o ∷ os) cost index c (s, ss) e p =
        let (b, e') = walk_step os cost o index e in
        let u = kept cost o index c s b in
        let (low, high) = walk_bounds (o ∷ os) cost index c (s, ss) e in
        (
          sound cost o index (c.0, λ z. p (le_trans _ _ _ high z)) u.0,
          walk_sound os (fn cost o index) (suc index) u ss e' p,
        )

module _ {ℓ} {F U : Type ℓ} ⦃f : Float F⦄ ⦃w : Word U⦄ (laws : IsIeee F) (words : IsUnsigned U)
    (length : ℕ) (penalty least : F) (face : Option U) where
  open f use {nought, whole}

  -- The edge of this index leads into a relayer, and its channel funds the hops after it.
  abbrev pub FundsRest : EdgeObservableRead F U → ℕ → Type 0
  FundsRest o index =
      index + 1 < length
      → Backed laws words (length - index - 1) (unwrap_or face default_ticket_face_value)
          o.intermediate_qos

  -- A path that a search with any of the three value functions keeps at a positive value is funded:
  -- on every edge but the last of the stated length, the channel is worth the tickets of all the
  -- hops after it. The length fits 64
  -- bits, scores and rates are in [0.0, 1.0] and the penalty is not NaN.
  pub path_funded :
      (os : List (EdgeObservableRead F U)) {r : F}
      → length < u64_mod
      → penalty ≼ penalty
      → All IsMeasured os
      → ¬ (r ≼ nought)
      → (path_value (forward length penalty least face) os ≡ some r)
        ⊎ (path_value (returning length penalty least face) os ≡ some r)
        ⊎ (path_value (forward_without_self_loopback length penalty least face) os ≡ some r)
      → EachFrom FundsRest 0 os
  unfolding path_value forward returning forward_without_self_loopback
  path_funded os u q m p e =
      let start : InUnit whole = (nought-le-whole laws, whole_num laws) in
      let funded =
        λ (cost : F) (o : EdgeObservableRead F U) (index : ℕ) (d : IsPositive cost)
            (inner : index + 1 < length).
          accepted_funded laws words length penalty least face cost o index inner u d in
      let falls =
        λ (cost : F) (o : EdgeObservableRead F U) (index : ℕ) (c : InUnit cost) (s : IsMeasured o).
          value_fn-le laws length penalty least face cost o index q c s in
      elim e [
        | inl a ↦
            walk_sound laws _ IsMeasured (λ c o i d s. (falls c o i d s).0) FundsRest
              (λ c o i d n h. (funded c o i d h).0 n) os whole 0 start m a p
        | inr (inl a) ↦
            walk_sound laws _ IsMeasured (λ c o i d s. (falls c o i d s).1) FundsRest
              (λ c o i d n h. (funded c o i d h).1 n) os whole 0 start m a p
        | inr (inr a) ↦
            walk_sound laws _ IsMeasured (λ c o i d s. (falls c o i d s).2) FundsRest
              (λ c o i d n h. (funded c o i d h).2 n) os whole 0 start m a p
      ]
