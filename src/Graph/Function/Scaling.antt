-- ===== src/Graph/Function/Scaling.antt =====
-- Bounds of the helpers that scale a value: penalties, health and acknowledgement rates.
use hopr_api.Prelude.{
  ◌≡◌, ◌↔◌, inl, inr, false, Option, none, some, arith, Bool-cases, unwrap_or, Every,
}
use hopr_api.Float.{Float, lt, fmax, fmin, ◌≼◌, InUnit, IsPositive}
use hopr_api.Float.Laws.{
  IsIeee, nought_num, whole_num, nought-le-whole, neg-le_self, neg_rejects, mul_bounds,
  tiny-le-fmax, fmax_tiny-le,
}
use hopr_api.Graph.Function.{
  score_or_penalize, judged, scale_by_judged, scale_by_health, apply_ack_rate,
}

-- A health at or below 0.0 marks the relayer as unusable; NaN does not.
abbrev pub Unusable {ℓ} : {F : Type ℓ} ⦃f : Float F⦄ → Option F → Type 0
Unusable ⦃f⦄ none = ⊥
Unusable ⦃f⦄ (some h) = h ≼ f.nought

-- The peer acknowledges enough, or there is no rate yet.
abbrev pub Acknowledges {ℓ} : {F : Type ℓ} ⦃f : Float F⦄ → F → Option F → Type 0
Acknowledges least none = Unit
Acknowledges least (some rate) = lt rate least ≡ false

module _ {ℓ} {F : Type ℓ} ⦃f : Float F⦄ (laws : IsIeee F) where
  open f use {nought, whole, tiny, neg, mul, le}
  open laws use {num_of_le, le_trans, le_total, mul_mono}

  multiplier_bounds :
      (score : Option F) (penalty : F)
      → Every InUnit score
      → InUnit penalty
      → InUnit (fmax (unwrap_or score penalty) tiny) × (tiny ≼ fmax (unwrap_or score penalty) tiny)
  multiplier_bounds none p s q =
      let low = tiny-le-fmax laws p in
      ((le_trans _ _ _ laws.nought-le-tiny low, fmax_tiny-le laws p q.1), low)
  multiplier_bounds (some s) p q _ =
      let low = tiny-le-fmax laws s in
      ((le_trans _ _ _ laws.nought-le-tiny low, fmax_tiny-le laws s q.1), low)

  -- Scaling by a score leaves a value in [0.0, 1.0], no higher, and at least 1e-9 of what it was.
  pub score_or_penalize_bounds :
      (cost : F) (score : Option F) (penalty : F)
      → InUnit cost
      → Every InUnit score
      → InUnit penalty
      → let value = score_or_penalize cost score penalty in
        (nought ≼ value) × (value ≼ cost) × (mul cost tiny ≼ value)
  unfolding score_or_penalize
  score_or_penalize_bounds cost score penalty c s p =
      let (m, low) = multiplier_bounds score penalty s p in
      let (b0, b1) = mul_bounds laws cost _ c m in
      (b0, b1, mul_mono _ _ _ _ c.0 (num_of_le _ _ c.0).1 c.1 laws.nought-le-tiny low m.1)

  -- An acknowledgement rate never raises a value, and rejects exactly below the least rate.
  pub apply_ack_rate-le :
      (rate : Option F) (cost least penalty : F)
      → InUnit cost
      → Every InUnit rate
      → InUnit penalty
      → apply_ack_rate rate cost least penalty ≼ cost
  unfolding apply_ack_rate
  apply_ack_rate-le none cost least penalty c r p = (mul_bounds laws cost penalty c p).1
  apply_ack_rate-le (some rate) cost least penalty c r p =
      ground (arith, mul_bounds laws cost rate c r, neg-le_self laws cost c.0)

  pub apply_ack_rate_nonneg :
      (rate : Option F) (cost least penalty : F)
      → InUnit cost
      → Every InUnit rate
      → InUnit penalty
      → Acknowledges least rate
      → nought ≼ apply_ack_rate rate cost least penalty
  unfolding apply_ack_rate
  apply_ack_rate_nonneg none cost least penalty c r p a = (mul_bounds laws cost penalty c p).0
  apply_ack_rate_nonneg (some rate) cost least penalty c r p a =
      ground (arith, mul_bounds laws cost rate c r)

  pub fmin-InUnit : (h : F) → h ≼ h → le h nought ≡ false → InUnit (fmin h whole)
  fmin-InUnit h n e = ground (
    arith,
    whole_num laws,
    nought-le-whole laws,
    le_total h whole n (whole_num laws),
    le_total h nought n (nought_num laws),
  )

  judged-num : (health : Option F) → Every (λ h. h ≼ h) (judged health)
  judged-num none = tt
  judged-num (some h) = ground arith

  pub scale_by_health_rejected :
      (value : F) (health : Option F) → value ≼ nought → scale_by_health value health ≡ value
  unfolding scale_by_health
  scale_by_health_rejected value health h = rw h

  scale_by_judged-le :
      (value : F) (health : Option F)
      → Every (λ h. h ≼ h) health
      → InUnit value
      → scale_by_judged value health ≼ value
  unfolding scale_by_judged
  scale_by_judged-le value none n v = (num_of_le _ _ v.0).1
  scale_by_judged-le value (some h) n v = elim (Bool-cases (le h nought)) [
    | inl e ↦ rw e (neg-le_self laws value v.0)
    | inr e ↦ rw e (mul_bounds laws value _ v (fmin-InUnit h n e)).1
  ]

  -- Whatever the health is, also above 1.0 or NaN, it never raises a value.
  pub scale_by_health-le :
      (value : F) (health : Option F) → value ≼ whole → scale_by_health value health ≼ value
  unfolding scale_by_health
  scale_by_health-le value health v = elim (Bool-cases (le value nought)) [
    | inl e ↦ rw e (num_of_le _ _ v).0
    | inr e ↦ rw e (
        scale_by_judged-le value (judged health) (judged-num health)
          (ground (arith, le_total value nought (num_of_le _ _ v).0 (nought_num laws)), v))
  ]

  -- A positive value of at most 1.0 stays acceptable exactly when the relayer is not judged unusable.
  pub scale_by_health_iff :
      (value : F) (health : Option F)
      → IsPositive value
      → value ≼ whole
      → (nought ≼ scale_by_health value health) ↔ ¬ Unusable health
  unfolding scale_by_health scale_by_judged
  scale_by_health_iff value none (p, q) v = (λ _ u. u, ground arith)
  scale_by_health_iff value (some h) (p, q) v = ground (
    arith,
    neg_rejects laws value (p, q),
    num_of_le h nought,
    mul_bounds laws value (fmin h whole) (p, v),
    fmin-InUnit h,
  )
