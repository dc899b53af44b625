-- ===== src/Graph/Function/Bounds.antt =====
-- No edge raises the value of a path.
use hopr_api.Prelude.{ℕ, ◌+◌, ◌%◌, inl, inr, Option, Bool-cases, ltb, Every}
use hopr_api.Float.{Float, ◌≼◌, InUnit}
use hopr_api.Float.Laws.{IsIeee, clamp_unit-InUnit, mul_bounds, neg-le_self}
use hopr_api.Word.{Word, u64_mod}
use hopr_api.Graph.Traits.{EdgeObservableRead}
use hopr_api.Graph.Function.{
  Terms, terms, scale_by_health, score_or_penalize, apply_ack_rate, forward_edge_value,
  returning_edge_value, loopback_edge_value, but_last_by_health, forward, returning,
  forward_without_self_loopback,
}
use hopr_api.Graph.Function.Scaling.{
  score_or_penalize_bounds, apply_ack_rate-le, scale_by_health-le,
}
use hopr_api.Graph.Function.Rejection.{IsMeasured}
use hopr_api.Graph.Function.Arms.{edges-Hold}

module _ {ℓ} {F : Type ℓ} ⦃f : Float F⦄ (laws : IsIeee F) where
  open f use {nought, whole, neg, mul}
  open laws use {le_trans}

  scored-le :
      (cost : F) (c : InUnit cost) (score : Option F) (penalty : F)
      → Every InUnit score
      → InUnit penalty
      → score_or_penalize cost score penalty ≼ cost
  scored-le cost c score penalty s q = (score_or_penalize_bounds laws cost score penalty c s q).1

  acked-le :
      (cost : F) (c : InUnit cost) (rate score : Option F) (least penalty : F)
      → Every InUnit rate
      → Every InUnit score
      → InUnit penalty
      → apply_ack_rate rate (score_or_penalize cost score penalty) least penalty ≼ cost
  acked-le cost c rate score least penalty r s q =
      let (b0, b1, _) = score_or_penalize_bounds laws cost score penalty c s q in
      le_trans _ _ _ (apply_ack_rate-le laws rate _ least penalty (b0, le_trans _ _ _ b1 c.1) r q)
        b1

  rejected-le : (cost : F) (c : InUnit cost) → neg cost ≼ cost
  rejected-le cost c = neg-le_self laws cost c.0

  scaled-le :
      (cost value : F) (health : Option F)
      → InUnit cost
      → value ≼ cost
      → scale_by_health value health ≼ cost
  scaled-le cost value health c v =
      le_trans _ _ _ (scale_by_health-le laws value health (le_trans _ _ _ v c.1)) v

module _ {ℓ} {F U : Type ℓ} ⦃f : Float F⦄ ⦃w : Word U⦄ (laws : IsIeee F) where
  open f use {nought, whole, neg, mul}

  module _ (cost : F) (c : InUnit cost) (t : Terms F U) (q : InUnit t.penalty)
      (o : EdgeObservableRead F U) (m : IsMeasured o) (index : ℕ) where
    edges-le :
        (forward_edge_value t cost o index ≼ cost)
        × (returning_edge_value t cost o index ≼ cost)
        × (loopback_edge_value t cost o index ≼ cost)
    edges-le =
        edges-Hold cost t (λ v. v ≼ cost) (rejected-le laws cost c)
          (λ score s. scored-le laws cost c score t.penalty s q)
          (λ rate score r s. acked-le laws cost c rate score t.min_ack_rate t.penalty r s q)
          (mul_bounds laws cost t.penalty c q).1 o m index

    pub forward_edge_value-le : forward_edge_value t cost o index ≼ cost
    forward_edge_value-le = edges-le.0

    pub returning_edge_value-le : returning_edge_value t cost o index ≼ cost
    returning_edge_value-le = edges-le.1

    pub loopback_edge_value-le : loopback_edge_value t cost o index ≼ cost
    loopback_edge_value-le = edges-le.2

  -- For a value in [0.0, 1.0], observations whose scores and rates are in that range, and any
  -- penalty but NaN, no edge of any index raises the value, under any of the three value functions.
  pub value_fn-le :
      (length : ℕ) (penalty least : F) (face : Option U) (cost : F) (o : EdgeObservableRead F U)
      (index : ℕ)
      → penalty ≼ penalty
      → InUnit cost
      → IsMeasured o
      → ((forward length penalty least face).value_fn cost o index ≼ cost)
        × ((returning length penalty least face).value_fn cost o index ≼ cost)
        × ((forward_without_self_loopback length penalty least face).value_fn cost o index ≼ cost)
  value_fn-le length penalty least face cost o index q c m =
      let t = terms length penalty least face in
      let clamped : InUnit t.penalty = unfold terms in clamp_unit-InUnit laws penalty q in
      let a = forward_edge_value-le cost c t clamped o m index in
      let b = returning_edge_value-le cost c t clamped o m index in
      let d = loopback_edge_value-le cost c t clamped o m index in
      unfold forward returning forward_without_self_loopback but_last_by_health in
      elim (Bool-cases (ltb ((index + 1) % u64_mod) length)) [
        | inl e ↦ rw e (
          scaled-le laws cost _ o.health c a,
          scaled-le laws cost _ o.health c b,
          scaled-le laws cost _ o.health c d,
        )
        | inr e ↦ rw e (a, b, scaled-le laws cost _ o.health c d)
      ]
