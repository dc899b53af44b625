-- ===== src/Graph/Function/Last.antt =====
-- The last edge of a forward path of two edges or more.
use hopr_api.Prelude.{
  ℕ, ◌+◌, ◌-◌, ◌%◌, ◌<◌, ◌≡◌, false, true, Option, none, some, arith, ltb, ◌==◌, Every,
}
use hopr_api.Float.{Float, ◌≼◌, InUnit, IsPositive, clamp_unit}
use hopr_api.Float.Laws.{IsIeee, clamp_unit-InUnit, mul_bounds}
use hopr_api.Word.{Word, IsUnsigned, u64_mod}
use hopr_api.Graph.Traits.{ImmediateMeasurement, IntermediateMeasurement, EdgeObservableRead}
use hopr_api.Graph.Function.{
  Terms, terms, score_or_penalize, last_edge, last_by_balance, forward_edge_value,
  but_last_by_health, forward,
}
use hopr_api.Graph.Function.Scaling.{score_or_penalize_bounds}
use hopr_api.Graph.Function.Rejection.{IsMeasured}
use hopr_api.Graph.Function.Positive.{lifted, lowest_pos}

last_tests :
    (length : ℕ)
    → 1 < length
    → length < u64_mod
    → (ltb ((length - 1 + 1) % u64_mod) length ≡ false)
      × ((length - 1 == length - 1) ≡ true)
      × ((length == 1) ≡ false)
last_tests length h u = ground arith

module _ {ℓ} {F U : Type ℓ} ⦃f : Float F⦄ ⦃w : Word U⦄ (laws : IsIeee F)
    (words : IsUnsigned U) where
  open f use {mul, tiny}

  -- Any multiplier that the last edge takes leaves a positive value.
  penalized_pos :
      (cost penalty : F)
      → InUnit cost
      → InUnit penalty
      → IsPositive (mul (mul cost tiny) penalty)
      → IsPositive (mul cost penalty)
  penalized_pos cost penalty c q p =
      let (a, b) = mul_bounds laws cost tiny c (laws.nought-le-tiny, laws.tiny-le-whole) in
      lifted laws words p (laws.mul_mono _ _ _ _ a b c.1 q.0 (laws.num_of_le _ _ q.0).1 q.1)

  scored_pos :
      (cost penalty : F) (score : Option F)
      → InUnit cost
      → InUnit penalty
      → Every InUnit score
      → IsPositive (mul (mul cost tiny) penalty)
      → IsPositive (score_or_penalize cost score penalty)
  scored_pos cost penalty score c q s p =
      lifted laws words (lowest_pos laws words c q p)
        (score_or_penalize_bounds laws cost score penalty c s q).2

  last_edge_pos :
      (t : Terms F U) (cost : F) (i : Option (ImmediateMeasurement F))
      (m : Option (IntermediateMeasurement F U))
      → (t.length == 1) ≡ false
      → InUnit cost
      → InUnit t.penalty
      → IsPositive (mul (mul cost tiny) t.penalty)
      → Every (λ m. Every InUnit m.link.score × Every InUnit m.ack_rate) i
      → Every (λ m. Every InUnit m.link.score) m
      → IsPositive (last_by_balance t cost i m)
  unfolding last_by_balance
  last_edge_pos t cost none none l c q p r s = penalized_pos cost t.penalty c q p
  last_edge_pos t cost (some i) none l c q p r s =
      ground (
        arith,
        penalized_pos cost t.penalty c q p,
        scored_pos cost t.penalty i.link.score c q r.0 p,
      )
  last_edge_pos t cost none (some m) l c q p r s =
      ground
        (arith, penalized_pos cost t.penalty c q p, scored_pos cost t.penalty m.link.score c q s p)
  last_edge_pos t cost (some i) (some m) l c q p r s = ground (
    arith,
    penalized_pos cost t.penalty c q p,
    scored_pos cost t.penalty i.link.score c q r.0 p,
    scored_pos cost t.penalty m.link.score c q s p,
  )

  -- On a forward path of two edges or more, the last edge leaves a path its positive value, whatever
  -- is observed of it: a missing or drained channel, a lost connection, a low rate of
  -- acknowledgements and the destination's health only lower the value or do not count. The length
  -- fits 64 bits; the value so far, scores and rates are in [0.0, 1.0]; the penalty is not NaN, and
  -- the value so far stays positive when it is multiplied by 1e-9 and then by the clamped penalty,
  -- which a penalty of 0.0 does not allow.
  pub forward_last-IsPositive :
      (length : ℕ) (penalty least : F) (face : Option U) (cost : F) (o : EdgeObservableRead F U)
      → 1 < length
      → length < u64_mod
      → InUnit cost
      → penalty ≼ penalty
      → IsPositive (mul (mul cost tiny) (clamp_unit penalty))
      → IsMeasured o
      → IsPositive ((forward length penalty least face).value_fn cost o (length - 1))
  unfolding forward but_last_by_health forward_edge_value last_edge terms
  forward_last-IsPositive length penalty least face cost o h u c q p m =
      let (a, b, d) = last_tests length h u in
      rw (a, b)
        (last_edge_pos (terms length penalty least face) cost o.immediate_qos o.intermediate_qos d c
          (clamp_unit-InUnit laws penalty q) p m.direct m.relayed)
