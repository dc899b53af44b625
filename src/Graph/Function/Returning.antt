-- ===== src/Graph/Function/Returning.antt =====
-- The last edge of a return path, from the last relay to this node.
use hopr_api.Prelude.{
  ℕ, ◌+◌, ◌-◌, ◌%◌, ◌<◌, ◌≡◌, ◌↔◌, true, false, Option, none, some, arith, ltb, ◌==◌, Every,
}
use hopr_api.Float.{Float, ◌≼◌, InUnit, IsPositive, clamp_unit}
use hopr_api.Float.Laws.{IsIeee, neg_rejects, clamp_unit-InUnit}
use hopr_api.Word.{Word, IsUnsigned, u64_mod}
use hopr_api.Graph.Traits.{ImmediateMeasurement, EdgeObservableRead}
use hopr_api.Graph.Function.{
  Terms, terms, score_or_penalize, return_edge, return_edge_on, returning_edge_value,
  but_last_by_health, returning,
}
use hopr_api.Graph.Function.Scaling.{score_or_penalize_bounds}
use hopr_api.Graph.Function.Rejection.{
  IsMeasured, Connects, AcksEnough, cost_pos, not_disconnected_iff, acked_iff,
}
use hopr_api.Graph.Function.Positive.{acked_pos, lowest_pos}

last_tests :
    (length : ℕ)
    → 0 < length
    → length < u64_mod
    → (ltb ((length - 1 + 1) % u64_mod) length ≡ false) × ((length - 1 == length - 1) ≡ true)
last_tests length h u = ground arith

module _ {ℓ} {F U : Type ℓ} ⦃f : Float F⦄ ⦃w : Word U⦄ (laws : IsIeee F)
    (words : IsUnsigned U) where
  open f use {nought, whole}

  return_edge_on_iff :
      (t : Terms F U) (cost : F) (i : Option (ImmediateMeasurement F))
      → InUnit cost
      → IsPositive (f.mul cost f.tiny)
      → Every (λ m. Every InUnit m.link.score × Every InUnit m.ack_rate) i
      → InUnit t.penalty
      → (nought ≼ return_edge_on t cost i) ↔ (Connects i × AcksEnough t.min_ack_rate i)
  unfolding return_edge_on
  return_edge_on_iff t cost none c p s q =
      (λ n. absurd (neg_rejects laws cost (cost_pos laws words c p) n), λ b. absurd b.0)
  return_edge_on_iff t cost (some i) c p s q =
      let base = score_or_penalize_bounds laws cost i.link.score t.penalty c s.0 q in
      ground (
        arith,
        neg_rejects laws cost (cost_pos laws words c p),
        not_disconnected_iff i.is_connected,
        acked_iff laws words i.ack_rate cost (score_or_penalize cost i.link.score t.penalty)
            t.min_ack_rate t.penalty p base.2 (laws.le_trans _ _ _ base.1 c.1) s.1 q,
      )

  returning_last_iff :
      (length : ℕ) (penalty least : F) (face : Option U) (cost : F) (o : EdgeObservableRead F U)
      → 0 < length
      → length < u64_mod
      → InUnit cost
      → IsPositive (f.mul cost f.tiny)
      → penalty ≼ penalty
      → IsMeasured o
      → (nought ≼ (returning length penalty least face).value_fn cost o (length - 1))
        ↔ (Connects o.immediate_qos × AcksEnough (clamp_unit least) o.immediate_qos)
  unfolding returning but_last_by_health returning_edge_value return_edge terms
  returning_last_iff length penalty least face cost o h u c p q m =
      let (a, b) = last_tests length h u in
      rw (a, b)
        (return_edge_on_iff (terms length penalty least face) cost o.immediate_qos c p m.direct
          (clamp_unit-InUnit laws penalty q))

  return_edge_on_pos :
      (t : Terms F U) (cost : F) (i : Option (ImmediateMeasurement F))
      → InUnit cost
      → Every (λ m. Every InUnit m.link.score × Every InUnit m.ack_rate) i
      → InUnit t.penalty
      → InUnit t.min_ack_rate
      → IsPositive (f.mul (f.mul cost f.tiny) t.penalty)
      → IsPositive (f.mul (f.mul cost f.tiny) t.min_ack_rate)
      → Connects i
      → AcksEnough t.min_ack_rate i
      → IsPositive (return_edge_on t cost i)
  unfolding return_edge_on
  return_edge_on_pos t cost none c s q l pen low k a = absurd k
  return_edge_on_pos t cost (some i) c s q l pen low k a =
      let base = score_or_penalize_bounds laws cost i.link.score t.penalty c s.0 q in
      rw ((not_disconnected_iff i.is_connected).1 k) (
        acked_pos laws words i.ack_rate cost (score_or_penalize cost i.link.score t.penalty)
          t.min_ack_rate t.penalty (lowest_pos laws words c q pen) base.2
          (laws.le_trans _ _ _ base.1 c.1) s.1 q l pen low a)

  returning_last_pos :
      (length : ℕ) (penalty least : F) (face : Option U) (cost : F) (o : EdgeObservableRead F U)
      → 0 < length
      → length < u64_mod
      → InUnit cost
      → penalty ≼ penalty
      → least ≼ least
      → IsPositive (f.mul (f.mul cost f.tiny) (clamp_unit penalty))
      → IsPositive (f.mul (f.mul cost f.tiny) (clamp_unit least))
      → IsMeasured o
      → Connects o.immediate_qos
      → AcksEnough (clamp_unit least) o.immediate_qos
      → IsPositive ((returning length penalty least face).value_fn cost o (length - 1))
  unfolding returning but_last_by_health returning_edge_value return_edge terms
  returning_last_pos length penalty least face cost o h u c q l pen low m k a =
      let (x, y) = last_tests length h u in
      rw (x, y)
        (return_edge_on_pos (terms length penalty least face) cost o.immediate_qos c m.direct
          (clamp_unit-InUnit laws penalty q) (clamp_unit-InUnit laws least l) pen low k a)

  -- The last edge of a return path leaves the path a positive value exactly when the relay is not
  -- known to be disconnected and acknowledges enough packets; neither a channel nor the relay's
  -- health counts. The length is positive and fits 64 bits; the value so far, scores and rates are in
  -- [0.0, 1.0]; the penalty and the minimum of acknowledgements, clamped as they are used, are not
  -- NaN, and the value so far stays positive when it is multiplied by 1e-9 and then by either, which a
  -- penalty or a minimum of 0.0 does not allow.
  pub returning_last-IsPositive_iff :
      (length : ℕ) (penalty least : F) (face : Option U) (cost : F) (o : EdgeObservableRead F U)
      → 0 < length
      → length < u64_mod
      → InUnit cost
      → penalty ≼ penalty
      → least ≼ least
      → IsPositive (f.mul (f.mul cost f.tiny) (clamp_unit penalty))
      → IsPositive (f.mul (f.mul cost f.tiny) (clamp_unit least))
      → IsMeasured o
      → IsPositive ((returning length penalty least face).value_fn cost o (length - 1))
        ↔ (Connects o.immediate_qos × AcksEnough (clamp_unit least) o.immediate_qos)
  returning_last-IsPositive_iff length penalty least face cost o h u c q l pen low m = (
    λ p.
        (returning_last_iff length penalty least face cost o h u c
            (lowest_pos laws words c (clamp_unit-InUnit laws penalty q) pen) q m).0
          p.0,
    λ (k, a). returning_last_pos length penalty least face cost o h u c q l pen low m k a,
  )
