-- ===== src/Graph/Function/Rejection.antt =====
-- Which edges the value functions reject, and which they accept: the edge of index 0 and the edges
-- that lead into a relayer.
use hopr_api.Prelude.{
  ℕ, ◌-◌, ◌<◌, ◌≡◌, ◌≢◌, refl, ◌↔◌, ◌⊎◌, Bool, true, false, Option, none, some, arith, Every,
}
use hopr_api.Float.{Float, ◌≼◌, InUnit, IsPositive}
use hopr_api.Float.Laws.{IsIeee, neg_rejects, mul_bounds}
use hopr_api.Word.{Word, IsUnsigned, u64_mod}
use hopr_api.Graph.Traits.{ImmediateMeasurement, IntermediateMeasurement, EdgeObservableRead}
use hopr_api.Graph.Function.{
  Terms, not_disconnected, balance_suffices, score_or_penalize, apply_ack_rate, require_funding,
  funded_or_reject, first_edge, first_edge_on,
}
use hopr_api.Graph.Function.Funding.{Funds, balance_suffices_iff}
use hopr_api.Graph.Function.Scaling.{Acknowledges, score_or_penalize_bounds, apply_ack_rate_nonneg}

-- Scores and rates are in [0.0, 1.0], as the traits document.
pub record IsMeasured {ℓ} {F U : Type ℓ} ⦃f : Float F⦄ (o : EdgeObservableRead F U) : Type ℓ where
  pub aggregate : Every InUnit o.score
  pub direct : Every (λ m. Every InUnit m.link.score × Every InUnit m.ack_rate) o.immediate_qos
  pub relayed : Every (λ m. Every InUnit m.link.score) o.intermediate_qos

module _ {ℓ} {F : Type ℓ} ⦃f : Float F⦄ where
  -- The peer is not known to be disconnected.
  abbrev pub Connects : Option (ImmediateMeasurement F) → Type 0
  Connects none = ⊥
  Connects (some m) = m.is_connected ≢ some false

  abbrev pub AcksEnough : F → Option (ImmediateMeasurement F) → Type 0
  AcksEnough least none = ⊥
  AcksEnough least (some m) = Acknowledges least m.ack_rate

pub not_disconnected_iff : (c : Option Bool) → (not_disconnected c ≡ true) ↔ (c ≢ some false)
not_disconnected_iff c = ground arith

module _ {ℓ} {F U : Type ℓ} ⦃f : Float F⦄ ⦃w : Word U⦄ (laws : IsIeee F)
    (words : IsUnsigned U) where
  open f use {nought, whole, neg}

  pub cost_pos : {cost : F} → InUnit cost → IsPositive (f.mul cost f.tiny) → IsPositive cost
  cost_pos {cost} c p = (
    c.0,
    λ z. p.1 (
        laws.le_trans _ _ _
          (mul_bounds laws cost f.tiny c (laws.nought-le-tiny, laws.tiny-le-whole)).1 z),
  )

  -- There is a relayed stream, and its balance is worth the tickets of the remaining hops.
  abbrev pub Backed : ℕ → U → Option (IntermediateMeasurement F U) → Type 0
  Backed hops face none = ⊥
  Backed hops face (some m) = (hops ≡ 0) ⊎ Funds words hops face m.balance

  funded_or_reject_iff :
      (m : Option (IntermediateMeasurement F U)) (cost penalty : F) (hops : ℕ) (face : U)
      → hops < u64_mod
      → IsPositive cost
      → cost ≼ whole
      → Every (λ m. Every InUnit m.link.score) m
      → InUnit penalty
      → (nought ≼ funded_or_reject m cost penalty hops face) ↔ Backed hops face m
  unfolding funded_or_reject
  funded_or_reject_iff none cost penalty hops face h p c s q =
      (neg_rejects laws cost p, λ b. absurd b)
  funded_or_reject_iff (some m) cost penalty hops face h p c s q = ground (
    arith,
    neg_rejects laws cost p,
    balance_suffices_iff words m.balance hops face h,
    score_or_penalize_bounds laws cost m.link.score penalty (p.0, c) s q,
  )

  -- An edge into a relayer is accepted exactly when its channel funds the remaining hops.
  pub require_funding_iff :
      (o : EdgeObservableRead F U) (cost penalty : F) (hops : ℕ) (face : U)
      → hops < u64_mod
      → IsPositive cost
      → cost ≼ whole
      → IsMeasured o
      → InUnit penalty
      → (nought ≼ require_funding o cost penalty hops face) ↔ Backed hops face o.intermediate_qos
  unfolding require_funding
  require_funding_iff o cost penalty hops face h p c s q =
      funded_or_reject_iff o.intermediate_qos cost penalty hops face h p c s.relayed q

  unfunded :
      (m : IntermediateMeasurement F U) (hops : ℕ) (face : U)
      → hops < u64_mod
      → ¬ Backed hops face (some m)
      → balance_suffices m.balance hops face ≡ false
  unfunded m hops face h b = ground (arith, balance_suffices_iff words m.balance hops face h)

  -- What an edge that is not backed costs.
  pub require_funding_unbacked :
      (o : EdgeObservableRead F U) (cost penalty : F) (hops : ℕ) (face : U)
      → hops < u64_mod
      → ¬ Backed hops face o.intermediate_qos
      → require_funding o cost penalty hops face ≡ neg cost
  unfolding require_funding
  require_funding_unbacked o cost penalty hops face h = go o.intermediate_qos
    where
      go :
          (m : Option (IntermediateMeasurement F U))
          → ¬ Backed hops face m
          → funded_or_reject m cost penalty hops face ≡ neg cost
      go none b = refl
      go (some m) b = rw (unfunded m hops face h b)

  pub acked_iff :
      (rate : Option F) (cost base least penalty : F)
      → IsPositive (f.mul cost f.tiny)
      → f.mul cost f.tiny ≼ base
      → base ≼ whole
      → Every InUnit rate
      → InUnit penalty
      → (nought ≼ apply_ack_rate rate base least penalty) ↔ Acknowledges least rate
  unfolding apply_ack_rate
  acked_iff none cost base least penalty p b c r q = (
    λ _. tt,
    λ _. apply_ack_rate_nonneg laws none base least penalty (laws.le_trans _ _ _ p.0 b, c) tt q tt,
  )
  acked_iff (some rate) cost base least penalty p b c r q = ground (
    arith,
    laws.le_trans nought (f.mul cost f.tiny) base p.0 b,
    laws.le_trans (f.mul cost f.tiny) base nought b,
    neg_rejects laws base,
    apply_ack_rate_nonneg laws (some rate) base least penalty,
  )

  first_edge_on_iff :
      (t : Terms F U) (cost : F) (score : Option F) (i : Option (ImmediateMeasurement F))
      (m : Option (IntermediateMeasurement F U))
      → t.length - 1 < u64_mod
      → InUnit cost
      → IsPositive (f.mul cost f.tiny)
      → Every InUnit score
      → Every (λ m. Every InUnit m.link.score × Every InUnit m.ack_rate) i
      → InUnit t.penalty
      → (nought ≼ first_edge_on t cost score i m)
        ↔ (Connects i × Backed (t.length - 1) t.face_value m × AcksEnough t.min_ack_rate i)
  unfolding first_edge_on
  first_edge_on_iff t cost score none m l c p s r q =
      (λ n. absurd (neg_rejects laws cost (cost_pos c p) n), λ b. absurd b.0)
  first_edge_on_iff t cost score (some i) none l c p s r q =
      (λ n. absurd (neg_rejects laws cost (cost_pos c p) n), λ b. absurd b.1)
  first_edge_on_iff t cost score (some i) (some m) l c p s r q =
      let base = score_or_penalize_bounds laws cost score t.penalty c s q in
      ground (
        arith,
        neg_rejects laws cost (cost_pos c p),
        not_disconnected_iff i.is_connected,
        balance_suffices_iff words m.balance (t.length - 1) t.face_value l,
        acked_iff i.ack_rate cost (score_or_penalize cost score t.penalty) t.min_ack_rate t.penalty
            p base.2 (laws.le_trans _ _ _ base.1 c.1) r.1 q,
      )

  -- What the first edge of a path is accepted for.
  pub first_edge_iff :
      (t : Terms F U) (cost : F) (o : EdgeObservableRead F U)
      → t.length - 1 < u64_mod
      → InUnit cost
      → IsPositive (f.mul cost f.tiny)
      → IsMeasured o
      → InUnit t.penalty
      → (nought ≼ first_edge t cost o) ↔ (
          Connects o.immediate_qos
          × Backed (t.length - 1) t.face_value o.intermediate_qos
          × AcksEnough t.min_ack_rate o.immediate_qos)
  unfolding first_edge
  first_edge_iff t cost o l c p m q =
      first_edge_on_iff t cost o.score o.immediate_qos o.intermediate_qos l c p m.aggregate m.direct
        q
