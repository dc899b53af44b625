-- ===== src/Graph/Function/Arms.antt =====
-- What holds of a rejected edge, of a scored one, of an acknowledged one and of a penalized one holds
-- of every edge value of src/graph/function.rs.
use hopr_api.Prelude.{ℕ, ◌-◌, inl, inr, Option, none, some, arith, Bool-cases, is_some, Every}
use hopr_api.Float.{Float, InUnit}
use hopr_api.Word.{Word}
use hopr_api.Graph.Traits.{ImmediateMeasurement, IntermediateMeasurement, EdgeObservableRead}
use hopr_api.Graph.Function.{
  Terms, score_or_penalize, apply_ack_rate, require_funding, funded_or_reject, first_edge,
  first_edge_on, last_edge, last_by_balance, last_by_connection, direct_rate, return_edge,
  return_edge_on, forward_edge_value, returning_edge_value, loopback_edge_value,
}
use hopr_api.Graph.Function.Rejection.{IsMeasured}

module _ {ℓ} {F U : Type ℓ} ⦃f : Float F⦄ ⦃w : Word U⦄ (cost : F) (t : Terms F U) (P : F → Type 0)
    (own : P (f.neg cost))
    (scored : (score : Option F) → Every InUnit score → P (score_or_penalize cost score t.penalty))
    (acked : (rate score : Option F)
      → Every InUnit rate
      → Every InUnit score
      → P (apply_ack_rate rate (score_or_penalize cost score t.penalty) t.min_ack_rate t.penalty))
    (penalized : P (f.mul cost t.penalty)) where
  funded_or_reject-Holds :
      (m : Option (IntermediateMeasurement F U)) (hops : ℕ)
      → Every (λ m. Every InUnit m.link.score) m
      → P (funded_or_reject m cost t.penalty hops t.face_value)
  unfolding funded_or_reject
  funded_or_reject-Holds none hops s = own
  funded_or_reject-Holds (some m) hops s = ground (arith, own, scored m.link.score s)

  first_edge_on-Holds :
      (score : Option F) (i : Option (ImmediateMeasurement F))
      (m : Option (IntermediateMeasurement F U))
      → Every InUnit score
      → Every (λ m. Every InUnit m.link.score × Every InUnit m.ack_rate) i
      → P (first_edge_on t cost score i m)
  unfolding first_edge_on
  first_edge_on-Holds score none m s r = own
  first_edge_on-Holds score (some i) none s r = own
  first_edge_on-Holds score (some i) (some m) s r =
      ground (arith, own, acked i.ack_rate score r.1 s)

  direct_rate-Holds :
      (score : Option F) (i : Option (ImmediateMeasurement F))
      → Every InUnit score
      → Every (λ m. Every InUnit m.link.score × Every InUnit m.ack_rate) i
      → P (direct_rate t (score_or_penalize cost score t.penalty) i)
  unfolding direct_rate
  direct_rate-Holds score none s r = scored score s
  direct_rate-Holds score (some i) s r =
      ground (arith, scored score s, acked i.ack_rate score r.1 s)

  last_by_connection-Holds :
      (i : Option (ImmediateMeasurement F))
      → Every (λ m. Every InUnit m.link.score × Every InUnit m.ack_rate) i
      → P (last_by_connection t cost i)
  unfolding last_by_connection
  last_by_connection-Holds none r = penalized
  last_by_connection-Holds (some i) r =
      ground (arith, penalized, scored i.link.score r.0, acked i.ack_rate i.link.score r.1 r.0)

  last_by_balance-Holds :
      (i : Option (ImmediateMeasurement F)) (m : Option (IntermediateMeasurement F U))
      → Every (λ m. Every InUnit m.link.score × Every InUnit m.ack_rate) i
      → Every (λ m. Every InUnit m.link.score) m
      → P (last_by_balance t cost i m)
  last_by_balance-Holds i none r s = unfold last_by_balance in last_by_connection-Holds i r
  last_by_balance-Holds i (some m) r s = elim (Bool-cases (is_some m.balance)) [
    | inl e ↦ unfold last_by_balance in rw e (direct_rate-Holds m.link.score i s r)
    | inr e ↦ unfold last_by_balance in rw e (last_by_connection-Holds i r)
  ]

  return_edge_on-Holds :
      (i : Option (ImmediateMeasurement F))
      → Every (λ m. Every InUnit m.link.score × Every InUnit m.ack_rate) i
      → P (return_edge_on t cost i)
  unfolding return_edge_on
  return_edge_on-Holds none r = own
  return_edge_on-Holds (some i) r = ground (arith, own, acked i.ack_rate i.link.score r.1 r.0)

  module _ (o : EdgeObservableRead F U) (m : IsMeasured o) (index : ℕ) where
    forward_edge_value-Holds : P (forward_edge_value t cost o index)
    unfolding forward_edge_value last_edge first_edge require_funding
    forward_edge_value-Holds = ground (
      arith,
      own,
      last_by_balance-Holds o.immediate_qos o.intermediate_qos m.direct m.relayed,
      first_edge_on-Holds o.score o.immediate_qos o.intermediate_qos m.aggregate m.direct,
      funded_or_reject-Holds o.intermediate_qos (t.length - index - 1) m.relayed,
    )

    returning_edge_value-Holds : P (returning_edge_value t cost o index)
    unfolding returning_edge_value return_edge require_funding
    returning_edge_value-Holds = ground (
      arith,
      own,
      return_edge_on-Holds o.immediate_qos m.direct,
      funded_or_reject-Holds o.intermediate_qos (t.length - index - 1) m.relayed,
    )

    loopback_edge_value-Holds : P (loopback_edge_value t cost o index)
    unfolding loopback_edge_value first_edge require_funding
    loopback_edge_value-Holds = ground (
      arith,
      own,
      first_edge_on-Holds o.score o.immediate_qos o.intermediate_qos m.aggregate m.direct,
      funded_or_reject-Holds o.intermediate_qos (t.length - index - 1) m.relayed,
    )

    -- The three at once.
    pub edges-Hold :
        P (forward_edge_value t cost o index)
        × P (returning_edge_value t cost o index)
        × P (loopback_edge_value t cost o index)
    edges-Hold = (forward_edge_value-Holds, returning_edge_value-Holds, loopback_edge_value-Holds)
