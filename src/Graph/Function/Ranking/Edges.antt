-- ===== src/Graph/Function/Ranking/Edges.antt =====
-- No edge that is at least as good as another is ranked below it.
use hopr_api.Prelude.{
  ℕ, ◌-◌, ◌<◌, sym, ◌∙◌, inl, inr, Option, none, some, arith, Bool-cases, is_some, Every,
}
use hopr_api.Float.{Float, ◌≼◌, InUnit}
use hopr_api.Float.Laws.{IsIeee}
use hopr_api.Word.{Word, IsUnsigned, u64_mod}
use hopr_api.Graph.Traits.{ImmediateMeasurement, IntermediateMeasurement, EdgeObservableRead}
use hopr_api.Graph.Function.{
  Terms, not_disconnected, score_or_penalize, apply_ack_rate, require_funding, first_edge,
  first_edge_on, last_edge, last_by_balance, last_by_connection, direct_rate, return_edge,
  return_edge_on, forward_edge_value, returning_edge_value, loopback_edge_value,
}
use hopr_api.Graph.Function.Rejection.{IsMeasured}
use hopr_api.Graph.Function.Ranking.{OptionLe, Improves, DirectLe, RelayedLe, IsBetter}
use hopr_api.Graph.Function.Ranking.Scaling.{rejected-Improves, score_mono}
use hopr_api.Graph.Function.Ranking.Arms.{
  IsRated, suffices_mono, same_presence, acked_mono, funded_mono,
}

module _ {ℓ} {F U : Type ℓ} ⦃f : Float F⦄ ⦃w : Word U⦄ (laws : IsIeee F)
    (words : IsUnsigned U) where
  open f use {nought, whole, neg, mul}

  module _ (cost cost' : F) (c : nought ≼ cost) (h : cost ≼ cost') (c' : cost' ≼ whole) where
    module _ (t : Terms F U) (q : InUnit t.penalty) where
      first_mono :
          (score score' : Option F) (i i' : Option (ImmediateMeasurement F))
          (m m' : Option (IntermediateMeasurement F U))
          → t.length - 1 < u64_mod
          → OptionLe ◌≼◌ score score'
          → OptionLe DirectLe i i'
          → OptionLe (RelayedLe words) m m'
          → Every InUnit score
          → Every InUnit score'
          → Every IsRated i
          → Every IsRated i'
          → Improves (first_edge_on t cost score i m) (first_edge_on t cost' score' i' m')
      unfolding first_edge_on
      first_mono score score' none none m m' u s d b r r' k k' = rejected-Improves laws cost _ c
      first_mono score score' (some i) (some i') none none u s d b r r' k k' =
          rejected-Improves laws cost _ c
      first_mono score score' (some i) (some i') (some m) (some m') u s d b r r' k k' = ground (
        arith,
        d.connected,
        suffices_mono words m.balance m'.balance (t.length - 1) t.face_value u b.balance,
        rejected-Improves laws cost (neg cost') c,
        rejected-Improves laws cost
            (apply_ack_rate i'.ack_rate (score_or_penalize cost' score' t.penalty) t.min_ack_rate
              t.penalty)
            c,
        acked_mono laws words cost cost' c h c' score score' i.ack_rate i'.ack_rate t.min_ack_rate
            t.penalty s d.rate r r' k.1 k'.1 q,
      )
      first_mono score score' none (some i') m m' u s d b r r' k k' = absurd d
      first_mono score score' (some i) none m m' u s d b r r' k k' = absurd d
      first_mono score score' (some i) (some i') none (some m') u s d b r r' k k' = absurd b
      first_mono score score' (some i) (some i') (some m) none u s d b r r' k k' = absurd b

      direct_mono :
          (score score' : Option F) (i i' : Option (ImmediateMeasurement F))
          → OptionLe ◌≼◌ score score'
          → OptionLe DirectLe i i'
          → Every InUnit score
          → Every InUnit score'
          → Every IsRated i
          → Every IsRated i'
          → Improves
              (direct_rate t (score_or_penalize cost score t.penalty) i)
              (direct_rate t (score_or_penalize cost' score' t.penalty) i')
      unfolding direct_rate
      direct_mono score score' none none s d r r' k k' =
          λ _. score_mono laws cost cost' score score' t.penalty c h c' s r' q
      direct_mono score score' (some i) (some i') s d r r' k k' = ground (
        arith,
        score_mono laws cost cost' score score' t.penalty c h c' s r' q,
        acked_mono laws words cost cost' c h c' score score' i.ack_rate i'.ack_rate t.min_ack_rate
            t.penalty s d.rate r r' k.1 k'.1 q,
      )
      direct_mono score score' none (some i') s d r r' k k' = absurd d
      direct_mono score score' (some i) none s d r r' k k' = absurd d

      penalty_mono : mul cost t.penalty ≼ mul cost' t.penalty
      penalty_mono = laws.mul_mono _ _ _ _ c h c' q.0 (laws.num_of_le _ _ q.1).0 q.1

      connection_mono :
          (i i' : Option (ImmediateMeasurement F))
          → OptionLe DirectLe i i'
          → Every IsRated i
          → Every IsRated i'
          → Improves (last_by_connection t cost i) (last_by_connection t cost' i')
      unfolding last_by_connection
      connection_mono none none d k k' = λ _. penalty_mono
      connection_mono (some i) (some i') d k k' =
          elim (Bool-cases (not_disconnected i.is_connected)) [
            | inl e ↦
                rw (e, sym d.connected ∙ e)
                  (direct_mono i.link.score i'.link.score (some i) (some i') d.score d k.0 k'.0 k
                    k')
            | inr e ↦ rw (e, sym d.connected ∙ e) (λ _. penalty_mono)
          ]
      connection_mono none (some i') d k k' = absurd d
      connection_mono (some i) none d k k' = absurd d

      last_mono :
          (i i' : Option (ImmediateMeasurement F)) (m m' : Option (IntermediateMeasurement F U))
          → OptionLe DirectLe i i'
          → OptionLe (RelayedLe words) m m'
          → Every IsRated i
          → Every IsRated i'
          → Every (λ m. Every InUnit m.link.score) m
          → Every (λ m. Every InUnit m.link.score) m'
          → Improves (last_by_balance t cost i m) (last_by_balance t cost' i' m')
      last_mono i i' none none d b k k' l l' = unfold last_by_balance in connection_mono i i' d k k'
      last_mono i i' (some m) (some m') d b k k' l l' = elim (Bool-cases (is_some m.balance)) [
        | inl e ↦
            unfold last_by_balance in
            rw (e, sym (same_presence words m.balance m'.balance b.balance) ∙ e)
              (direct_mono m.link.score m'.link.score i i' b.score d l l' k k')
        | inr e ↦
            unfold last_by_balance in
            rw (e, sym (same_presence words m.balance m'.balance b.balance) ∙ e)
              (connection_mono i i' d k k')
      ]
      last_mono i i' none (some m') d b k k' l l' = absurd b
      last_mono i i' (some m) none d b k k' l l' = absurd b

      return_mono :
          (i i' : Option (ImmediateMeasurement F))
          → OptionLe DirectLe i i'
          → Every IsRated i
          → Every IsRated i'
          → Improves (return_edge_on t cost i) (return_edge_on t cost' i')
      unfolding return_edge_on
      return_mono none none d k k' = rejected-Improves laws cost _ c
      return_mono (some i) (some i') d k k' = ground (
        arith,
        d.connected,
        rejected-Improves laws cost (neg cost') c,
        acked_mono laws words cost cost' c h c' i.link.score i'.link.score i.ack_rate i'.ack_rate
            t.min_ack_rate t.penalty d.score d.rate k.0 k'.0 k.1 k'.1 q,
      )
      return_mono none (some i') d k k' = absurd d
      return_mono (some i) none d k k' = absurd d

      module _ (o o' : EdgeObservableRead F U) (b : IsBetter words o o') (s : IsMeasured o)
          (s' : IsMeasured o') (index : ℕ) (u : t.length < u64_mod) where
        relay_mono :
            Improves
              (require_funding o cost t.penalty (t.length - index - 1) t.face_value)
              (require_funding o' cost' t.penalty (t.length - index - 1) t.face_value)
        unfolding require_funding
        relay_mono =
            funded_mono laws words cost cost' c h c' o.intermediate_qos o'.intermediate_qos
              t.penalty (t.length - index - 1) t.face_value (omega arith) b.relayed s'.relayed q

        start_mono : Improves (first_edge t cost o) (first_edge t cost' o')
        unfolding first_edge
        start_mono =
            first_mono o.score o'.score o.immediate_qos o'.immediate_qos o.intermediate_qos
              o'.intermediate_qos (omega arith) b.aggregate b.direct b.relayed s.aggregate
              s'.aggregate s.direct s'.direct

        pub forward_mono :
            Improves (forward_edge_value t cost o index) (forward_edge_value t cost' o' index)
        unfolding forward_edge_value last_edge
        forward_mono = ground (
          arith,
          rejected-Improves laws cost (neg cost') c,
          relay_mono,
          start_mono,
          last_mono o.immediate_qos o'.immediate_qos o.intermediate_qos o'.intermediate_qos b.direct
              b.relayed s.direct s'.direct s.relayed s'.relayed,
        )

        pub returning_mono :
            Improves (returning_edge_value t cost o index) (returning_edge_value t cost' o' index)
        unfolding returning_edge_value return_edge
        returning_mono = ground (
          arith,
          rejected-Improves laws cost (neg cost') c,
          relay_mono,
          return_mono o.immediate_qos o'.immediate_qos b.direct s.direct s'.direct,
        )

        pub loopback_mono :
            Improves (loopback_edge_value t cost o index) (loopback_edge_value t cost' o' index)
        unfolding loopback_edge_value
        loopback_mono =
            ground (arith, rejected-Improves laws cost (neg cost') c, relay_mono, start_mono)
