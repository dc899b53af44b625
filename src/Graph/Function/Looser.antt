-- ===== src/Graph/Function/Looser.antt =====
-- A lower ticket price, or a lower minimum of acknowledgements, changes nothing of a path that was
-- kept: the terms of src/graph/function.rs only reject.
pub mod Paths
use native.Mathlib.Nat.{mul-le-mul, le_trans, le_refl}
use hopr_api.Prelude.{
  ℕ, ◌+◌, ◌-◌, ◌*◌, ◌%◌, ◌≤◌, ◌<◌, ◌≡◌, refl, ap, inl, inr, Bool, true, false, Option, none, some,
  arith, Bool-cases, ltb, is_some, Every, if◌then◌else◌,
}
use hopr_api.Float.{Float, lt, ◌≼◌, InUnit, IsPositive}
use hopr_api.Float.Laws.{IsIeee, nought_num, neg-le_of_nonneg}
use hopr_api.Word.{Word, IsUnsigned, u64_mod}
use hopr_api.Graph.Traits.{ImmediateMeasurement, IntermediateMeasurement, EdgeObservableRead}
use hopr_api.Graph.Function.{
  Terms, scale_by_health, scale_by_judged, judged, score_or_penalize, apply_ack_rate,
  balance_suffices, require_funding, funded_or_reject, first_edge, first_edge_on, last_edge,
  last_by_balance, last_by_connection, direct_rate, return_edge, return_edge_on, forward_edge_value,
  returning_edge_value, loopback_edge_value, but_last_by_health, not_disconnected,
}
use hopr_api.Graph.Function.Funding.{Funds, balance_suffices_iff}
use hopr_api.Graph.Function.Scaling.{score_or_penalize_bounds}
use hopr_api.Graph.Function.Rejection.{IsMeasured}

-- A value that was positive is the same under the other terms.
abbrev pub KeptAs {ℓ} : {F : Type ℓ} ⦃f : Float F⦄ → F → F → Type ℓ
KeptAs v v' = IsPositive v' → v ≡ v'

module _ {ℓ} {F : Type ℓ} ⦃f : Float F⦄ (laws : IsIeee F) where
  open f use {nought, whole, neg, le}

  rejected-KeptAs : (cost v : F) → nought ≼ cost → KeptAs v (neg cost)
  rejected-KeptAs cost v c p = absurd (p.1 (neg-le_of_nonneg laws cost c))

  ack-KeptAs :
      (rate : Option F) (base least least' penalty : F)
      → nought ≼ base
      → least ≼ least'
      → KeptAs (apply_ack_rate rate base least penalty) (apply_ack_rate rate base least' penalty)
  unfolding apply_ack_rate
  ack-KeptAs none base least least' penalty c h = λ p. refl
  ack-KeptAs (some x) base least least' penalty c h = ground (
    arith,
    rejected-KeptAs base (neg base) c,
    rejected-KeptAs base (f.mul base x) c,
    laws.le_trans x least least',
    laws.le_trans least least' x,
  )

  pub health-KeptAs :
      (v v' : F) (health : Option F)
      → v' ≼ v'
      → KeptAs v v'
      → KeptAs (scale_by_health v health) (scale_by_health v' health)
  health-KeptAs v v' health n k p =
      ap (λ v. scale_by_health v health) (k (positive_before (unfold scale_by_health in p)))
    where
      positive_before :
          IsPositive (if le v' nought then v' else scale_by_judged v' (judged health))
          → IsPositive v'
      positive_before p = elim (Bool-cases (le v' nought)) [
        | inl e ↦ absurd ((rw e at p).1 e)
        | inr e ↦ (ground (arith, laws.le_total v' nought n (nought_num laws)), λ z. cc (z, e))
      ]

suffices_looser {ℓ} :
    {U : Type ℓ} ⦃w : Word U⦄ (words : IsUnsigned U) (balance : Option U) (hops : ℕ)
    (face face' : U)
    → hops < u64_mod
    → words.to_nat face ≤ words.to_nat face'
    → balance_suffices balance hops face' ≡ true
    → balance_suffices balance hops face ≡ true
unfolding Funds
suffices_looser words none hops face face' u h e = ground (
  arith,
  balance_suffices_iff words none hops face u,
  balance_suffices_iff words none hops face' u,
)
suffices_looser words (some b) hops face face' u h e =
    let more : hops * words.to_nat face ≤ hops * words.to_nat face' = mul-le-mul (le_refl hops) h in
    ground (
      arith,
      more,
      balance_suffices_iff words (some b) hops face u,
      balance_suffices_iff words (some b) hops face' u,
    )

module _ {ℓ} {F U : Type ℓ} ⦃f : Float F⦄ ⦃w : Word U⦄ (laws : IsIeee F) (words : IsUnsigned U)
    (cost : F) (c : InUnit cost) (t : Terms F U) (q : InUnit t.penalty) (least : F) (face : U)
    (hl : least ≼ t.min_ack_rate) (hf : words.to_nat face ≤ words.to_nat t.face_value) where
  open f use {neg}

  -- The same length and penalty, with the other minimum and the other face value.
  abbrev pub looser : Terms F U
  looser = record t { min_ack_rate = least; face_value = face }

  scored :
      (score : Option F) → Every InUnit score → f.nought ≼ score_or_penalize cost score t.penalty
  scored score s = (score_or_penalize_bounds laws cost score t.penalty c s q).0

  funded-KeptAs :
      (m : Option (IntermediateMeasurement F U)) (hops : ℕ)
      → hops < u64_mod
      → KeptAs
          (funded_or_reject m cost t.penalty hops face)
          (funded_or_reject m cost t.penalty hops t.face_value)
  unfolding funded_or_reject
  funded-KeptAs none hops u = rejected-KeptAs laws cost (neg cost) c.0
  funded-KeptAs (some m) hops u = ground (
    arith,
    suffices_looser words m.balance hops face t.face_value u hf,
    rejected-KeptAs laws cost (neg cost) c.0,
    rejected-KeptAs laws cost (score_or_penalize cost m.link.score t.penalty) c.0,
  )

  first-KeptAs :
      (score : Option F) (i : Option (ImmediateMeasurement F))
      (m : Option (IntermediateMeasurement F U))
      → t.length - 1 < u64_mod
      → Every InUnit score
      → KeptAs (first_edge_on looser cost score i m) (first_edge_on t cost score i m)
  unfolding first_edge_on
  first-KeptAs score none m u s = rejected-KeptAs laws cost (neg cost) c.0
  first-KeptAs score (some i) none u s = rejected-KeptAs laws cost (neg cost) c.0
  first-KeptAs score (some i) (some m) u s = ground (
    arith,
    suffices_looser words m.balance (t.length - 1) face t.face_value u hf,
    rejected-KeptAs laws cost (neg cost) c.0,
    rejected-KeptAs laws cost
        (apply_ack_rate i.ack_rate (score_or_penalize cost score t.penalty) least t.penalty) c.0,
    ack-KeptAs laws i.ack_rate (score_or_penalize cost score t.penalty) least t.min_ack_rate
        t.penalty (scored score s) hl,
  )

  direct-KeptAs :
      (score : Option F) (i : Option (ImmediateMeasurement F))
      → Every InUnit score
      → KeptAs
          (direct_rate looser (score_or_penalize cost score t.penalty) i)
          (direct_rate t (score_or_penalize cost score t.penalty) i)
  unfolding direct_rate
  direct-KeptAs score none s = λ p. refl
  direct-KeptAs score (some i) s = ground (
    arith,
    ack-KeptAs laws i.ack_rate (score_or_penalize cost score t.penalty) least t.min_ack_rate
        t.penalty (scored score s) hl,
  )

  connection-KeptAs :
      (i : Option (ImmediateMeasurement F))
      → Every (λ m. Every InUnit m.link.score × Every InUnit m.ack_rate) i
      → KeptAs (last_by_connection looser cost i) (last_by_connection t cost i)
  unfolding last_by_connection
  connection-KeptAs none s = λ p. refl
  connection-KeptAs (some i) s = elim (Bool-cases (not_disconnected i.is_connected)) [
    | inl e ↦ rw e (direct-KeptAs i.link.score (some i) s.0)
    | inr e ↦ rw e (λ p. refl)
  ]

  last-KeptAs :
      (i : Option (ImmediateMeasurement F)) (m : Option (IntermediateMeasurement F U))
      → Every (λ m. Every InUnit m.link.score × Every InUnit m.ack_rate) i
      → Every (λ m. Every InUnit m.link.score) m
      → KeptAs (last_by_balance looser cost i m) (last_by_balance t cost i m)
  last-KeptAs i none s r = unfold last_by_balance in connection-KeptAs i s
  last-KeptAs i (some m) s r = elim (Bool-cases (is_some m.balance)) [
    | inl e ↦ unfold last_by_balance in rw e (direct-KeptAs m.link.score i r)
    | inr e ↦ unfold last_by_balance in rw e (connection-KeptAs i s)
  ]

  return-KeptAs :
      (i : Option (ImmediateMeasurement F))
      → Every (λ m. Every InUnit m.link.score × Every InUnit m.ack_rate) i
      → KeptAs (return_edge_on looser cost i) (return_edge_on t cost i)
  unfolding return_edge_on
  return-KeptAs none s = λ p. refl
  return-KeptAs (some i) s = ground (
    arith,
    ack-KeptAs laws i.ack_rate (score_or_penalize cost i.link.score t.penalty) least t.min_ack_rate
        t.penalty (scored i.link.score s.0) hl,
  )

  module _ (o : EdgeObservableRead F U) (m : IsMeasured o) (index : ℕ)
      (u : t.length < u64_mod) where
    relay-KeptAs :
        KeptAs
          (require_funding o cost t.penalty (t.length - index - 1) face)
          (require_funding o cost t.penalty (t.length - index - 1) t.face_value)
    unfolding require_funding
    relay-KeptAs = funded-KeptAs o.intermediate_qos (t.length - index - 1) (omega arith)

    start-KeptAs : KeptAs (first_edge looser cost o) (first_edge t cost o)
    unfolding first_edge
    start-KeptAs = first-KeptAs o.score o.immediate_qos o.intermediate_qos (omega arith) m.aggregate

    -- What an edge is worth under the stricter terms, it is worth under the looser ones.
    pub edges-KeptAs :
        KeptAs (forward_edge_value looser cost o index) (forward_edge_value t cost o index)
        × KeptAs (returning_edge_value looser cost o index) (returning_edge_value t cost o index)
        × KeptAs (loopback_edge_value looser cost o index) (loopback_edge_value t cost o index)
    unfolding forward_edge_value returning_edge_value loopback_edge_value last_edge return_edge
    edges-KeptAs = (
      ground (
        arith,
        relay-KeptAs,
        start-KeptAs,
        last-KeptAs o.immediate_qos o.intermediate_qos m.direct m.relayed,
      ),
      ground (arith, relay-KeptAs, return-KeptAs o.immediate_qos m.direct),
      ground (arith, relay-KeptAs, start-KeptAs),
    )
