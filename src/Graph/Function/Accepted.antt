-- ===== src/Graph/Function/Accepted.antt =====
-- What the acceptance of an edge by any of the three value functions proves about its channel.
use hopr_api.Prelude.{
  ℕ, ◌+◌, ◌-◌, ◌<◌, ◌≡◌, inl, inr, Bool, false, ◌&&◌, Option, none, some, arith, Bool-cases, ◌==◌,
  ==_iff, if◌then◌else◌, unwrap_or,
}
use hopr_api.Float.{Float, ◌≼◌, IsPositive}
use hopr_api.Float.Laws.{IsIeee, neg-le_of_nonneg, neg_rejects}
use hopr_api.Word.{Word, IsUnsigned, u64_mod}
use hopr_api.Graph.Traits.{ImmediateMeasurement, IntermediateMeasurement, EdgeObservableRead}
use hopr_api.Graph.Function.{
  Terms, terms, not_disconnected, balance_suffices, scale_by_health, require_funding,
  funded_or_reject, first_edge, first_edge_on, forward, returning, forward_without_self_loopback,
  default_ticket_face_value,
}
use hopr_api.Graph.Function.Funding.{balance_suffices_iff}
use hopr_api.Graph.Function.Scaling.{scale_by_health_rejected}
use hopr_api.Graph.Function.Rejection.{Backed}
use hopr_api.Graph.Function.Inner.{forward-inner, loopback-inner, returning-inner, relay_edge}

both_false : (b : Bool) → (b && false) ≡ false
both_false b = ground arith

module _ {ℓ} {F U : Type ℓ} ⦃f : Float F⦄ ⦃w : Word U⦄ (laws : IsIeee F)
    (words : IsUnsigned U) where
  open f use {nought, neg}

  -- Scaling by health does not bring a rejected edge back.
  scaled_reject :
      (cost : F) (health : Option F)
      → IsPositive cost
      → ¬ (nought ≼ scale_by_health (neg cost) health)
  scaled_reject cost health p =
      rw (scale_by_health_rejected laws (neg cost) health (neg-le_of_nonneg laws cost p.0))
        (neg_rejects laws cost p)

  accepted_relay :
      (m : Option (IntermediateMeasurement F U)) (cost penalty : F) (hops : ℕ) (face : U)
      (health : Option F)
      → hops < u64_mod
      → IsPositive cost
      → nought ≼ scale_by_health (funded_or_reject m cost penalty hops face) health
      → Backed laws words hops face m
  unfolding funded_or_reject
  accepted_relay none cost penalty hops face health h p a = absurd (scaled_reject cost health p a)
  accepted_relay (some m) cost penalty hops face health h p a =
      elim (Bool-cases (balance_suffices m.balance hops face)) [
        | inl e ↦ (balance_suffices_iff words m.balance hops face h).0 e
        | inr e ↦ absurd (scaled_reject cost health p (rw e at a))
      ]

  accepted_first :
      (t : Terms F U) (cost : F) (score : Option F) (i : Option (ImmediateMeasurement F))
      (m : Option (IntermediateMeasurement F U)) (health : Option F)
      → t.length - 1 < u64_mod
      → IsPositive cost
      → nought ≼ scale_by_health (first_edge_on t cost score i m) health
      → Backed laws words (t.length - 1) t.face_value m
  unfolding first_edge_on
  accepted_first t cost score none m health h p a = absurd (scaled_reject cost health p a)
  accepted_first t cost score (some i) none health h p a = absurd (scaled_reject cost health p a)
  accepted_first t cost score (some i) (some m) health h p a =
      elim (Bool-cases (balance_suffices m.balance (t.length - 1) t.face_value)) [
        | inl e ↦ (balance_suffices_iff words m.balance (t.length - 1) t.face_value h).0 e
        | inr e ↦ absurd (
            scaled_reject cost health p (rw (e, both_false (not_disconnected i.is_connected)) at a))
      ]

  module _ (length : ℕ) (penalty least : F) (face : Option U) (cost : F)
      (o : EdgeObservableRead F U) (index : ℕ) (inner : index + 1 < length)
      (usize : length < u64_mod) (p : IsPositive cost) where
    abbrev Funded : Type 0
    Funded =
        Backed laws words (length - index - 1) (unwrap_or face default_ticket_face_value)
          o.intermediate_qos

    relay_funded : nought ≼ relay_edge (terms length penalty least face) cost o index → Funded
    unfolding require_funding terms
    relay_funded a =
        accepted_relay o.intermediate_qos cost (terms length penalty least face).penalty
          (length - index - 1) (unwrap_or face default_ticket_face_value) o.health (omega arith) p a

    first_funded :
        index ≡ 0
        → nought ≼ scale_by_health (first_edge (terms length penalty least face) cost o) o.health
        → Funded
    unfolding first_edge terms
    first_funded e a =
        let h : length - index - 1 ≡ length - 1 = omega arith in
        rw h (
          accepted_first (terms length penalty least face) cost o.score o.immediate_qos
            o.intermediate_qos o.health (omega arith) p a)

    either_funded :
        nought ≼ (
          if index == 0
          then scale_by_health (first_edge (terms length penalty least face) cost o) o.health
          else relay_edge (terms length penalty least face) cost o index)
        → Funded
    either_funded a = elim (Bool-cases (index == 0)) [
      | inl e ↦ first_funded ((==_iff index 0).0 e) (rw e at a)
      | inr e ↦ relay_funded (rw e at a)
    ]

  -- On any edge of a path before the last, whichever of the three value functions leaves a positive
  -- value at 0.0 or above has seen a channel worth the tickets of all the hops after it,
  -- if the length fits 64 bits.
  pub accepted_funded :
      (length : ℕ) (penalty least : F) (face : Option U) (cost : F) (o : EdgeObservableRead F U)
      (index : ℕ)
      → index + 1 < length
      → length < u64_mod
      → IsPositive cost
      → let price = unwrap_or face default_ticket_face_value in
        let funded = Backed laws words (length - index - 1) price o.intermediate_qos in
        (nought ≼ (forward length penalty least face).value_fn cost o index → funded)
        × (nought ≼ (returning length penalty least face).value_fn cost o index → funded)
        × (nought ≼ (forward_without_self_loopback length penalty least face).value_fn cost o index
            → funded)
  accepted_funded length penalty least face cost o index inner usize p = (
    λ a.
        either_funded length penalty least face cost o index inner usize p
          (rw (forward-inner length penalty least face cost o index inner usize) at a),
    λ a.
        relay_funded length penalty least face cost o index inner usize p
          (rw (returning-inner length penalty least face cost o index inner usize) at a),
    λ a.
        either_funded length penalty least face cost o index inner usize p
          (rw (loopback-inner length penalty least face cost o index inner usize) at a),
  )
