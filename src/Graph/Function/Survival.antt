-- ===== src/Graph/Function/Survival.antt =====
-- A funded relay stays in a search however badly it was measured.
use hopr_api.Prelude.{
  ℕ, zero, suc, ◌+◌, ◌-◌, ◌≤◌, ◌<◌, ◌≡◌, refl, ap, ◌∙◌, inl, inr, false, Option, none, some, List,
  [], ◌∷◌, length as length_of, arith, Bool-cases, ◌==◌, unwrap_or, Every,
}
use hopr_api.Float.{Float, lt, clamp_unit, ◌≼◌, InUnit, IsPositive}
use hopr_api.Float.Laws.{
  IsIeee, whole_num, nought-le-whole, tiny_power, clamp_unit-InUnit, mul_bounds,
}
use hopr_api.Word.{Word, IsUnsigned, u64_mod}
use hopr_api.Graph.Traits.{EdgeObservableRead, IntermediateMeasurement}
use hopr_api.Graph.Function.{
  forward_without_self_loopback, default_ticket_face_value, terms, require_funding,
  funded_or_reject, scale_by_health,
}
use hopr_api.Graph.Function.Funding.{balance_suffices_iff}
use hopr_api.Graph.Function.Scaling.{score_or_penalize_bounds}
use hopr_api.Graph.Function.Rejection.{IsMeasured, Backed}
use hopr_api.Graph.Function.Inner.{loopback-inner}
use hopr_api.Graph.Function.Discovery.{walk, EachFrom, FundsRest}

relay_test : (index : ℕ) → 0 < index → (index == 0) ≡ false
relay_test index h = ground arith

module _ {ℓ} {F U : Type ℓ} ⦃f : Float F⦄ ⦃w : Word U⦄ (laws : IsIeee F)
    (words : IsUnsigned U) where
  open f use {nought, whole, tiny, mul}
  open laws use {num_of_le, le_trans, mul_mono, tiny_power_pos}

  tiny_unit : InUnit tiny
  tiny_unit = (laws.nought-le-tiny, laws.tiny-le-whole)

  tiny_power-InUnit : (n : ℕ) → InUnit {F = F} (tiny_power n)
  unfolding tiny_power
  tiny_power-InUnit zero = (nought-le-whole laws, whole_num laws)
  tiny_power-InUnit (suc n) =
      let u = tiny_power-InUnit n in
      let (low, high) = mul_bounds laws (tiny_power n) tiny u tiny_unit in
      (low, le_trans _ _ _ high u.1)

  funded_value :
      (m : Option (IntermediateMeasurement F U)) (cost penalty : F) (hops : ℕ) (price : U)
      → hops < u64_mod
      → InUnit cost
      → InUnit penalty
      → Every (λ m. Every InUnit m.link.score) m
      → Backed laws words hops price m
      → let value = funded_or_reject m cost penalty hops price in
        (nought ≼ value) × (value ≼ cost) × (mul cost tiny ≼ value)
  unfolding funded_or_reject
  funded_value none cost penalty hops price h c q s b = absurd b
  funded_value (some m) cost penalty hops price h c q s b =
      rw ((balance_suffices_iff words m.balance hops price h).1 b)
        (score_or_penalize_bounds laws cost m.link.score penalty c s q)

  unjudged : (value : F) → scale_by_health value none ≡ value
  unfolding scale_by_health
  unjudged value = elim (Bool-cases (f.le value nought)) [ inl e ↦ rw e | inr e ↦ rw e ]

  module _ (length : ℕ) (penalty least : F) (face : Option U) where
    -- A relay that no one has judged, over a channel that funds the rest of the path.
    abbrev pub IsOpenRelay : EdgeObservableRead F U → ℕ → Type ℓ
    IsOpenRelay o index =
        IsMeasured o
        × (o.health ≡ none)
        × (0 < index)
        × (index + 1 < length)
        × FundsRest laws words length penalty least face o index

    relay_value :
        (cost : F) (o : EdgeObservableRead F U) (index : ℕ)
        → length < u64_mod
        → 0 < index
        → index + 1 < length
        → o.health ≡ none
        → (forward_without_self_loopback length penalty least face).value_fn cost o index
          ≡ funded_or_reject o.intermediate_qos cost
              (clamp_unit penalty)
              (length - index - 1)
              (unwrap_or face default_ticket_face_value)
    unfolding require_funding terms
    relay_value cost o index u later inner unseen =
        let value =
          funded_or_reject o.intermediate_qos cost (clamp_unit penalty) (length - index - 1)
            (unwrap_or face default_ticket_face_value) in
        loopback-inner length penalty least face cost o index inner u
        ∙ rw (relay_test index later) (ap (scale_by_health value) unseen ∙ unjudged value)

    relay_step :
        (cost : F) (o : EdgeObservableRead F U) (index k : ℕ)
        → length < u64_mod
        → penalty ≼ penalty
        → IsOpenRelay o index
        → InUnit cost
        → tiny_power k ≼ cost
        → let next =
            (forward_without_self_loopback length penalty least face).value_fn cost o index in
          InUnit next × (tiny_power (suc k) ≼ next)
    unfolding tiny_power
    relay_step cost o index k u q (m, unseen, later, inner, pays) c low =
        let (v0, v1, v2) =
          funded_value o.intermediate_qos cost (clamp_unit penalty) (length - index - 1)
            (unwrap_or face default_ticket_face_value) (omega arith) c
            (clamp_unit-InUnit laws penalty q) m.relayed (pays inner) in
        let floor =
          mul_mono (tiny_power k) cost tiny tiny (tiny_power-InUnit k).0 low c.1 laws.nought-le-tiny
            (num_of_le _ _ laws.nought-le-tiny).1 laws.tiny-le-whole in
        rw (relay_value cost o index u later inner unseen)
          ((v0, le_trans _ _ _ v1 c.1), le_trans _ _ _ floor v2)

    not_below : (x : F) → nought ≼ x → lt x nought ≡ false
    not_below x h = ground arith

    survives :
        (os : List (EdgeObservableRead F U)) (cost : F) (index k n : ℕ)
        → length < u64_mod
        → penalty ≼ penalty
        → EachFrom IsOpenRelay index os
        → InUnit cost
        → tiny_power k ≼ cost
        → n ≡ k + length_of os
        → (r : F) × (walk
              (forward_without_self_loopback length penalty least face).value_fn
              (some nought)
              cost
              index
              os
            ≡ some r)
          × (tiny_power n ≼ r)
    unfolding walk
    survives [] cost index k n u q seen c low e =
        let same : n ≡ k = omega arith in (cost, refl, rw same low)
    survives (o ∷ os) cost index k n u q (a, rest) c low e =
        let fn = (forward_without_self_loopback length penalty least face).value_fn in
        let (c', low') = relay_step cost o index k u q a c low in
        let (r, found, high) =
          survives os (fn cost o index) (suc index) (suc k) n u q rest c' low' (omega arith) in
        (r, rw (not_below _ c'.0) found, high)

    -- Relays that no one has judged, over channels that fund the rest of the path, are never
    -- discarded by the search that probes use, whatever scores they were measured at: `os` follow
    -- from `index` on, and the value is still positive after them if `k` edges came before, each
    -- costing at most a factor of 1e-9, and there are 30 edges at most. Scores and rates are in
    -- [0.0, 1.0] and the penalty is not NaN.
    pub measured_dead_survives :
        (os : List (EdgeObservableRead F U)) (cost : F) (index k : ℕ)
        → length < u64_mod
        → penalty ≼ penalty
        → EachFrom IsOpenRelay index os
        → InUnit cost
        → tiny_power k ≼ cost
        → k + length_of os ≤ 30
        → (r : F) × (walk
              (forward_without_self_loopback length penalty least face).value_fn
              (some nought)
              cost
              index
              os
            ≡ some r)
          × IsPositive r
    measured_dead_survives os cost index k u q seen c low few =
        let n = k + length_of os in
        let (r, found, high) = survives os cost index k n u q seen c low refl in
        (
          r,
          found,
          (
            le_trans _ _ _ (tiny_power-InUnit n).0 high,
            λ z. tiny_power_pos n few (le_trans _ _ _ high z),
          ),
        )
