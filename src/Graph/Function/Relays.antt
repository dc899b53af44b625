-- ===== src/Graph/Function/Relays.antt =====
-- src/graph/function.rs: a path that a search keeps relays through no node that is judged unusable.
use hopr_api.Prelude.{
  ℕ, suc, ◌+◌, ◌%◌, ◌<◌, ◌≡◌, ◌⊎◌, inl, inr, true, Option, some, List, [], ◌∷◌, All, arith,
  Bool-cases, ltb,
}
use hopr_api.Float.{Float, ◌≼◌, InUnit, IsPositive}
use hopr_api.Float.Laws.{IsIeee, whole_num, nought_num, nought-le-whole, clamp_unit-InUnit}
use hopr_api.Word.{Word, u64_mod}
use hopr_api.Graph.Traits.{EdgeObservableRead}
use hopr_api.Graph.Function.{
  scale_by_health, but_last_by_health, terms, forward, returning, forward_without_self_loopback,
}
use hopr_api.Graph.Function.Rejection.{IsMeasured}
use hopr_api.Graph.Function.Scaling.{Unusable, scale_by_health_iff, scale_by_health_rejected}
use hopr_api.Graph.Function.Bounds.{
  value_fn-le, forward_edge_value-le, returning_edge_value-le, loopback_edge_value-le,
}
use hopr_api.Graph.Function.Discovery.{walk, path_value, EachFrom, kept, walk_step, walk_bounds}

module _ {ℓ} {F : Type ℓ} ⦃f : Float F⦄ (laws : IsIeee F) where
  open f use {nought, whole, le}

  -- A value that is positive after the health is applied has no unusable health.
  positive-Usable :
      (value : F) (health : Option F)
      → value ≼ whole
      → IsPositive (scale_by_health value health)
      → ¬ Unusable health
  positive-Usable value health top (low, high) = elim (Bool-cases (le value nought)) [
    | inl e ↦ λ u. high (rw (scale_by_health_rejected laws value health e) e)
    | inr e ↦
        let num = (laws.num_of_le _ _ top).0 in
        let above : IsPositive value =
          (ground (arith, laws.le_total value nought num (nought_num laws)), ground arith) in
        (scale_by_health_iff laws value health above top).0 low
  ]

module _ {ℓ} {F W : Type ℓ} ⦃f : Float F⦄ (laws : IsIeee F) (fn : F → W → ℕ → F)
    (IsSeen : W → Type ℓ)
    (falls : (cost : F) (o : W) (index : ℕ) → InUnit cost → IsSeen o → fn cost o index ≼ cost)
    (Sound : W → ℕ → Type 0)
    (sound : (cost : F) (o : W) (index : ℕ)
      → InUnit cost
      → IsSeen o
      → IsPositive (fn cost o index)
      → Sound o index) where
  -- What a positive value of an edge proves holds of every edge of a path of positive value.
  walk_positive :
      (os : List W) (cost : F) (index : ℕ) {r : F}
      → InUnit cost
      → All IsSeen os
      → walk fn (some f.nought) cost index os ≡ some r
      → ¬ (r ≼ f.nought)
      → EachFrom Sound index os
  walk_positive [] cost index c s e p = tt
  walk_positive (o ∷ os) cost index c (s, ss) e p =
      let (b, e') = walk_step laws fn IsSeen falls os cost o index e in
      let u = kept laws fn IsSeen falls cost o index c s b in
      let (low, high) = walk_bounds laws fn IsSeen falls os (fn cost o index) (suc index) u ss e' in
      (
        sound cost o index c s (u.0, λ z. p (laws.le_trans _ _ _ high z)),
        walk_positive os (fn cost o index) (suc index) u ss e' p,
      )

-- The edge of this index leads into a relayer that is not judged unusable.
abbrev pub UsableRelay {ℓ} : {F U : Type ℓ} ⦃f : Float F⦄ → ℕ → EdgeObservableRead F U → ℕ → Type 0
UsableRelay length o index = index + 1 < length → ¬ Unusable o.health

module _ {ℓ} {F U : Type ℓ} ⦃f : Float F⦄ ⦃w : Word U⦄ (laws : IsIeee F) (length : ℕ)
    (penalty least : F) (face : Option U) where
  open f use {nought, whole}

  but_last-Usable :
      (fn : F → EdgeObservableRead F U → ℕ → F) (cost : F) (o : EdgeObservableRead F U) (index : ℕ)
      → length < u64_mod
      → fn cost o index ≼ whole
      → IsPositive (but_last_by_health length fn cost o index)
      → UsableRelay length o index
  unfolding but_last_by_health
  but_last-Usable fn cost o index u top p inner =
      let relay : ltb ((index + 1) % u64_mod) length ≡ true = ground arith in
      positive-Usable laws (fn cost o index) o.health top (rw relay at p)

  value_fn-Usable :
      (cost : F) (o : EdgeObservableRead F U) (index : ℕ)
      → length < u64_mod
      → penalty ≼ penalty
      → InUnit cost
      → IsMeasured o
      → (IsPositive ((forward length penalty least face).value_fn cost o index)
          → UsableRelay length o index)
        × (IsPositive ((returning length penalty least face).value_fn cost o index)
            → UsableRelay length o index)
        × (IsPositive
              ((forward_without_self_loopback length penalty least face).value_fn cost o index)
            → UsableRelay length o index)
  unfolding forward returning forward_without_self_loopback terms
  value_fn-Usable cost o index u q c m =
      let t = terms length penalty least face in
      let q0 = clamp_unit-InUnit laws penalty q in
      let under = λ (v : F) (h : v ≼ cost). laws.le_trans _ _ _ h c.1 in
      (
        but_last-Usable _ cost o index u
            (under _ (forward_edge_value-le laws cost c t q0 o m index)),
        but_last-Usable _ cost o index u
            (under _ (returning_edge_value-le laws cost c t q0 o m index)),
        λ p inner.
            positive-Usable laws _ o.health
              (under _ (loopback_edge_value-le laws cost c t q0 o m index)) p,
      )

  -- A path that a search with any of the three value functions keeps at a positive value relays
  -- through no node that is judged unusable: on every edge but the last of the stated length, no
  -- health at or below 0.0 is reported. The length fits 64 bits, scores and rates are in [0.0, 1.0]
  -- and the penalty is not NaN.
  pub path_usable :
      (os : List (EdgeObservableRead F U)) {r : F}
      → length < u64_mod
      → penalty ≼ penalty
      → All IsMeasured os
      → ¬ (r ≼ nought)
      → (path_value (forward length penalty least face) os ≡ some r)
        ⊎ (path_value (returning length penalty least face) os ≡ some r)
        ⊎ (path_value (forward_without_self_loopback length penalty least face) os ≡ some r)
      → EachFrom (UsableRelay length) 0 os
  unfolding path_value forward returning forward_without_self_loopback
  path_usable os u q m p e =
      let start : InUnit whole = (nought-le-whole laws, whole_num laws) in
      let usable =
        λ (cost : F) (o : EdgeObservableRead F U) (index : ℕ) (c : InUnit cost) (s : IsMeasured o).
          value_fn-Usable cost o index u q c s in
      let falls =
        λ (cost : F) (o : EdgeObservableRead F U) (index : ℕ) (c : InUnit cost) (s : IsMeasured o).
          value_fn-le laws length penalty least face cost o index q c s in
      elim e [
        | inl a ↦
            walk_positive laws _ IsMeasured (λ c o i d s. (falls c o i d s).0) (UsableRelay length)
              (λ c o i d s. (usable c o i d s).0) os whole 0 start m a p
        | inr (inl a) ↦
            walk_positive laws _ IsMeasured (λ c o i d s. (falls c o i d s).1) (UsableRelay length)
              (λ c o i d s. (usable c o i d s).1) os whole 0 start m a p
        | inr (inr a) ↦
            walk_positive laws _ IsMeasured (λ c o i d s. (falls c o i d s).2) (UsableRelay length)
              (λ c o i d s. (usable c o i d s).2) os whole 0 start m a p
      ]
