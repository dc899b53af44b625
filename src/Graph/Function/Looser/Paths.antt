-- ===== src/Graph/Function/Looser/Paths.antt =====
-- Whole paths under stricter and looser terms of the value functions in src/graph/function.rs.
use hopr_api.Prelude.{
  ℕ, suc, ◌+◌, ◌%◌, ◌≤◌, ◌<◌, ◌≡◌, ◌⊎◌, inl, inr, false, some, List, [], ◌∷◌, All, arith,
  Bool-cases, ltb,
}
use hopr_api.Float.{Float, lt, ◌≼◌, InUnit, clamp_unit}
use hopr_api.Float.Laws.{IsIeee, whole_num, nought_num, nought-le-whole, clamp_unit-InUnit}
use hopr_api.Word.{Word, IsUnsigned, u64_mod}
use hopr_api.Graph.Traits.{EdgeObservableRead}
use hopr_api.Graph.Function.{
  EdgeValueFn, terms, but_last_by_health, forward_edge_value, returning_edge_value, forward,
  returning, forward_without_self_loopback,
}
use hopr_api.Graph.Function.Rejection.{IsMeasured}
use hopr_api.Graph.Function.Bounds.{
  value_fn-le, forward_edge_value-le, returning_edge_value-le, loopback_edge_value-le,
}
use hopr_api.Graph.Function.Discovery.{walk, path_value, kept, walk_step, walk_bounds}
use hopr_api.Graph.Function.Looser.{KeptAs, health-KeptAs, edges-KeptAs}

module _ {ℓ} {F : Type ℓ} ⦃f : Float F⦄ (laws : IsIeee F) where
  clamp_unit_mono : (x y : F) → x ≼ y → clamp_unit x ≼ clamp_unit y
  clamp_unit_mono x y h = ground (
    arith,
    laws.num_of_le x y h,
    nought_num laws,
    whole_num laws,
    nought-le-whole laws,
    laws.le_total x f.nought,
    laws.le_total y f.nought,
    laws.le_total x f.whole,
    laws.le_total y f.whole,
    laws.le_trans x y f.nought,
    laws.le_trans f.whole x y,
    laws.le_trans f.nought x y,
    laws.le_trans x y f.whole,
  )

but_last-KeptAs {ℓ} :
    {F U : Type ℓ} ⦃f : Float F⦄ ⦃w : Word U⦄ (laws : IsIeee F) (length : ℕ)
    (fn fn' : F → EdgeObservableRead F U → ℕ → F) (cost : F) (o : EdgeObservableRead F U)
    (index : ℕ)
    → fn' cost o index ≼ cost
    → KeptAs (fn cost o index) (fn' cost o index)
    → KeptAs
        (but_last_by_health length fn cost o index)
        (but_last_by_health length fn' cost o index)
unfolding but_last_by_health
but_last-KeptAs laws length fn fn' cost o index n k =
    elim (Bool-cases (ltb ((index + 1) % u64_mod) length)) [
      | inl e ↦ rw e (health-KeptAs laws _ _ o.health (laws.num_of_le _ _ n).0 k)
      | inr e ↦ rw e k
    ]

module _ {ℓ} {F U : Type ℓ} ⦃f : Float F⦄ ⦃w : Word U⦄ (laws : IsIeee F)
    (fn fn' : F → EdgeObservableRead F U → ℕ → F)
    (falls : (cost : F) (o : EdgeObservableRead F U) (index : ℕ)
      → InUnit cost
      → IsMeasured o
      → fn' cost o index ≼ cost)
    (keeps : (cost : F) (o : EdgeObservableRead F U) (index : ℕ)
      → InUnit cost
      → IsMeasured o
      → KeptAs (fn cost o index) (fn' cost o index)) where
  open f use {nought}

  above-lt : (v : F) → nought ≼ v → lt v nought ≡ false
  above-lt v h = ground arith

  walk_kept :
      (os : List (EdgeObservableRead F U)) (cost : F) (index : ℕ) (r : F)
      → InUnit cost
      → All IsMeasured os
      → walk fn' (some nought) cost index os ≡ some r
      → ¬ (r ≼ nought)
      → walk fn (some nought) cost index os ≡ some r
  unfolding walk
  walk_kept [] cost index r c m e p = e
  walk_kept (o ∷ os) cost index r c (m, ms) e p =
      let (low, e1) = walk_step laws fn' IsMeasured falls os cost o index e in
      let on = kept laws fn' IsMeasured falls cost o index c m low in
      let (_, top) =
        walk_bounds laws fn' IsMeasured falls os (fn' cost o index) (suc index) on ms e1 in
      let same = keeps cost o index c m (on.0, λ z. p (laws.le_trans _ _ _ top z)) in
      let rest = walk_kept os (fn' cost o index) (suc index) r on ms e1 p in
      rw (same, above-lt (fn' cost o index) on.0) rest

module _ {ℓ} {F U : Type ℓ} ⦃f : Float F⦄ ⦃w : Word U⦄ (laws : IsIeee F) (words : IsUnsigned U)
    (length : ℕ) (penalty least least' : F) (face face' : U) (u : length < u64_mod)
    (q : penalty ≼ penalty) (hl : least ≼ least')
    (hf : words.to_nat face ≤ words.to_nat face') where
  value_fn-KeptAs :
      (cost : F) (o : EdgeObservableRead F U) (index : ℕ)
      → InUnit cost
      → IsMeasured o
      → KeptAs
          ((forward length penalty least (some face)).value_fn cost o index)
          ((forward length penalty least' (some face')).value_fn cost o index)
        × KeptAs
            ((returning length penalty least (some face)).value_fn cost o index)
            ((returning length penalty least' (some face')).value_fn cost o index)
        × KeptAs
            ((forward_without_self_loopback length penalty least (some face)).value_fn cost o index)
            ((forward_without_self_loopback length penalty least' (some face')).value_fn cost o
              index)
  unfolding forward returning forward_without_self_loopback terms
  value_fn-KeptAs cost o index c m =
      let t = terms length penalty least' (some face') in
      let q0 = clamp_unit-InUnit laws penalty q in
      let (a, b, d) =
        edges-KeptAs laws words cost c t q0 (clamp_unit least) face
          (clamp_unit_mono laws least least' hl) hf o m index u in
      (
        but_last-KeptAs laws length _ (forward_edge_value t) cost o index
            (forward_edge_value-le laws cost c t q0 o m index) a,
        but_last-KeptAs laws length _ (returning_edge_value t) cost o index
            (returning_edge_value-le laws cost c t q0 o m index) b,
        health-KeptAs laws _ _ o.health
            (laws.num_of_le _ _ (loopback_edge_value-le laws cost c t q0 o m index)).0 d,
      )

  -- Looser terms keep what stricter ones kept: a path that any of the three value functions keeps at a
  -- positive value keeps exactly this value where the ticket price is lower or the minimum of
  -- acknowledgements is, so that both only decide what is rejected. The length fits 64 bits,
  -- scores and rates are in [0.0, 1.0] and the penalty is not NaN.
  pub looser_terms_keep :
      (v v' : EdgeValueFn F (EdgeObservableRead F U)) (os : List (EdgeObservableRead F U)) (r : F)
      → ((v ≡ forward length penalty least (some face))
          × (v' ≡ forward length penalty least' (some face')))
        ⊎ ((v ≡ returning length penalty least (some face))
            × (v' ≡ returning length penalty least' (some face')))
        ⊎ ((v ≡ forward_without_self_loopback length penalty least (some face))
            × (v' ≡ forward_without_self_loopback length penalty least' (some face')))
      → All IsMeasured os
      → path_value v' os ≡ some r
      → ¬ (r ≼ f.nought)
      → path_value v os ≡ some r
  unfolding path_value forward returning forward_without_self_loopback
  looser_terms_keep v v' os r d m e p =
      let start : InUnit f.whole = (nought-le-whole laws, whole_num laws) in
      let falls =
        λ (cost : F) (o : EdgeObservableRead F U) (index : ℕ) (c : InUnit cost) (s : IsMeasured o).
          value_fn-le laws length penalty least' (some face') cost o index q c s in
      elim d [
        | inl (a, b) ↦ rw a (
            walk_kept laws _ _ (λ c o i d s. (falls c o i d s).0)
              (λ c o i d s. (value_fn-KeptAs c o i d s).0) os f.whole 0 r start m (rw b at e) p)
        | inr (inl (a, b)) ↦ rw a (
            walk_kept laws _ _ (λ c o i d s. (falls c o i d s).1)
              (λ c o i d s. (value_fn-KeptAs c o i d s).1) os f.whole 0 r start m (rw b at e) p)
        | inr (inr (a, b)) ↦ rw a (
            walk_kept laws _ _ (λ c o i d s. (falls c o i d s).2)
              (λ c o i d s. (value_fn-KeptAs c o i d s).2) os f.whole 0 r start m (rw b at e) p)
      ]
