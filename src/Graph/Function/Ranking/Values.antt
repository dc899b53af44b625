-- ===== src/Graph/Function/Ranking/Values.antt =====
-- The value functions of src/graph/function.rs rank a better edge no lower.
use hopr_api.Prelude.{ℕ, ◌+◌, ◌%◌, ◌<◌, inl, inr, Option, Bool-cases, ltb}
use hopr_api.Float.{Float, ◌≼◌, InUnit}
use hopr_api.Float.Laws.{IsIeee, clamp_unit-InUnit}
use hopr_api.Word.{Word, IsUnsigned, u64_mod}
use hopr_api.Graph.Traits.{EdgeObservableRead}
use hopr_api.Graph.Function.{
  terms, forward_edge_value, returning_edge_value, but_last_by_health, forward, returning,
  forward_without_self_loopback,
}
use hopr_api.Graph.Function.Rejection.{IsMeasured}
use hopr_api.Graph.Function.Bounds.{
  forward_edge_value-le, returning_edge_value-le, loopback_edge_value-le,
}
use hopr_api.Graph.Function.Ranking.{OptionLe, Improves, IsBetter}
use hopr_api.Graph.Function.Ranking.Scaling.{health_mono}
use hopr_api.Graph.Function.Ranking.Edges.{forward_mono, returning_mono, loopback_mono}

but_last_mono {ℓ} :
    {F U : Type ℓ} ⦃f : Float F⦄ ⦃w : Word U⦄ (laws : IsIeee F) (length : ℕ)
    (fn : F → EdgeObservableRead F U → ℕ → F) (cost cost' : F) (o o' : EdgeObservableRead F U)
    (index : ℕ)
    → fn cost o index ≼ f.whole
    → fn cost' o' index ≼ f.whole
    → OptionLe ◌≼◌ o.health o'.health
    → Improves (fn cost o index) (fn cost' o' index)
    → Improves
        (but_last_by_health length fn cost o index)
        (but_last_by_health length fn cost' o' index)
unfolding but_last_by_health
but_last_mono laws length fn cost cost' o o' index v v' b i =
    elim (Bool-cases (ltb ((index + 1) % u64_mod) length)) [
      | inl e ↦ rw e (health_mono laws _ _ o.health o'.health v v' b i)
      | inr e ↦ rw e i
    ]

module _ {ℓ} {F U : Type ℓ} ⦃f : Float F⦄ ⦃w : Word U⦄ (laws : IsIeee F) (words : IsUnsigned U)
    (length : ℕ) (penalty least : F) (face : Option U) (cost cost' : F)
    (o o' : EdgeObservableRead F U) (index : ℕ) (u : length < u64_mod) (q : penalty ≼ penalty)
    (c : f.nought ≼ cost) (h : cost ≼ cost') (c' : cost' ≼ f.whole) (b : IsBetter words o o')
    (s : IsMeasured o) (s' : IsMeasured o') where
  -- An edge that is at least as good as another, after a value at least as high, is valued at
  -- least as high where the other keeps a positive value.
  pub value_fn-Improves :
      Improves
        ((forward length penalty least face).value_fn cost o index)
        ((forward length penalty least face).value_fn cost' o' index)
      × Improves
          ((returning length penalty least face).value_fn cost o index)
          ((returning length penalty least face).value_fn cost' o' index)
      × Improves
          ((forward_without_self_loopback length penalty least face).value_fn cost o index)
          ((forward_without_self_loopback length penalty least face).value_fn cost' o' index)
  unfolding forward returning forward_without_self_loopback terms
  value_fn-Improves =
      let t = terms length penalty least face in
      let q0 = clamp_unit-InUnit laws penalty q in
      let unit : InUnit cost = (c, laws.le_trans _ _ _ h c') in
      let unit' : InUnit cost' = (laws.le_trans _ _ _ c h, c') in
      let low = λ (v : F) (z : v ≼ cost). laws.le_trans v cost f.whole z unit.1 in
      let high = λ (v : F) (z : v ≼ cost'). laws.le_trans v cost' f.whole z c' in
      (
        but_last_mono laws length (forward_edge_value t) cost cost' o o' index
            (low _ (forward_edge_value-le laws cost unit t q0 o s index))
            (high _ (forward_edge_value-le laws cost' unit' t q0 o' s' index)) b.health
            (forward_mono laws words cost cost' c h c' t q0 o o' b s s' index u),
        but_last_mono laws length (returning_edge_value t) cost cost' o o' index
            (low _ (returning_edge_value-le laws cost unit t q0 o s index))
            (high _ (returning_edge_value-le laws cost' unit' t q0 o' s' index)) b.health
            (returning_mono laws words cost cost' c h c' t q0 o o' b s s' index u),
        health_mono laws _ _ o.health o'.health
            (low _ (loopback_edge_value-le laws cost unit t q0 o s index))
            (high _ (loopback_edge_value-le laws cost' unit' t q0 o' s' index)) b.health
            (loopback_mono laws words cost cost' c h c' t q0 o o' b s s' index u),
      )
