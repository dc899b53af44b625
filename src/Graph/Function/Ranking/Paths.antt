-- ===== src/Graph/Function/Ranking/Paths.antt =====
-- A search with the value functions of src/graph/function.rs ranks a better path no lower.
use hopr_api.Prelude.{
  ℕ, suc, ◌<◌, ◌≡◌, ◌⊎◌, inl, inr, refl, false, Option, some, List, [], ◌∷◌, All, arith,
}
use mathlib.Core.Option.{some-injective}
use hopr_api.Float.{Float, lt, ◌≼◌, InUnit}
use hopr_api.Float.Laws.{IsIeee, whole_num, nought-le-whole}
use hopr_api.Word.{Word, IsUnsigned, u64_mod}
use hopr_api.Graph.Traits.{EdgeObservableRead}
use hopr_api.Graph.Function.{EdgeValueFn, forward, returning, forward_without_self_loopback}
use hopr_api.Graph.Function.Rejection.{IsMeasured}
use hopr_api.Graph.Function.Bounds.{value_fn-le}
use hopr_api.Graph.Function.Discovery.{walk, path_value, kept, walk_step, walk_bounds}
use hopr_api.Graph.Function.Ranking.{Improves, IsBetter, BetterEach}
use hopr_api.Graph.Function.Ranking.Values.{value_fn-Improves}

module _ {ℓ} {F U : Type ℓ} ⦃f : Float F⦄ ⦃w : Word U⦄ (laws : IsIeee F) (words : IsUnsigned U)
    (fn : F → EdgeObservableRead F U → ℕ → F)
    (falls : (cost : F) (o : EdgeObservableRead F U) (index : ℕ)
      → InUnit cost
      → IsMeasured o
      → fn cost o index ≼ cost)
    (improves : (cost cost' : F) (o o' : EdgeObservableRead F U) (index : ℕ)
      → f.nought ≼ cost
      → cost ≼ cost'
      → cost' ≼ f.whole
      → IsBetter words o o'
      → IsMeasured o
      → IsMeasured o'
      → Improves (fn cost o index) (fn cost' o' index)) where
  open f use {nought, whole}
  open laws use {le_trans}

  above-lt : (v v' : F) → nought ≼ v → v ≼ v' → lt v' nought ≡ false
  above-lt v v' a b = ground (arith, le_trans nought v v' a b)

  walk_improves :
      (os os' : List (EdgeObservableRead F U)) (cost cost' : F) (index : ℕ) (r : F)
      → nought ≼ cost
      → cost ≼ cost'
      → cost' ≼ whole
      → All IsMeasured os
      → All IsMeasured os'
      → BetterEach words os os'
      → walk fn (some nought) cost index os ≡ some r
      → ¬ (r ≼ nought)
      → (r' : F) × (walk fn (some nought) cost' index os' ≡ some r') × (r ≼ r')
  unfolding walk
  walk_improves [] [] cost cost' index r c h c' m m' b e p =
      (cost', refl, rw (← some-injective _ _ e) h)
  walk_improves (o ∷ os) (o' ∷ os') cost cost' index r c h c' (m, ms) (m', ms') (b, bs) e p =
      let unit : InUnit cost = (c, le_trans _ _ _ h c') in
      let unit' : InUnit cost' = (le_trans _ _ _ c h, c') in
      let (low, e1) = walk_step laws fn IsMeasured falls os cost o index e in
      let on = kept laws fn IsMeasured falls cost o index unit m low in
      let (_, top) =
        walk_bounds laws fn IsMeasured falls os (fn cost o index) (suc index) on ms e1 in
      let up = improves cost cost' o o' index c h c' b m m' (on.0, λ z. p (le_trans _ _ _ top z)) in
      let high = le_trans _ _ _ (falls cost' o' index unit' m') c' in
      let rest =
        walk_improves os os' (fn cost o index) (fn cost' o' index) (suc index) r on.0 up high ms ms'
          bs e1 p in
      rw (above-lt (fn cost o index) (fn cost' o' index) on.0 up) rest
  walk_improves [] (o' ∷ os') cost cost' index r c h c' m m' b e p = absurd b
  walk_improves (o ∷ os) [] cost cost' index r c h c' m m' b e p = absurd b

module _ {ℓ} {F U : Type ℓ} ⦃f : Float F⦄ ⦃w : Word U⦄ (laws : IsIeee F) (words : IsUnsigned U)
    (length : ℕ) (penalty least : F) (face : Option U) where
  open f use {nought, whole}

  -- Each of the three value functions ranks paths by their observations: where a search keeps a
  -- path at a positive value, it keeps any path of as many edges whose observations are at least
  -- as good, edge by edge, and values it no lower. At least as good means the same kinds of
  -- observations and the same connectivity, with scores, rates, balances and health no lower. The
  -- length fits 64 bits, scores and rates are in [0.0, 1.0] and the penalty is not NaN.
  pub path_ranked :
      (v : EdgeValueFn F (EdgeObservableRead F U)) (os os' : List (EdgeObservableRead F U)) (r : F)
      → (v ≡ forward length penalty least face)
        ⊎ (v ≡ returning length penalty least face)
        ⊎ (v ≡ forward_without_self_loopback length penalty least face)
      → length < u64_mod
      → penalty ≼ penalty
      → All IsMeasured os
      → All IsMeasured os'
      → BetterEach words os os'
      → path_value v os ≡ some r
      → ¬ (r ≼ nought)
      → (r' : F) × (path_value v os' ≡ some r') × (r ≼ r')
  unfolding path_value forward returning forward_without_self_loopback
  path_ranked v os os' r d u q m m' b e p =
      let start : InUnit whole = (nought-le-whole laws, whole_num laws) in
      let falls =
        λ (cost : F) (o : EdgeObservableRead F U) (index : ℕ) (c : InUnit cost) (s : IsMeasured o).
          value_fn-le laws length penalty least face cost o index q c s in
      let up =
        λ (cost cost' : F) (o o' : EdgeObservableRead F U) (index : ℕ) (c : nought ≼ cost)
            (h : cost ≼ cost') (c' : cost' ≼ whole) (b : IsBetter words o o') (s : IsMeasured o)
            (s' : IsMeasured o').
          value_fn-Improves laws words length penalty least face cost cost' o o' index u q c h c' b
            s s' in
      elim d [
        | inl a ↦ rw a (
            walk_improves laws words _ (λ c o i d s. (falls c o i d s).0)
              (λ c c' o o' i z h z' b s s'. (up c c' o o' i z h z' b s s').0) os os' whole whole 0 r
              start.0 start.1 start.1 m m' b (rw a at e) p)
        | inr (inl a) ↦ rw a (
            walk_improves laws words _ (λ c o i d s. (falls c o i d s).1)
              (λ c c' o o' i z h z' b s s'. (up c c' o o' i z h z' b s s').1) os os' whole whole 0 r
              start.0 start.1 start.1 m m' b (rw a at e) p)
        | inr (inr a) ↦ rw a (
            walk_improves laws words _ (λ c o i d s. (falls c o i d s).2)
              (λ c c' o o' i z h z' b s s'. (up c c' o o' i z h z' b s s').2) os os' whole whole 0 r
              start.0 start.1 start.1 m m' b (rw a at e) p)
      ]
