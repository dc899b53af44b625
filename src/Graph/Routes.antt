-- ===== src/Graph/Routes.antt =====
-- src/graph/traits.rs with src/graph/function.rs: the routes that a search in a graph finds with the
-- value functions.
use hopr_api.Prelude.{ℕ, ◌≡◌, ◌⊎◌, inl, inr, Option, some, List, All, Eq}
use hopr_api.Float.{Float}
use hopr_api.Word.{Word}
use hopr_api.Graph.Traits.{EdgeObservableRead}
use hopr_api.Graph.Function.{EdgeValueFn, forward, returning, forward_without_self_loopback}
use hopr_api.Graph.Function.Discovery.{path_value}
use hopr_api.Graph.Search.{
  NetworkGraphView, NetworkGraphTraverse, Follows, arrived, follows, IsRoute, Finds, ReturnsRoutes,
}

module _ {ℓ} {F U : Type ℓ} ⦃f : Float F⦄ ⦃w : Word U⦄ (n : ℕ) (penalty least : F)
    (face : Option U) where
  -- One of the three value functions for these terms.
  abbrev pub IsSearched : EdgeValueFn F (EdgeObservableRead F U) → Type ℓ
  IsSearched v =
      (v ≡ forward n penalty least face)
      ⊎ (v ≡ returning n penalty least face)
      ⊎ (v ≡ forward_without_self_loopback n penalty least face)

  pub valued :
      (v : EdgeValueFn F (EdgeObservableRead F U)) (os : List (EdgeObservableRead F U)) (r : F)
      → IsSearched v
      → path_value v os ≡ some r
      → (path_value (forward n penalty least face) os ≡ some r)
        ⊎ (path_value (returning n penalty least face) os ≡ some r)
        ⊎ (path_value (forward_without_self_loopback n penalty least face) os ≡ some r)
  valued v os r (inl a) e = inl (rw a at e)
  valued v os r (inr (inl a)) e = inr (inl (rw a at e))
  valued v os r (inr (inr a)) e = inr (inr (rw a at e))

pub followed {ℓ κ} :
    {K O : Type ℓ} (P : O → Type κ) {edge : K → K → Option O} {ns : List K} {os : List O}
    → ((a b : K) (o : O) → edge a b ≡ some o → P o)
    → Follows edge ns os
    → All P os
followed P each arrived = tt
followed P each (follows {a = a} {b = b} {o = o} e h) = (each a b o e, followed P each h)

module _ {ℓ} {K P F U : Type ℓ} ⦃e : Eq K⦄ ⦃f : Float F⦄ (view : NetworkGraphView K F U)
    (search : NetworkGraphTraverse K P F U) where
  -- Every route that a search finds is one to some node.
  pub found :
      (v : EdgeValueFn F (EdgeObservableRead F U)) (n : ℕ) (take : Option ℕ) (from to : K)
      (ns : List K) (id : P) (r : F)
      → ReturnsRoutes view search
      → Finds view search v n take from to (ns, id, r)
      → (at : K) × IsRoute view.edge v n from at ns r
  found v n take from to ns id r sound (inl m) = (to, sound.between v n take from to ns id r m)
  found v n take from to ns id r sound (inr m) = sound.anywhere v n take from ns id r m
