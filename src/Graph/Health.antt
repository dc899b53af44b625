-- ===== src/Graph/Health.antt =====
-- src/graph/traits.rs with src/graph/function.rs: the health that was recorded of nodes, and the
-- routes that a search finds afterwards.
use hopr_api.Prelude.{
  ℕ, suc, ◌+◌, ◌<◌, ◌≡◌, ◌∙◌, Option, some, List, [], ◌∷◌, Memᴰ, length, Eq, arith,
}
use hopr_api.Float.{Float, ◌≼◌}
use hopr_api.Float.Laws.{IsIeee}
use hopr_api.Word.{Word, u64_mod}
use hopr_api.Graph.Traits.{EdgeObservableRead}
use hopr_api.Graph.Update.{record_nodes_health, last_health, SetsHealth, record_nodes_health_lem}
use hopr_api.Graph.Function.{EdgeValueFn}
use hopr_api.Graph.Function.Rejection.{IsMeasured}
use hopr_api.Graph.Function.Discovery.{EachFrom}
use hopr_api.Graph.Function.Relays.{UsableRelay, path_usable}
use hopr_api.Graph.Routes.{IsSearched, valued, followed, found}
use hopr_api.Graph.Search.{
  NetworkGraphView, NetworkGraphTraverse, NetworkGraphUpdate, Follows, arrived, follows, but_last,
  relays, Finds, ReturnsRoutes, AllMeasured,
}

module _ {ℓ} {G K P F U M N : Type ℓ} ⦃e : Eq K⦄ ⦃f : Float F⦄ ⦃w : Word U⦄
    (view : G → NetworkGraphView K F U) (search : G → NetworkGraphTraverse K P F U)
    (update : NetworkGraphUpdate G K F U M N) where
  -- The state keeps the health of each node, and every edge into a node reports it.
  abbrev pub ReportsHealth : (G → K → Option F) → Type ℓ
  ReportsHealth health_of =
      (g : G) (a b : K) (o : EdgeObservableRead F U)
      → (view g).edge a b ≡ some o
      → o.health ≡ health_of g b

  module _ (g : G) (health_of : G → K → Option F) (node : K) (h : F)
      (reports : ReportsHealth health_of) (judged : health_of g node ≡ some h)
      (unusable : h ≼ f.nought) (n : ℕ) where
    not_relayed :
        (ns : List K) {os : List (EdgeObservableRead F U)} (a : K) (index : ℕ)
        → Follows (view g).edge (a ∷ ns) os
        → index + length os ≡ n
        → EachFrom (UsableRelay n) index os
        → ¬ Memᴰ node (but_last ns)
    not_relayed [] a index arrived l each m = elim m [ ]
    not_relayed (b ∷ []) a index (follows e path) l each m = elim m [ ]
    not_relayed (b ∷ c ∷ ns) a index (follows {o = o} e (follows e' path)) l (usable, each)
          (Memᴰ.head k) =
        usable (omega (arith, l)) (rw (reports g a b o e, ← k, judged) unusable)
    not_relayed (b ∷ c ∷ ns) a index (follows e path) l (usable, each) (Memᴰ.tail m) =
        not_relayed (c ∷ ns) b (suc index) path (omega (arith, l)) each m

    route_avoids :
        (ns : List K) {os : List (EdgeObservableRead F U)}
        → Follows (view g).edge ns os
        → length os ≡ n
        → EachFrom (UsableRelay n) 0 os
        → ¬ Memᴰ node (relays ns)
    route_avoids [] path l each m = elim m [ ]
    route_avoids (a ∷ ns) path l each m = not_relayed ns a 0 path (omega (arith, l)) each m

  -- After the health of nodes is recorded in a graph, a search with any of the three value functions
  -- finds no route of positive value that relays through a node whose last recorded health is at or
  -- below 0.0. The graph sets the health of one node at a time and reports it on every edge into the
  -- node; it returns routes with its observations, which are in their ranges; the length fits 64
  -- bits and the penalty is not NaN.
  pub unusable_relay_avoided :
      (laws : IsIeee F) (health_of : G → K → Option F) (healths : List (K × F)) (g : G) (node : K)
      (h : F) (v : EdgeValueFn F (EdgeObservableRead F U)) (n : ℕ) (take : Option ℕ) (from to : K)
      (penalty least : F) (face : Option U) (ns : List K) (id : P) (r : F)
      → let after = record_nodes_health update.record_node_health healths g in
        SetsHealth update.record_node_health health_of
        → ReportsHealth health_of
        → last_health (health_of g node) healths node ≡ some h
        → h ≼ f.nought
        → IsSearched n penalty least face v
        → ReturnsRoutes (view after) (search after)
        → AllMeasured (view after) (search after)
        → n < u64_mod
        → penalty ≼ penalty
        → Finds (view after) (search after) v n take from to (ns, id, r)
        → ¬ (r ≼ f.nought)
        → ¬ Memᴰ node (relays ns)
  unusable_relay_avoided laws health_of healths g node h v n take from to penalty least face ns id r
        sets reports last unusable searched sound measured u q m p =
      let after = record_nodes_health update.record_node_health healths g in
      let (at, (rest, os, (starts, ends, simple, along, long, value))) =
        found (view after) (search after) v n take from to ns id r sound m in
      let judged : health_of after node ≡ some h =
        record_nodes_health_lem update.record_node_health health_of sets healths g node ∙ last in
      let each =
        path_usable laws n penalty least face os u q (followed IsMeasured measured along) p
          (valued n penalty least face v os r searched value) in
      route_avoids after health_of node h reports judged unusable n ns along long each
