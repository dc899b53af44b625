-- ===== src/Graph/Search.antt =====
-- src/graph/traits.rs: what a graph answers, what its owner pushes into it and what a search in it
-- returns, as the traits document them. A trait of operations is the record of its operations, and
-- `G` is the state that a graph keeps.
use hopr_api.Prelude.{
  ℕ, ◌≡◌, ◌⊎◌, Bool, true, not, ◌&&◌, Option, some, List, [], ◌∷◌, Memᴰ, length, contains, Eq,
}
use hopr_api.Float.{Float}
use hopr_api.Graph.Traits.{EdgeObservableRead}
use hopr_api.Graph.Function.{EdgeValueFn}
use hopr_api.Graph.Function.Rejection.{IsMeasured}
use hopr_api.Graph.Function.Discovery.{path_value}

-- `K` is the type of nodes, `F` of floats, `U` of balances.
pub record NetworkGraphView {ℓ} (K F U : Type ℓ) : Type ℓ where
  pub ticket_face_value : Option U
  pub node_count : ℕ
  pub contains_node : K → Bool
  pub nodes : List K
  pub edge : K → K → Option (EdgeObservableRead F U)
  pub identity : K
  pub path_slot : K → Option ℕ

-- The nodes of a path, its identifier and its value.
abbrev pub Route {ℓ} : Type ℓ → Type ℓ → Type ℓ → Type ℓ
Route K P F = List K × P × F

-- `P` is the type of path identifiers; a search takes a length, how many paths to return at most,
-- and a value function.
pub record NetworkGraphTraverse {ℓ} (K P F U : Type ℓ) : Type ℓ where
  pub simple_paths :
      K → K → ℕ → Option ℕ → EdgeValueFn F (EdgeObservableRead F U) → List (Route K P F)
  pub simple_paths_from :
      K → ℕ → Option ℕ → EdgeValueFn F (EdgeObservableRead F U) → List (Route K P F)
  pub simple_loopback_to_self : ℕ → Option ℕ → List (List K × P)

-- `M` is the type of edge measurements, `N` of node observations.
pub record NetworkGraphUpdate {ℓ} (G K F U M N : Type ℓ) : Type ℓ where
  pub set_ticket_face_value : U → G → G
  pub record_edge : M → G → G
  pub record_node : N → G → G
  pub record_node_health : K → F → G → G

-- The observations of the edges between the nodes of a path.
pub data Follows {ℓ} {K O : Type ℓ} (edge : K → K → Option O) : List K → List O → Type ℓ where
  arrived : {a : K} → Follows edge (a ∷ []) []
  follows :
      {a b : K} {o : O} {ns : List K} {os : List O}
      → edge a b ≡ some o
      → Follows edge (b ∷ ns) os
      → Follows edge (a ∷ b ∷ ns) (o ∷ os)

module _ {ℓ} {K : Type ℓ} where
  -- The node at which a path from `a` ends.
  abbrev pub last_of : K → List K → K
  last_of a [] = a
  last_of a (b ∷ ns) = last_of b ns

  abbrev pub but_last : List K → List K
  but_last [] = []
  but_last (a ∷ []) = []
  but_last (a ∷ b ∷ ns) = a ∷ but_last (b ∷ ns)

  -- The nodes that relay: neither the first nor the last.
  abbrev pub relays : List K → List K
  relays [] = []
  relays (a ∷ ns) = but_last ns

  -- No node comes twice.
  abbrev pub distinct : ⦃e : Eq K⦄ → List K → Bool
  distinct [] = true
  distinct (a ∷ ns) = not (contains ns a) && distinct ns

module _ {ℓ} {K F U : Type ℓ} ⦃e : Eq K⦄ ⦃f : Float F⦄ where
  -- A simple path of `n` edges that the value function keeps, at the value of the fold.
  abbrev pub IsRoute :
      (K → K → Option (EdgeObservableRead F U))
      → EdgeValueFn F (EdgeObservableRead F U)
      → ℕ
      → K
      → K
      → List K
      → F
      → Type ℓ
  IsRoute edge v n from to ns r =
      (rest : List K) × (os : List (EdgeObservableRead F U)) × ((ns ≡ from ∷ rest)
        × (last_of from rest ≡ to)
        × (distinct ns ≡ true)
        × Follows edge ns os
        × (length os ≡ n)
        × (path_value v os ≡ some r))

module _ {ℓ} {K P F U : Type ℓ} ⦃e : Eq K⦄ ⦃f : Float F⦄ (view : NetworkGraphView K F U)
    (search : NetworkGraphTraverse K P F U) where
  -- The path is among those that one of the two searches with a value function returns.
  abbrev pub Finds :
      EdgeValueFn F (EdgeObservableRead F U) → ℕ → Option ℕ → K → K → Route K P F → Type ℓ
  Finds v n take from to route =
      Memᴰ route (search.simple_paths from to n take v)
      ⊎ Memᴰ route (search.simple_paths_from from n take v)

  -- What either search returns is a route from the source: to the destination, or to any other node.
  pub record ReturnsRoutes : Type ℓ where
    pub between :
        (v : EdgeValueFn F (EdgeObservableRead F U)) (n : ℕ) (take : Option ℕ) (from to : K)
        (ns : List K) (id : P) (r : F)
        → Memᴰ (ns, id, r) (search.simple_paths from to n take v)
        → IsRoute view.edge v n from to ns r
    pub anywhere :
        (v : EdgeValueFn F (EdgeObservableRead F U)) (n : ℕ) (take : Option ℕ) (from : K)
        (ns : List K) (id : P) (r : F)
        → Memᴰ (ns, id, r) (search.simple_paths_from from n take v)
        → (to : K) × IsRoute view.edge v n from to ns r

  -- The observations of every edge are in their documented ranges.
  abbrev pub AllMeasured : Type ℓ
  AllMeasured = (a b : K) (o : EdgeObservableRead F U) → view.edge a b ≡ some o → IsMeasured o
