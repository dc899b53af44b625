-- ===== src/Graph/Update.antt =====
-- src/graph/types.rs, and the provided methods of src/graph/traits.rs: the measurements that a graph
-- takes, and what its owner records of the health of its nodes. A node is its packet key.
use hopr_api.Prelude.{
  ℕ, ◌≡◌, refl, ap, ◌∙◌, Bool, true, false, Option, some, List, [], ◌∷◌, is_some, Result, Eq,
}

-- `K` is the type of packet keys, `P` of paths, `N` of neighbours, `U` of balances.
pub data NetworkGraphError {ℓ} (K P : Type ℓ) : Type ℓ where
  probe_neighbor_timeout : K → NetworkGraphError K P
  probe_loopback_timeout : P → NetworkGraphError K P

pub record EdgeBalanceUpdate {ℓ} (K U : Type ℓ) : Type ℓ where
  pub balance : Option U
  pub src : K
  pub dest : K

pub record ForwardAndReturnPath {ℓ} (P : Type ℓ) : Type ℓ where
  pub forward : P
  pub reply : P

pub record SurbTelemetry {ℓ} (P : Type ℓ) : Type ℓ where
  pub paths : ForwardAndReturnPath P
  pub timestamp : ℕ
  pub expected : ℕ
  pub observed : ℕ

pub data EdgeTransportTelemetry {ℓ} (N P : Type ℓ) : Type ℓ where
  loopback : P → EdgeTransportTelemetry N P
  neighbor : N → EdgeTransportTelemetry N P

-- `R` is the type of the paths that a SURB names.
pub data MeasurableEdge {ℓ} (K N P R U : Type ℓ) : Type ℓ where
  probe : Result (EdgeTransportTelemetry N P) (NetworkGraphError K P) → MeasurableEdge K N P R U
  surb : SurbTelemetry R → MeasurableEdge K N P R U
  balance : EdgeBalanceUpdate K U → MeasurableEdge K N P R U
  connection_status : K → Bool → MeasurableEdge K N P R U

pub data NodeObservation {ℓ} (T : Type ℓ) : Type ℓ where
  discovered : T → NodeObservation T
  connected : T → NodeObservation T
  disconnected : T → NodeObservation T

-- The provided method: an edge is there where observations of it are.
abbrev pub has_edge {ℓ} : {K O : Type ℓ} → (K → K → Option O) → K → K → Bool
has_edge edge src dest = is_some (edge src dest)

-- `record_node_health` of a graph with state `G`; the loop calls it in the order of the list.
module _ {ℓ} {K F G : Type ℓ} (record_node_health : K → F → G → G) where
  unfoldable pub record_nodes_health : List (K × F) → G → G
  record_nodes_health [] g = g
  record_nodes_health ((node, health) ∷ healths) g =
      record_nodes_health healths (record_node_health node health g)

module _ {ℓ} {K F : Type ℓ} ⦃e : Eq K⦄ where
  -- The last health that the list has for the node, or `before`.
  abbrev pub last_health : Option F → List (K × F) → K → Option F
  last_health before [] n = before
  last_health before ((node, health) ∷ healths) n =
      last_health (elim (e.beq node n) [ true ↦ some health | false ↦ before ]) healths n

module _ {ℓ} {K F G : Type ℓ} ⦃e : Eq K⦄ (record_node_health : K → F → G → G)
    (health_of : G → K → Option F) where
  -- Recording a health sets that of the node and of no other.
  abbrev pub SetsHealth : Type ℓ
  SetsHealth =
      (node n : K) (health : F) (g : G)
      → health_of (record_node_health node health g) n
        ≡ (elim (e.beq node n) [ true ↦ some health | false ↦ health_of g n ])

  -- In a graph that sets the health of one node at a time, a batch leaves each node with the last
  -- health that the batch has for it, and the others as they were.
  pub record_nodes_health_lem :
      SetsHealth
      → (healths : List (K × F)) (g : G) (n : K)
      → health_of (record_nodes_health record_node_health healths g) n
        ≡ last_health (health_of g n) healths n
  unfolding record_nodes_health
  record_nodes_health_lem sets [] g n = refl
  record_nodes_health_lem sets ((node, health) ∷ healths) g n =
      record_nodes_health_lem sets healths (record_node_health node health g) n
      ∙ ap (λ before. last_health before healths n) (sets node n health g)
