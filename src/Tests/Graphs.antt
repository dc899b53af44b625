-- ===== src/Tests/Graphs.antt =====
-- A concrete graph for the routes of src/graph/traits.rs. It has the edges 1→2, 1→5, 2→3, 5→3 and 3→4,
-- and keeps a ticket price and the health of its nodes.
use hopr_api.Prelude.{
  ℕ, ◌≡◌, refl, inl, inr, true, ◌&&◌, Option, none, some, List, [], ◌∷◌, Memᴰ, contains,
  contains_sound, nat_eq, ◌==◌, Bool-cases, All, if◌then◌else◌, Option-cases, arith,
}
use mathlib.Core.Option.{some-injective}
use hopr_api.Float.Fixed.{Fixed, fixed_float}
use hopr_api.Word.{nat_word}
use hopr_api.Graph.Traits.{EdgeObservableRead}
use hopr_api.Graph.Function.Rejection.{IsMeasured}
use hopr_api.Graph.Function.Discovery.{none-some}
use hopr_api.Graph.Search.{
  NetworkGraphView, NetworkGraphTraverse, NetworkGraphUpdate, ReturnsRoutes, AllMeasured,
}
use hopr_api.Tests.Graph.{good_edge, last_hop, set_health}
use hopr_api.Tests.Searching.{routes_from, between_sound, anywhere_sound, limit, limited}

abbrev pub Observation : Type 0
Observation = EdgeObservableRead Fixed ℕ

pub record Held : Type 0 where
  pub face : Option ℕ
  pub health : ℕ → Option Fixed

-- What is stored of the edges, but for the health of the nodes that they lead to.
abbrev pub stored : List (ℕ × ℕ × Observation)
stored =
    (1, 2, good_edge)
    ∷ (1, 5, good_edge)
    ∷ (2, 3, good_edge)
    ∷ (5, 3, good_edge)
    ∷ (3, 4, last_hop)
    ∷ []

unfoldable pub look_up : List (ℕ × ℕ × Observation) → ℕ → ℕ → Option Observation
look_up [] a b = none
look_up ((x, y, o) ∷ edges) a b =
    let rest = look_up edges a b in if x == a && (y == b) then some o else rest

abbrev judged_by : Option Fixed → Option Observation → Option Observation
judged_by h none = none
judged_by h (some o) = some (record o { health = h })

abbrev edge_of : Held → ℕ → ℕ → Option Observation
edge_of g a b = judged_by (g.health b) (look_up stored a b)

abbrev pub members : List ℕ
members = 1 ∷ 2 ∷ 3 ∷ 4 ∷ 5 ∷ []

abbrev pub view : Held → NetworkGraphView ℕ Fixed ℕ
view g = record {
  ticket_face_value = g.face;
  node_count = 5;
  contains_node = contains members;
  nodes = members;
  edge = edge_of g;
  identity = 1;
  path_slot = λ n. if contains members n then some n else none;
}

abbrev pub search : Held → NetworkGraphTraverse ℕ ℕ Fixed ℕ
search g = record {
  simple_paths =
      λ from to n most v. limit most (routes_from members (edge_of g) v (some to) n from);
  simple_paths_from = λ from n most v. limit most (routes_from members (edge_of g) v none n from);
  simple_loopback_to_self = λ n most. [];
}

abbrev pub update : NetworkGraphUpdate Held ℕ Fixed ℕ (Unit {0}) (Unit {0})
update = record {
  set_ticket_face_value = λ face g. record g { face = some face };
  record_edge = λ m g. g;
  record_node = λ m g. g;
  record_node_health = λ node h g. record g { health = set_health node h g.health };
}

look_up-All :
    (P : ℕ → Observation → Type 0) (edges : List (ℕ × ℕ × Observation)) (a b : ℕ) (o : Observation)
    → All (λ e. P e.1 e.2) edges
    → look_up edges a b ≡ some o
    → P b o
unfolding look_up
look_up-All P [] a b o ps h = cc
look_up-All P ((x, y, q) ∷ edges) a b o (p, ps) h =
    let rest = look_up-All P edges a b o ps in
    elim (Bool-cases (x == a && (y == b))) [
      | inl e ↦
          let same : y ≡ b = ground arith in
          rw (← same, ← some-injective _ _ (rw (look_up, e) at h)) p
      | inr e ↦ rest (rw (look_up, e) at h)
    ]

-- A health apart, the observations are in their ranges, and the edge leads to a member.
abbrev IsStored : ℕ → Observation → Type 0
IsStored b o = Memᴰ b members × ((h : Option Fixed) → IsMeasured (record o { health = h }))

good-IsMeasured : (h : Option Fixed) → IsMeasured (record good_edge { health = h })
good-IsMeasured h = record {
  aggregate = (refl, refl);
  direct = ((refl, refl), (refl, refl));
  relayed = (refl, refl);
}

last-IsMeasured : (h : Option Fixed) → IsMeasured (record last_hop { health = h })
last-IsMeasured h = record {
  aggregate = (refl, refl);
  direct = ((refl, refl), (refl, refl));
  relayed = tt;
}

stored-IsStored : All (λ e. IsStored e.1 e.2) stored
unfolding contains
stored-IsStored =
    let leads = λ (b : ℕ) (e : contains members b ≡ true). contains_sound members b e in
    (
      (leads 2 refl, good-IsMeasured),
      (
        (leads 5 refl, good-IsMeasured),
        (
          (leads 3 refl, good-IsMeasured),
          ((leads 3 refl, good-IsMeasured), ((leads 4 refl, last-IsMeasured), tt)),
        ),
      ),
    )

pub edge-IsStored :
    (g : Held) (a b : ℕ) (o : Observation)
    → edge_of g a b ≡ some o
    → Memᴰ b members × IsMeasured o × (o.health ≡ g.health b)
edge-IsStored g a b o h = elim (Option-cases (look_up stored a b)) [
  | inl e ↦ absurd (none-some (rw e at h))
  | inr (q, e) ↦
      let (m, measured) = look_up-All IsStored stored a b q stored-IsStored e in
      rw (← some-injective _ _ (rw e at h)) (m, measured (g.health b), refl)
]

pub search-ReturnsRoutes : (g : Held) → ReturnsRoutes (view g) (search g)
search-ReturnsRoutes g = record {
  between = λ v n most from to ns id r m.
      between_sound members (edge_of g) v to n from ns id r (limited most _ m);
  anywhere = λ v n most from ns id r m.
      anywhere_sound members (edge_of g) v n from ns id r (limited most _ m);
}

pub view-AllMeasured : (g : Held) → AllMeasured (view g) (search g)
view-AllMeasured g a b o e = (edge-IsStored g a b o e).1
