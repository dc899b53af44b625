-- ===== src/Tests/Graph.antt =====
-- src/graph/function.rs at concrete inputs: binary64 numbers are `Fixed`, balances are numbers.
use hopr_api.Prelude.{
  ℕ, ◌*◌, ◌^◌, ◌<◌, ◌≡◌, refl, ◌↔◌, ◌⊎◌, inl, inr, true, false, Option, none, some, nat_eq, ◌==◌,
  List, [], ◌∷◌, ◌++◌, arith,
}
use hopr_api.Float.{clamp_unit, ◌≼◌, IsPositive}
use hopr_api.Float.Laws.{tiny_power}
use hopr_api.Float.Fixed.{Fixed, nan, plus, scaled, fixed_float, Fixed-IsIeee}
use hopr_api.Word.{nat_word, nat-IsUnsigned}
use hopr_api.Graph.Traits.{LinkObservable, EdgeObservableRead}
use hopr_api.Graph.Update.{record_nodes_health}
use hopr_api.Graph.Function.{
  score_or_penalize, scale_by_health, apply_ack_rate, balance_suffices, terms, require_funding,
  first_edge, last_edge, forward_edge_value, but_last_by_health, forward, returning,
  forward_without_self_loopback,
}
use hopr_api.Graph.Function.Funding.{Funds, balance_suffices_iff}
use hopr_api.Graph.Function.Rejection.{IsMeasured, Connects, AcksEnough, Backed}
use hopr_api.Graph.Function.Scaling.{Unusable, scale_by_health_iff}
use hopr_api.Graph.Function.Inner.{inner_agree}
use hopr_api.Graph.Function.Last.{forward_last-IsPositive}
use hopr_api.Graph.Function.Accepted.{accepted_funded}
use hopr_api.Graph.Function.Bounds.{value_fn-le}
use hopr_api.Graph.Function.Returning.{returning_last-IsPositive_iff}
use hopr_api.Graph.Function.Survival.{measured_dead_survives}
use hopr_api.Graph.Function.Discovery.{path_value, walk, EachFrom, FundsRest, path_funded}

abbrev pub one : Fixed
one = plus (10 ^ 270)

abbrev pub half : Fixed
half = plus (5 * 10 ^ 269)

abbrev pub perfect_link : LinkObservable Fixed
perfect_link = record { average_latency = some 20; average_probe_rate = some one; score = some one }

-- A connected peer, behind a channel of balance 10.
abbrev pub good_edge : EdgeObservableRead Fixed ℕ
good_edge = record {
  last_update = 0;
  immediate_qos =
      some (record { link = perfect_link; is_connected = some true; ack_rate = some one });
  intermediate_qos = some (record { link = perfect_link; balance = some 10 });
  score = some one;
  health = none;
}

-- The last edge of a path, without a channel.
abbrev pub last_hop : EdgeObservableRead Fixed ℕ
last_hop = record good_edge { intermediate_qos = none }

balance_suffices_iff_example :
    (balance_suffices {U = ℕ} (some 10) 3 3 ≡ true)
    ↔ (◌≡◌ {A = ℕ} 3 0 ⊎ Funds nat-IsUnsigned 3 3 (some 10))
balance_suffices_iff_example = balance_suffices_iff nat-IsUnsigned (some 10) 3 3 (omega arith)

abbrev pub good_path : List (EdgeObservableRead Fixed ℕ)
good_path = good_edge ∷ good_edge ∷ last_hop ∷ []

good_path_value : path_value (forward {F = Fixed} {U = ℕ} 3 half half (some 3)) good_path ≡ some one
unfolding path_value walk forward but_last_by_health forward_edge_value terms first_edge
    require_funding last_edge scale_by_health balance_suffices apply_ack_rate score_or_penalize
    scaled
good_path_value = refl

pub good_edge-IsMeasured : IsMeasured good_edge
good_edge-IsMeasured = record {
  aggregate = (refl, refl);
  direct = ((refl, refl), (refl, refl));
  relayed = (refl, refl);
}

pub last_hop-IsMeasured : IsMeasured last_hop
last_hop-IsMeasured = record {
  aggregate = (refl, refl);
  direct = ((refl, refl), (refl, refl));
  relayed = tt;
}

path_funded_example :
    EachFrom (FundsRest Fixed-IsIeee nat-IsUnsigned 3 half half (some 3)) 0 good_path
path_funded_example =
    path_funded Fixed-IsIeee nat-IsUnsigned 3 half half (some 3) good_path {r = one} (omega arith)
      refl (good_edge-IsMeasured, (good_edge-IsMeasured, (last_hop-IsMeasured, tt))) (λ e. cc)
      (inl good_path_value)

-- A relay that every probe failed at, which no one has judged.
abbrev dead_relay : EdgeObservableRead Fixed ℕ
dead_relay = record good_edge {
  intermediate_qos =
      some (record { link = record perfect_link { score = some (plus 0) }; balance = some 10 });
  score = some (plus 0);
}

dead_relay-IsMeasured : IsMeasured dead_relay
dead_relay-IsMeasured = record {
  aggregate = (refl, refl);
  direct = ((refl, refl), (refl, refl));
  relayed = (refl, refl);
}

measured_dead_survives_example :
    (r : Fixed) × (walk
        (forward_without_self_loopback 3 half half (some 3)).value_fn
        (some (plus 0))
        one
        1
        (dead_relay ∷ [])
      ≡ some r)
    × IsPositive r
unfolding Funds tiny_power
measured_dead_survives_example =
    measured_dead_survives Fixed-IsIeee nat-IsUnsigned 3 half half (some 3) (dead_relay ∷ []) one 1
      0 (omega arith) refl
      ((dead_relay-IsMeasured, refl, omega arith, omega arith, λ h. inr (ground arith)), tt)
      (refl, refl) refl (omega arith)

-- At the relay after the first of three edges.
abbrev BackedRelay : Type 0
BackedRelay = Backed Fixed-IsIeee nat-IsUnsigned 1 3 good_edge.intermediate_qos

accepted_funded_example :
    (plus 0 ≼ (forward 3 half half (some 3)).value_fn one good_edge 1 → BackedRelay)
    × (plus 0 ≼ (returning 3 half half (some 3)).value_fn one good_edge 1 → BackedRelay)
    × (plus 0 ≼ (forward_without_self_loopback 3 half half (some 3)).value_fn one good_edge 1
        → BackedRelay)
accepted_funded_example =
    accepted_funded Fixed-IsIeee nat-IsUnsigned 3 half half (some 3) one good_edge 1 (omega arith)
      (omega arith) (refl, λ e. cc)

value_fn-le_example :
    ((forward {U = ℕ} 3 half half none).value_fn half dead_relay 0 ≼ half)
    × ((returning {U = ℕ} 3 half half none).value_fn half dead_relay 0 ≼ half)
    × ((forward_without_self_loopback {U = ℕ} 3 half half none).value_fn half dead_relay 0 ≼ half)
value_fn-le_example =
    value_fn-le Fixed-IsIeee 3 half half none half dead_relay 0 refl (refl, refl)
      dead_relay-IsMeasured

scale_by_health_iff_example : (plus 0 ≼ scale_by_health one (some nan)) ↔ ¬ Unusable (some nan)
scale_by_health_iff_example = scale_by_health_iff Fixed-IsIeee one (some nan) (refl, λ e. cc) refl

inner_agree_example :
    ((forward 4 half half (some 3)).value_fn one dead_relay 2
      ≡ (forward_without_self_loopback 4 half half (some 3)).value_fn one dead_relay 2)
    × (0 < 2
        → (forward 4 half half (some 3)).value_fn one dead_relay 2
          ≡ (returning 4 half half (some 3)).value_fn one dead_relay 2)
inner_agree_example = inner_agree 4 half half (some 3) one dead_relay 2 (omega arith) (omega arith)

-- A graph that keeps the health of its nodes as a function.
abbrev pub set_health : ℕ → Fixed → (ℕ → Option Fixed) → ℕ → Option Fixed
set_health node health g n = elim (node == n) [ true ↦ some health | false ↦ g n ]

returning_last-IsPositive_iff_example :
    IsPositive ((returning {U = ℕ} 3 half half none).value_fn one good_edge 2)
    ↔ (Connects good_edge.immediate_qos × AcksEnough (clamp_unit half) good_edge.immediate_qos)
unfolding scaled
returning_last-IsPositive_iff_example =
    returning_last-IsPositive_iff Fixed-IsIeee nat-IsUnsigned 3 half half none one good_edge
      (omega arith) (omega arith) (refl, refl) refl refl (refl, λ e. cc) (refl, λ e. cc)
      good_edge-IsMeasured

-- Nothing speaks for this edge: no channel, no connection, an unusable destination.
abbrev lost_hop : EdgeObservableRead Fixed ℕ
lost_hop = record last_hop {
  immediate_qos =
      some (record { link = perfect_link; is_connected = some false; ack_rate = some (plus 0) });
  score = some (plus 0);
  health = some (plus 0);
}

lost_hop-IsMeasured : IsMeasured lost_hop
lost_hop-IsMeasured = record {
  aggregate = (refl, refl);
  direct = ((refl, refl), (refl, refl));
  relayed = tt;
}

forward_last-IsPositive_example :
    IsPositive ((forward {U = ℕ} 3 half half (some 3)).value_fn one lost_hop 2)
unfolding scaled
forward_last-IsPositive_example =
    forward_last-IsPositive Fixed-IsIeee nat-IsUnsigned 3 half half (some 3) one lost_hop
      (omega arith) (omega arith) (refl, refl) refl (refl, λ e. cc) lost_hop-IsMeasured

-- RecordedHealth, the recorder in the tests of src/graph/traits.rs.
abbrev recorded : ℕ → Fixed → List (ℕ × Fixed) → List (ℕ × Fixed)
recorded node health log = log ++ (node, health) ∷ []

record_nodes_health_should_record_each_node_in_order :
    record_nodes_health recorded ((1, plus 0) ∷ (2, half) ∷ []) [] ≡ (1, plus 0) ∷ (2, half) ∷ []
unfolding record_nodes_health
record_nodes_health_should_record_each_node_in_order = refl
