-- ===== src/Tests/EdgeValues/Backward.antt =====
-- The tables of the return paths and of the loopback in the tests of src/graph/function.rs.
use hopr_api.Prelude.{every, ◌≡◌, refl, Bool, true, none, some, List, [], ◌∷◌}
use hopr_api.Float.Fixed.{plus, scaled, fixed_float}
use hopr_api.Word.{nat_word}
use hopr_api.Graph.Function.{
  forward, returning, forward_without_self_loopback, terms, but_last_by_health, forward_edge_value,
  returning_edge_value, loopback_edge_value, first_edge, last_edge, return_edge, require_funding,
  scale_by_health, balance_suffices, apply_ack_rate, score_or_penalize,
}
use hopr_api.Tests.Fixtures.{
  micros, picos, unit, below_zero, unobserved, with_immediate, with_intermediate, immediate_only,
  healthy, relayed_only, balance_only, acking, good_ack,
}
use hopr_api.Tests.EdgeValues.{backward, without_self_loopback, Case, case, assert_edge_value}

-- The return path starts at the relay next to the destination.
abbrev return_edges : List Case
return_edges =
    case 2 0 (micros unit) relayed_only (micros 950000)
    ∷ case 2 0 (micros unit) healthy (micros 950000)
    ∷ case 2 0 (micros 2000000) relayed_only (micros 1900000)
    ∷ case 2 0 (micros unit) balance_only (micros 500000)
    ∷ case 2 0 (micros unit) immediate_only (below_zero unit)
    ∷ case 2 0 (micros unit) unobserved (below_zero unit)
    ∷ case 2 1 (micros unit) healthy (micros 855000)
    ∷ case 2 1 (micros unit) relayed_only (below_zero unit)
    ∷ case 2 1 (micros unit) (with_intermediate healthy none (some (plus 0))) (micros 855000)
    ∷ case 2 1 (micros unit) (with_immediate unobserved (some (plus 0)) (some good_ack)) (picos 900)
    ∷ case 2 1 (micros unit) (acking (some (micros 50000))) (below_zero 950000)
    ∷ case 3 1 (micros unit) balance_only (micros 500000)
    ∷ []

abbrev returning_should_value_an_edge_by_position_and_observations : Bool
returning_should_value_an_edge_by_position_and_observations =
    every (assert_edge_value backward) return_edges

returning_should_value_an_edge_by_position_and_observations_passes :
    returning_should_value_an_edge_by_position_and_observations ≡ true
unfolding forward returning forward_without_self_loopback terms but_last_by_health
    forward_edge_value returning_edge_value loopback_edge_value first_edge last_edge return_edge
    require_funding scale_by_health balance_suffices apply_ack_rate score_or_penalize scaled
returning_should_value_an_edge_by_position_and_observations_passes = refl

-- Planned onward, without the edge back to this node.
abbrev loopback_edges : List Case
loopback_edges =
    case 3 0 (micros unit) (acking (some (micros 50000))) (below_zero 950000)
    ∷ case 3 0 (micros unit) healthy (micros 855000)
    ∷ []

abbrev forward_without_self_loopback_should_value_an_edge_by_position_and_observations : Bool
forward_without_self_loopback_should_value_an_edge_by_position_and_observations =
    every (assert_edge_value without_self_loopback) loopback_edges

forward_without_self_loopback_should_value_an_edge_by_position_and_observations_passes :
    forward_without_self_loopback_should_value_an_edge_by_position_and_observations ≡ true
unfolding forward returning forward_without_self_loopback terms but_last_by_health
    forward_edge_value returning_edge_value loopback_edge_value first_edge last_edge return_edge
    require_funding scale_by_health balance_suffices apply_ack_rate score_or_penalize scaled
forward_without_self_loopback_should_value_an_edge_by_position_and_observations_passes = refl
