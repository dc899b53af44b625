-- ===== src/Tests/EdgeValues/Forward.antt =====
-- The table of the forward edges in the tests of src/graph/function.rs, in its order.
use hopr_api.Prelude.{every, ◌≡◌, refl, Bool, true, ◌&&◌, none, some, List, [], ◌∷◌}
use hopr_api.Float.Fixed.{plus, scaled, fixed_float}
use hopr_api.Word.{nat_word}
use hopr_api.Graph.Function.{
  forward, returning, forward_without_self_loopback, terms, but_last_by_health, forward_edge_value,
  returning_edge_value, loopback_edge_value, first_edge, last_edge, return_edge, require_funding,
  scale_by_health, balance_suffices, apply_ack_rate, score_or_penalize,
}
use hopr_api.Tests.Fixtures.{
  micros, unit, below_zero, unobserved, with_intermediate, immediate_only, healthy, relayed_only,
  balance_only, unfunded, acking, dead_intermediate, good_score,
}
use hopr_api.Tests.EdgeValues.{onward, Case, case, assert_edge_value}

-- The first edge needs connectivity and a balance that funds the hops after it.
abbrev first_edges : List Case
first_edges =
    case 3 0 (micros unit) healthy (micros 855000)
    ∷ case 3 0 (micros 2000000) healthy (micros 1710000)
    ∷ case 3 0 (micros unit) dead_intermediate (micros 427500)
    ∷ case 3 0 (micros unit) relayed_only (below_zero unit)
    ∷ case 3 0 (micros unit) immediate_only (below_zero unit)
    ∷ case 3 0 (micros unit) (with_intermediate healthy none (some good_score)) (below_zero unit)
    ∷ case 3 0 (micros unit) unobserved (below_zero unit)
    ∷ case 3 0 (micros unit) (acking (some (micros 50000))) (below_zero 950000)
    ∷ case 3 0 (micros unit) (acking none) (micros 475000)
    ∷ case 3 0 (micros unit) (acking (some (plus 0))) (below_zero 950000)
    ∷ case 3 0 (below_zero unit) unobserved (micros unit)
    ∷ []

-- An intermediate edge needs a balance that funds the hops after it.
abbrev intermediate_edges : List Case
intermediate_edges =
    case 3 1 (micros unit) healthy (micros 950000)
    ∷ case 3 1 (micros 2000000) healthy (micros 1900000)
    ∷ case 3 1 (micros unit) immediate_only (below_zero unit)
    ∷ case 3 1 (micros unit) unfunded (below_zero unit)
    ∷ case 3 1 (micros unit) balance_only (micros 500000)
    ∷ case 3 1 (micros unit) unobserved (below_zero unit)
    ∷ []

-- The last edge is penalized where it is not observed.
abbrev last_edges : List Case
last_edges =
    case 3 2 (micros unit) healthy (micros 950000)
    ∷ case 3 2 (micros 2000000) healthy (micros 1900000)
    ∷ case 3 2 (micros unit) balance_only (micros 500000)
    ∷ case 3 2 (micros unit) relayed_only (micros 950000)
    ∷ case 3 2 (micros unit) immediate_only (micros 950000)
    ∷ case 3 2 (micros unit) unfunded (micros 500000)
    ∷ case 3 2 (micros unit) unobserved (micros 500000)
    ∷ []

-- Paths of one edge and of two.
abbrev short_paths : List Case
short_paths =
    case 1 0 (micros unit) healthy (micros 855000)
    ∷ case 1 0 (micros unit) (acking (some (micros 50000))) (below_zero 950000)
    ∷ case 2 1 (micros unit) healthy (micros 950000)
    ∷ case 2 1 (micros unit) unobserved (micros 500000)
    ∷ []

abbrev forward_should_value_an_edge_by_position_and_observations : Bool
forward_should_value_an_edge_by_position_and_observations =
    every (assert_edge_value onward) first_edges
    && every (assert_edge_value onward) intermediate_edges
    && every (assert_edge_value onward) last_edges
    && every (assert_edge_value onward) short_paths

forward_should_value_an_edge_by_position_and_observations_passes :
    forward_should_value_an_edge_by_position_and_observations ≡ true
unfolding forward returning forward_without_self_loopback terms but_last_by_health
    forward_edge_value returning_edge_value loopback_edge_value first_edge last_edge return_edge
    require_funding scale_by_health balance_suffices apply_ack_rate score_or_penalize scaled
forward_should_value_an_edge_by_position_and_observations_passes = refl
