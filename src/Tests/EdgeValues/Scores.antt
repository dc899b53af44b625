-- ===== src/Tests/EdgeValues/Scores.antt =====
-- The tests of scores in src/graph/function.rs: aggregates, and measured-dead edges.
use hopr_api.Prelude.{
  ◌+◌, ◌*◌, ◌^◌, ◌≡◌, refl, Bool, true, false, not, ◌&&◌, Option, none, some, ltb,
}
use hopr_api.Float.{lt}
use hopr_api.Float.Fixed.{Fixed, plus, scaled, fixed_float}
use hopr_api.Word.{nat_word}
use hopr_api.Graph.Function.{
  forward, returning, forward_without_self_loopback, terms, but_last_by_health, forward_edge_value,
  returning_edge_value, loopback_edge_value, first_edge, last_edge, return_edge, require_funding,
  scale_by_health, balance_suffices, apply_ack_rate, score_or_penalize,
}
use hopr_api.Tests.Fixtures.{
  micros, unit, unobserved, with_immediate, with_intermediate, healthy, relayed_only, acking,
  dead_intermediate, funded_with, good_score, good_ack, funded, Observations,
}
use hopr_api.Tests.EdgeValues.{onward, edge_value, same, within, is_positive, both}

abbrev fully_acked : Observations → Observations
fully_acked o = with_immediate o (some good_score) (some (micros unit))

abbrev forward_first_edge_should_score_the_aggregate_rather_than_the_better_stream : Bool
forward_first_edge_should_score_the_aggregate_rather_than_the_better_stream =
    both (λ masked intact. lt masked intact && within (10 ^ 261) masked (micros 475000))
      (edge_value onward 3 0 (fully_acked dead_intermediate))
      (edge_value onward 3 0 (fully_acked healthy))

forward_first_edge_should_score_the_aggregate_rather_than_the_better_stream_passes :
    forward_first_edge_should_score_the_aggregate_rather_than_the_better_stream ≡ true
unfolding forward returning forward_without_self_loopback terms but_last_by_health
    forward_edge_value returning_edge_value loopback_edge_value first_edge last_edge return_edge
    require_funding scale_by_health balance_suffices apply_ack_rate score_or_penalize scaled
forward_first_edge_should_score_the_aggregate_rather_than_the_better_stream_passes = refl

abbrev forward_first_edge_should_ignore_an_allocated_but_empty_intermediate_stream : Bool
forward_first_edge_should_ignore_an_allocated_but_empty_intermediate_stream =
    both (within (10 ^ 258)) (edge_value onward 2 0 (funded_with funded))
      (edge_value onward 2 0 (with_intermediate healthy (some funded) none))

forward_first_edge_should_ignore_an_allocated_but_empty_intermediate_stream_passes :
    forward_first_edge_should_ignore_an_allocated_but_empty_intermediate_stream ≡ true
unfolding forward returning forward_without_self_loopback terms but_last_by_health
    forward_edge_value returning_edge_value loopback_edge_value first_edge last_edge return_edge
    require_funding scale_by_health balance_suffices apply_ack_rate score_or_penalize scaled
forward_first_edge_should_ignore_an_allocated_but_empty_intermediate_stream_passes = refl

abbrev forward_first_edge_should_rank_a_higher_ack_rate_higher : Bool
forward_first_edge_should_rank_a_higher_ack_rate_higher =
    both lt (edge_value onward 3 0 (acking (some (micros 300000))))
      (edge_value onward 3 0 (acking (some good_ack)))

forward_first_edge_should_rank_a_higher_ack_rate_higher_passes :
    forward_first_edge_should_rank_a_higher_ack_rate_higher ≡ true
unfolding forward returning forward_without_self_loopback terms but_last_by_health
    forward_edge_value returning_edge_value loopback_edge_value first_edge last_edge return_edge
    require_funding scale_by_health balance_suffices apply_ack_rate score_or_penalize scaled
forward_first_edge_should_rank_a_higher_ack_rate_higher_passes = refl

abbrev forward_intermediate_edge_should_depend_on_its_observations : Bool
forward_intermediate_edge_should_depend_on_its_observations =
    both (λ x y. not (same x y)) (edge_value onward 3 1 unobserved) (edge_value onward 3 1 healthy)

forward_intermediate_edge_should_depend_on_its_observations_passes :
    forward_intermediate_edge_should_depend_on_its_observations ≡ true
unfolding forward returning forward_without_self_loopback terms but_last_by_health
    forward_edge_value returning_edge_value loopback_edge_value first_edge last_edge return_edge
    require_funding scale_by_health balance_suffices apply_ack_rate score_or_penalize scaled
forward_intermediate_edge_should_depend_on_its_observations_passes = refl

abbrev relayed : Option Fixed → Option Fixed
relayed score = edge_value onward 3 1 (with_intermediate unobserved (some funded) score)

-- The worst positive score is 0.2 * 0.15.

abbrev forward_should_rank_a_measured_dead_edge_below_a_barely_working_one : Bool
forward_should_rank_a_measured_dead_edge_below_a_barely_working_one =
    both lt (relayed (some (plus 0))) (relayed (some (micros 30000)))
    && both lt (relayed (some (micros 30000))) (relayed none)

forward_should_rank_a_measured_dead_edge_below_a_barely_working_one_passes :
    forward_should_rank_a_measured_dead_edge_below_a_barely_working_one ≡ true
unfolding forward returning forward_without_self_loopback terms but_last_by_health
    forward_edge_value returning_edge_value loopback_edge_value first_edge last_edge return_edge
    require_funding scale_by_health balance_suffices apply_ack_rate score_or_penalize scaled
forward_should_rank_a_measured_dead_edge_below_a_barely_working_one_passes = refl

-- `dead / (dead + sound) < 1e-8`, for values that are not negative.
abbrev negligible_share : Fixed → Fixed → Bool
negligible_share (plus dead) (plus sound) = ltb (dead * 10 ^ 8) (dead + sound)
negligible_share _ _ = false

abbrev forward_should_starve_a_measured_dead_edge_without_pruning_it : Bool
forward_should_starve_a_measured_dead_edge_without_pruning_it =
    is_positive (relayed (some (plus 0)))
    && both (λ dead sound. lt dead (micros 1) && negligible_share dead sound)
        (relayed (some (plus 0))) (edge_value onward 3 1 relayed_only)

forward_should_starve_a_measured_dead_edge_without_pruning_it_passes :
    forward_should_starve_a_measured_dead_edge_without_pruning_it ≡ true
unfolding forward returning forward_without_self_loopback terms but_last_by_health
    forward_edge_value returning_edge_value loopback_edge_value first_edge last_edge return_edge
    require_funding scale_by_health balance_suffices apply_ack_rate score_or_penalize scaled
forward_should_starve_a_measured_dead_edge_without_pruning_it_passes = refl
