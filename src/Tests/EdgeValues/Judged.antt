-- ===== src/Tests/EdgeValues/Judged.antt =====
-- The tests of a relayer's health in src/graph/function.rs. Units of 1e-270 have no infinity: a
-- number above every double stands for it.
use hopr_api.Prelude.{every, ◌^◌, ◌≡◌, refl, Bool, true, ◌&&◌, Option, none, some, List, [], ◌∷◌}
use hopr_api.Float.Fixed.{Fixed, plus, minus, nan, flip, scaled, fixed_float}
use hopr_api.Word.{nat_word}
use hopr_api.Graph.Function.{
  forward, returning, forward_without_self_loopback, terms, but_last_by_health, forward_edge_value,
  returning_edge_value, loopback_edge_value, first_edge, last_edge, return_edge, require_funding,
  scale_by_health, balance_suffices, apply_ack_rate, score_or_penalize,
}
use hopr_api.Tests.Fixtures.{micros, unit, below_zero, healthy, unfunded, Observations}
use hopr_api.Tests.EdgeValues.{
  onward, backward, directions, edge_value, same, within, is_positive, is_negative, both,
}

abbrev infinity : Fixed
infinity = plus (10 ^ 600)

abbrev judged_healthy : Option Fixed → Observations
judged_healthy health = record healthy { health = health }

abbrev an_edge_into_an_unusable_node_should_be_rejected : Bool
an_edge_into_an_unusable_node_should_be_rejected =
    every
      (λ direction.
        is_positive (edge_value direction 3 1 healthy)
        && is_negative (edge_value direction 3 1 (judged_healthy (some (plus 0)))))
      directions

an_edge_into_an_unusable_node_should_be_rejected_passes :
    an_edge_into_an_unusable_node_should_be_rejected ≡ true
unfolding forward returning forward_without_self_loopback terms but_last_by_health
    forward_edge_value returning_edge_value loopback_edge_value first_edge last_edge return_edge
    require_funding scale_by_health balance_suffices apply_ack_rate score_or_penalize scaled
an_edge_into_an_unusable_node_should_be_rejected_passes = refl

-- 0.25 of the value, within 1e-12.
abbrev is_quarter : Fixed → Fixed → Bool
is_quarter x full = within (10 ^ 258) x (fixed_float.mul full (micros 250000))

abbrev an_edge_into_a_degraded_node_should_be_scaled_by_its_health : Bool
an_edge_into_a_degraded_node_should_be_scaled_by_its_health =
    every
      (λ direction.
        both is_quarter (edge_value direction 3 1 (judged_healthy (some (micros 250000))))
          (edge_value direction 3 1 healthy))
      directions

an_edge_into_a_degraded_node_should_be_scaled_by_its_health_passes :
    an_edge_into_a_degraded_node_should_be_scaled_by_its_health ≡ true
unfolding forward returning forward_without_self_loopback terms but_last_by_health
    forward_edge_value returning_edge_value loopback_edge_value first_edge last_edge return_edge
    require_funding scale_by_health balance_suffices apply_ack_rate score_or_penalize scaled
an_edge_into_a_degraded_node_should_be_scaled_by_its_health_passes = refl

abbrev the_edge_into_the_endpoint_should_ignore_relayer_health : Bool
the_edge_into_the_endpoint_should_ignore_relayer_health =
    every
      (λ direction.
        both same (edge_value direction 3 2 healthy)
          (edge_value direction 3 2 (judged_healthy (some (plus 0)))))
      (onward ∷ backward ∷ [])

the_edge_into_the_endpoint_should_ignore_relayer_health_passes :
    the_edge_into_the_endpoint_should_ignore_relayer_health ≡ true
unfolding forward returning forward_without_self_loopback terms but_last_by_health
    forward_edge_value returning_edge_value loopback_edge_value first_edge last_edge return_edge
    require_funding scale_by_health balance_suffices apply_ack_rate score_or_penalize scaled
the_edge_into_the_endpoint_should_ignore_relayer_health_passes = refl

abbrev an_unjudged_edge_should_keep_its_value : Bool
an_unjudged_edge_should_keep_its_value =
    both same (edge_value onward 3 1 (judged_healthy none))
      (edge_value onward 3 1 (judged_healthy (some (micros unit))))

an_unjudged_edge_should_keep_its_value_passes : an_unjudged_edge_should_keep_its_value ≡ true
unfolding forward returning forward_without_self_loopback terms but_last_by_health
    forward_edge_value returning_edge_value loopback_edge_value first_edge last_edge return_edge
    require_funding scale_by_health balance_suffices apply_ack_rate score_or_penalize scaled
an_unjudged_edge_should_keep_its_value_passes = refl

abbrev any_health : List (Option Fixed)
any_health =
    none
    ∷ some (plus 0)
    ∷ some (minus 0)
    ∷ some (micros 500000)
    ∷ some (micros unit)
    ∷ some (below_zero 12323000000)
    ∷ some nan
    ∷ some infinity
    ∷ []

abbrev a_rejected_edge_should_stay_rejected_whatever_the_health : Bool
a_rejected_edge_should_stay_rejected_whatever_the_health =
    every
      (λ direction.
        every
          (λ health. is_negative (edge_value direction 3 1 (record unfunded { health = health })))
          any_health)
      directions

a_rejected_edge_should_stay_rejected_whatever_the_health_passes :
    a_rejected_edge_should_stay_rejected_whatever_the_health ≡ true
unfolding forward returning forward_without_self_loopback terms but_last_by_health
    forward_edge_value returning_edge_value loopback_edge_value first_edge last_edge return_edge
    require_funding scale_by_health balance_suffices apply_ack_rate score_or_penalize scaled
a_rejected_edge_should_stay_rejected_whatever_the_health_passes = refl

abbrev scales : Fixed → Option Fixed → Fixed → Bool
scales value health expected = same (scale_by_health value health) expected

abbrev ten : Fixed
ten = micros 10000000

abbrev scale_by_health_should_handle_any_value : Bool
scale_by_health_should_handle_any_value =
    let rejected = below_zero 12323000000 in
    scales rejected (some (plus 0)) rejected
    && scales rejected (some rejected) rejected
    && scales rejected (some (micros unit)) rejected
    && scales (plus 0) (some (plus 0)) (plus 0)
    && scales ten (some (plus 0)) (flip ten)
    && scales ten (some (minus 0)) (flip ten)
    && scales ten (some rejected) (flip ten)
    && scales ten (some (flip infinity)) (flip ten)
    && scales ten (some (micros 250000)) (micros 2500000)
    && scales ten (some (micros unit)) ten
    && scales ten (some (micros 12323000000)) ten
    && scales ten (some infinity) ten
    && scales ten (some nan) ten
    && scales ten none ten

scale_by_health_should_handle_any_value_passes : scale_by_health_should_handle_any_value ≡ true
unfolding forward returning forward_without_self_loopback terms but_last_by_health
    forward_edge_value returning_edge_value loopback_edge_value first_edge last_edge return_edge
    require_funding scale_by_health balance_suffices apply_ack_rate score_or_penalize scaled
scale_by_health_should_handle_any_value_passes = refl
