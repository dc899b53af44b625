-- ===== src/Tests/EdgeValues/Folds.antt =====
-- The tests of whole folds in src/graph/function.rs, and of what the constructors agree on.
use hopr_api.Prelude.{every, ◌≡◌, refl, Bool, true, ◌&&◌, none, [], ◌∷◌, is_some_and}
use hopr_api.Float.Fixed.{Fixed, plus, scaled, fixed_float}
use hopr_api.Word.{nat_word}
use hopr_api.Graph.Function.{
  forward, returning, forward_without_self_loopback, terms, but_last_by_health, forward_edge_value,
  returning_edge_value, loopback_edge_value, first_edge, last_edge, return_edge, require_funding,
  scale_by_health, balance_suffices, apply_ack_rate, score_or_penalize,
}
use hopr_api.Tests.Fixtures.{
  micros, unit, below_zero, healthy, relayed_only, balance_only, connectivity_unknown,
  connectivity_down, Observations,
}
use hopr_api.Tests.EdgeValues.{
  Direction, onward, backward, without_self_loopback, directions, build, edge_value, value_from,
  same, is_positive, is_negative, both,
}

-- The multiplicative identity, and the floor below which a path is pruned.

abbrev value_fn_should_start_at_the_multiplicative_identity_and_floor_at_zero : Bool
value_fn_should_start_at_the_multiplicative_identity_and_floor_at_zero =
    every
      (λ direction.
        is_some_and (build direction 3 none)
          λ v. same v.initial (micros unit) && is_some_and v.min λ least. same least (plus 0))
      directions

value_fn_should_start_at_the_multiplicative_identity_and_floor_at_zero_passes :
    value_fn_should_start_at_the_multiplicative_identity_and_floor_at_zero ≡ true
unfolding forward returning forward_without_self_loopback terms but_last_by_health
    forward_edge_value returning_edge_value loopback_edge_value first_edge last_edge return_edge
    require_funding scale_by_health balance_suffices apply_ack_rate score_or_penalize scaled
value_fn_should_start_at_the_multiplicative_identity_and_floor_at_zero_passes = refl

abbrev fold_two : Direction → Observations → Observations → Fixed → Fixed → Bool
fold_two direction first last after_first_edge after_last_edge =
    is_some_and (value_from direction none 2 0 (micros unit) first) λ a.
      is_some_and (value_from direction none 2 1 a last)
        λ b. same a after_first_edge && same b after_last_edge

abbrev value_fn_should_fold_a_two_edge_path : Bool
value_fn_should_fold_a_two_edge_path =
    fold_two onward healthy balance_only (micros 855000) (micros 427500)
    && fold_two onward relayed_only healthy (below_zero unit) (below_zero 950000)
    && fold_two backward relayed_only healthy (micros 950000) (micros 812250)
    && fold_two backward balance_only healthy (micros 500000) (micros 427500)

value_fn_should_fold_a_two_edge_path_passes : value_fn_should_fold_a_two_edge_path ≡ true
unfolding forward returning forward_without_self_loopback terms but_last_by_health
    forward_edge_value returning_edge_value loopback_edge_value first_edge last_edge return_edge
    require_funding scale_by_health balance_suffices apply_ack_rate score_or_penalize scaled
value_fn_should_fold_a_two_edge_path_passes = refl

abbrev forward_and_returning_should_disagree_on_a_return_shaped_last_edge : Bool
forward_and_returning_should_disagree_on_a_return_shaped_last_edge =
    is_positive (edge_value onward 2 1 relayed_only)
    && is_negative (edge_value backward 2 1 relayed_only)

forward_and_returning_should_disagree_on_a_return_shaped_last_edge_passes :
    forward_and_returning_should_disagree_on_a_return_shaped_last_edge ≡ true
unfolding forward returning forward_without_self_loopback terms but_last_by_health
    forward_edge_value returning_edge_value loopback_edge_value first_edge last_edge return_edge
    require_funding scale_by_health balance_suffices apply_ack_rate score_or_penalize scaled
forward_and_returning_should_disagree_on_a_return_shaped_last_edge_passes = refl

abbrev returning_should_match_forward_on_intermediate_edges : Bool
returning_should_match_forward_on_intermediate_edges =
    both same (edge_value onward 3 1 healthy) (edge_value backward 3 1 healthy)

returning_should_match_forward_on_intermediate_edges_passes :
    returning_should_match_forward_on_intermediate_edges ≡ true
unfolding forward returning forward_without_self_loopback terms but_last_by_health
    forward_edge_value returning_edge_value loopback_edge_value first_edge last_edge return_edge
    require_funding scale_by_health balance_suffices apply_ack_rate score_or_penalize scaled
returning_should_match_forward_on_intermediate_edges_passes = refl

abbrev unchecked_connectivity_must_be_penalized_not_rejected : Bool
unchecked_connectivity_must_be_penalized_not_rejected =
    every
      (λ direction.
        is_positive (edge_value direction 3 0 connectivity_unknown)
        && is_negative (edge_value direction 3 0 connectivity_down))
      (onward ∷ without_self_loopback ∷ [])

unchecked_connectivity_must_be_penalized_not_rejected_passes :
    unchecked_connectivity_must_be_penalized_not_rejected ≡ true
unfolding forward returning forward_without_self_loopback terms but_last_by_health
    forward_edge_value returning_edge_value loopback_edge_value first_edge last_edge return_edge
    require_funding scale_by_health balance_suffices apply_ack_rate score_or_penalize scaled
unchecked_connectivity_must_be_penalized_not_rejected_passes = refl
