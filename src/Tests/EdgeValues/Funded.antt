-- ===== src/Tests/EdgeValues/Funded.antt =====
-- The tests of channel funding in src/graph/function.rs.
use hopr_api.Prelude.{
  every, ℕ, ◌-◌, ◌*◌, ◌≡◌, refl, Bool, true, not, ◌&&◌, Option, none, some, [], ◌∷◌, is_some_and,
  unwrap_or,
}
use hopr_api.Float.{lt}
use hopr_api.Float.Fixed.{scaled, fixed_float}
use hopr_api.Word.{nat_word}
use hopr_api.Graph.Function.{
  forward, returning, forward_without_self_loopback, terms, but_last_by_health, forward_edge_value,
  returning_edge_value, loopback_edge_value, first_edge, last_edge, return_edge, require_funding,
  scale_by_health, balance_suffices, apply_ack_rate, score_or_penalize, default_ticket_face_value,
}
use hopr_api.Tests.Fixtures.{
  micros, unit, unobserved, with_intermediate, funded_with, good_score, funded, test_penalty,
}
use hopr_api.Tests.EdgeValues.{
  Direction, onward, backward, without_self_loopback, edge_value, value_from, is_positive,
  is_negative,
}

abbrev face_value : Option ℕ → ℕ
face_value ticket_face_value = unwrap_or ticket_face_value default_ticket_face_value

abbrev suffices : Option ℕ → ℕ → Option ℕ → Bool
suffices balance hops ticket_face_value =
    balance_suffices balance hops (face_value ticket_face_value)

abbrev balance_suffices_should_gate_on_a_fundable_channel : Bool
balance_suffices_should_gate_on_a_fundable_channel =
    suffices none 0 none
    && suffices (some 0) 0 none
    && suffices (some 0) 0 (some 0)
    && not (suffices none 1 none)
    && not (suffices (some 0) 1 none)
    && suffices (some 2) 2 (some 1)
    && not (suffices (some 1) 2 (some 1))
    && suffices (some 1) 1 (some 1)
    && suffices (some 0) 3 (some 0)
    && not (suffices none 3 (some 0))

balance_suffices_should_gate_on_a_fundable_channel_passes :
    balance_suffices_should_gate_on_a_fundable_channel ≡ true
unfolding forward returning forward_without_self_loopback terms but_last_by_health
    forward_edge_value returning_edge_value loopback_edge_value first_edge last_edge return_edge
    require_funding scale_by_health balance_suffices apply_ack_rate score_or_penalize scaled
balance_suffices_should_gate_on_a_fundable_channel_passes = refl

abbrev scales_with : ℕ → Option ℕ → Bool
scales_with hops ticket_face_value =
    let required = hops * face_value ticket_face_value in
    suffices (some required) hops ticket_face_value
    && not (suffices (some (required - 1)) hops ticket_face_value)

abbrev balance_suffices_should_scale_with_remaining_hops_and_face_value : Bool
balance_suffices_should_scale_with_remaining_hops_and_face_value =
    every (λ hops. scales_with hops none && scales_with hops (some 1000)) (1 ∷ 2 ∷ 3 ∷ [])

balance_suffices_should_scale_with_remaining_hops_and_face_value_passes :
    balance_suffices_should_scale_with_remaining_hops_and_face_value ≡ true
unfolding forward returning forward_without_self_loopback terms but_last_by_health
    forward_edge_value returning_edge_value loopback_edge_value first_edge last_edge return_edge
    require_funding scale_by_health balance_suffices apply_ack_rate score_or_penalize scaled
balance_suffices_should_scale_with_remaining_hops_and_face_value_passes = refl

abbrev balance_suffices_should_require_more_as_the_face_value_grows : Bool
balance_suffices_should_require_more_as_the_face_value_grows =
    suffices (some 1) 1 none && not (suffices (some 1) 1 (some 1000))

balance_suffices_should_require_more_as_the_face_value_grows_passes :
    balance_suffices_should_require_more_as_the_face_value_grows ≡ true
unfolding forward returning forward_without_self_loopback terms but_last_by_health
    forward_edge_value returning_edge_value loopback_edge_value first_edge last_edge return_edge
    require_funding scale_by_health balance_suffices apply_ack_rate score_or_penalize scaled
balance_suffices_should_require_more_as_the_face_value_grows_passes = refl

abbrev needs_more_than : ℕ → ℕ → Bool
needs_more_than index insufficient =
    is_negative (edge_value onward 3 index (funded_with insufficient))
    && is_positive (edge_value onward 3 index (funded_with funded))

abbrev forward_should_reject_an_edge_whose_balance_cannot_fund_the_remaining_hops : Bool
forward_should_reject_an_edge_whose_balance_cannot_fund_the_remaining_hops =
    needs_more_than 0 1 && needs_more_than 1 0

forward_should_reject_an_edge_whose_balance_cannot_fund_the_remaining_hops_passes :
    forward_should_reject_an_edge_whose_balance_cannot_fund_the_remaining_hops ≡ true
unfolding forward returning forward_without_self_loopback terms but_last_by_health
    forward_edge_value returning_edge_value loopback_edge_value first_edge last_edge return_edge
    require_funding scale_by_health balance_suffices apply_ack_rate score_or_penalize scaled
forward_should_reject_an_edge_whose_balance_cannot_fund_the_remaining_hops_passes = refl

abbrev forward_last_edge_should_accept_a_drained_channel : Bool
forward_last_edge_should_accept_a_drained_channel =
    is_some_and (edge_value onward 3 2 (with_intermediate unobserved (some 0) (some good_score)))
      (lt test_penalty)

forward_last_edge_should_accept_a_drained_channel_passes :
    forward_last_edge_should_accept_a_drained_channel ≡ true
unfolding forward returning forward_without_self_loopback terms but_last_by_health
    forward_edge_value returning_edge_value loopback_edge_value first_edge last_edge return_edge
    require_funding scale_by_health balance_suffices apply_ack_rate score_or_penalize scaled
forward_last_edge_should_accept_a_drained_channel_passes = refl

abbrev forward_first_edge_should_reject_when_the_face_value_outgrows_the_balance : Bool
forward_first_edge_should_reject_when_the_face_value_outgrows_the_balance =
    is_positive (value_from onward none 3 0 (micros unit) (funded_with 1000))
    && is_negative (value_from onward (some 10000) 3 0 (micros unit) (funded_with 1000))

forward_first_edge_should_reject_when_the_face_value_outgrows_the_balance_passes :
    forward_first_edge_should_reject_when_the_face_value_outgrows_the_balance ≡ true
unfolding forward returning forward_without_self_loopback terms but_last_by_health
    forward_edge_value returning_edge_value loopback_edge_value first_edge last_edge return_edge
    require_funding scale_by_health balance_suffices apply_ack_rate score_or_penalize scaled
forward_first_edge_should_reject_when_the_face_value_outgrows_the_balance_passes = refl

abbrev forward_without_self_loopback_should_reject_an_index_past_the_declared_length : Bool
forward_without_self_loopback_should_reject_an_index_past_the_declared_length =
    every
      (λ index.
        is_negative (value_from without_self_loopback none 2 index (micros unit) (funded_with 0)))
      (2 ∷ 5 ∷ [])

forward_without_self_loopback_should_reject_an_index_past_the_declared_length_passes :
    forward_without_self_loopback_should_reject_an_index_past_the_declared_length ≡ true
unfolding forward returning forward_without_self_loopback terms but_last_by_health
    forward_edge_value returning_edge_value loopback_edge_value first_edge last_edge return_edge
    require_funding scale_by_health balance_suffices apply_ack_rate score_or_penalize scaled
forward_without_self_loopback_should_reject_an_index_past_the_declared_length_passes = refl

abbrev rejects_at : Direction → ℕ → Option ℕ → Bool
rejects_at direction index face =
    is_negative (value_from direction face 2 index (micros unit) (funded_with 0))

abbrev require_funding_should_reject_an_index_past_the_declared_length : Bool
require_funding_should_reject_an_index_past_the_declared_length =
    every
      (λ direction.
        every (λ index. rejects_at direction index none && rejects_at direction index (some 0))
          (2 ∷ 5 ∷ []))
      (onward ∷ backward ∷ [])

require_funding_should_reject_an_index_past_the_declared_length_passes :
    require_funding_should_reject_an_index_past_the_declared_length ≡ true
unfolding forward returning forward_without_self_loopback terms but_last_by_health
    forward_edge_value returning_edge_value loopback_edge_value first_edge last_edge return_edge
    require_funding scale_by_health balance_suffices apply_ack_rate score_or_penalize scaled
require_funding_should_reject_an_index_past_the_declared_length_passes = refl
