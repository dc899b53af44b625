-- ===== src/Tests/Ranking.antt =====
-- The ranking of paths by src/graph/function.rs at concrete inputs.
use hopr_api.Prelude.{ℕ, ◌*◌, ◌^◌, ◌≡◌, refl, inl, true, some, List, [], ◌∷◌, arith}
use hopr_api.Float.{◌≼◌}
use hopr_api.Float.Fixed.{Fixed, plus, minus, scaled, fixed_float, Fixed-IsIeee}
use hopr_api.Word.{nat_word, nat-IsUnsigned}
use hopr_api.Graph.Traits.{EdgeObservableRead}
use hopr_api.Graph.Function.{
  score_or_penalize, scale_by_health, apply_ack_rate, balance_suffices, terms, require_funding,
  first_edge, last_edge, forward_edge_value, but_last_by_health, forward,
}
use hopr_api.Graph.Function.Rejection.{IsMeasured}
use hopr_api.Graph.Function.Discovery.{path_value, walk}
use hopr_api.Graph.Function.Ranking.{IsBetter}
use hopr_api.Graph.Function.Looser.Paths.{looser_terms_keep}
use hopr_api.Graph.Function.Ranking.Paths.{path_ranked}
use hopr_api.Tests.Graph.{
  half, perfect_link, good_edge, last_hop, good_path, good_edge-IsMeasured, last_hop-IsMeasured,
}

-- A peer that answers half of the probes, behind a channel of balance 9.
abbrev slow_edge : EdgeObservableRead Fixed ℕ
slow_edge = record good_edge {
  immediate_qos =
      some (record { link = perfect_link; is_connected = some true; ack_rate = some half });
  intermediate_qos =
      some (record { link = record perfect_link { score = some half }; balance = some 9 });
  score = some half;
}

abbrev slow_path : List (EdgeObservableRead Fixed ℕ)
slow_path = slow_edge ∷ slow_edge ∷ last_hop ∷ []

abbrev tenth : Fixed
tenth = plus (10 ^ 269)

abbrev eighth : Fixed
eighth = plus (125 * 10 ^ 267)

slow_path_value :
    path_value (forward {F = Fixed} {U = ℕ} 3 half half (some 3)) slow_path ≡ some eighth
unfolding path_value walk forward but_last_by_health forward_edge_value terms first_edge
    require_funding last_edge scale_by_health balance_suffices apply_ack_rate score_or_penalize
    scaled
slow_path_value = refl

slow_edge-IsMeasured : IsMeasured slow_edge
slow_edge-IsMeasured = record {
  aggregate = (refl, refl);
  direct = ((refl, refl), (refl, refl));
  relayed = (refl, refl);
}

good_edge-IsBetter : IsBetter nat-IsUnsigned slow_edge good_edge
good_edge-IsBetter = record {
  aggregate = refl;
  direct = record { connected = refl; score = refl; rate = refl };
  relayed = record { balance = omega arith; score = refl };
  health = tt;
}

last_hop-IsBetter : IsBetter nat-IsUnsigned last_hop last_hop
last_hop-IsBetter = record {
  aggregate = refl;
  direct = record { connected = refl; score = refl; rate = refl };
  relayed = tt;
  health = tt;
}

path_ranked_example :
    (r' : Fixed) × (path_value (forward {F = Fixed} {U = ℕ} 3 half half (some 3)) good_path
      ≡ some r')
    × (eighth ≼ r')
path_ranked_example =
    path_ranked Fixed-IsIeee nat-IsUnsigned 3 half half (some 3)
      (forward {F = Fixed} {U = ℕ} 3 half half (some 3)) slow_path good_path eighth (inl refl)
      (omega arith) refl (slow_edge-IsMeasured, (slow_edge-IsMeasured, (last_hop-IsMeasured, tt)))
      (good_edge-IsMeasured, (good_edge-IsMeasured, (last_hop-IsMeasured, tt)))
      (good_edge-IsBetter, (good_edge-IsBetter, (last_hop-IsBetter, tt))) slow_path_value (λ e. cc)

-- At a lower price of one, and with a minimum of a tenth.
looser_terms_keep_example :
    path_value (forward {F = Fixed} {U = ℕ} 3 half tenth (some 1)) slow_path ≡ some eighth
looser_terms_keep_example =
    looser_terms_keep Fixed-IsIeee nat-IsUnsigned 3 half tenth half 1 3 (omega arith) refl refl
      (omega arith) (forward {F = Fixed} {U = ℕ} 3 half tenth (some 1))
      (forward {F = Fixed} {U = ℕ} 3 half half (some 3)) slow_path eighth (inl (refl, refl))
      (slow_edge-IsMeasured, (slow_edge-IsMeasured, (last_hop-IsMeasured, tt))) slow_path_value
      (λ e. cc)

-- A first peer that acknowledges nothing, where no rate is too low, and then an edge without a
-- channel, which is rejected: 0.0 negated is not below 0.0, so the path is not discarded.
abbrev silent_edge : EdgeObservableRead Fixed ℕ
silent_edge = record good_edge {
  immediate_qos =
      some (record { link = perfect_link; is_connected = some true; ack_rate = some (plus 0) });
}

rejected_at_zero_stays :
    path_value
      (forward {F = Fixed} {U = ℕ} 3 half (plus 0) (some 3))
      (silent_edge ∷ last_hop ∷ last_hop ∷ [])
    ≡ some (minus 0)
unfolding path_value walk forward but_last_by_health forward_edge_value terms first_edge
    require_funding last_edge scale_by_health balance_suffices apply_ack_rate score_or_penalize
    scaled
rejected_at_zero_stays = refl
