-- ===== src/Tests/Routes.antt =====
-- Routes in a graph at concrete inputs (src/graph/traits.rs with src/graph/function.rs).
use hopr_api.Prelude.{
  ℕ, ◌≡◌, refl, inl, Option, none, some, List, [], ◌∷◌, Memᴰ, contains, nat_eq, arith,
}
use hopr_api.Float.Fixed.{Fixed, plus, scaled, fixed_float, Fixed-IsIeee}
use hopr_api.Word.{nat_word}
use hopr_api.Graph.Update.{record_nodes_health}
use hopr_api.Graph.Function.{
  EdgeValueFn, score_or_penalize, scale_by_health, apply_ack_rate, balance_suffices, terms,
  require_funding, first_edge, last_edge, forward_edge_value, but_last_by_health, forward,
}
use hopr_api.Graph.Function.Discovery.{path_value, walk}
use hopr_api.Graph.Search.{relays}
use hopr_api.Graph.Health.{unusable_relay_avoided}
use hopr_api.Tests.Graph.{one, half}
use hopr_api.Tests.Searching.{in_each, walks_from, routes_from}
use hopr_api.Tests.Graphs.{
  Held, Observation, view, search, update, look_up, edge-IsStored, search-ReturnsRoutes,
  view-AllMeasured,
}

-- At a price of 3, and no node judged.
abbrev held : Held
held = record { face = some 3; health = λ n. none }

abbrev by_price : Option ℕ → EdgeValueFn Fixed Observation
by_price face = forward 3 half half face

-- The node 5 is judged healthy and then unusable.
abbrev judgements : List (ℕ × Fixed)
judgements = (5, one) ∷ (2, half) ∷ (5, plus 0) ∷ []

abbrev later : Held
later = record_nodes_health update.record_node_health judgements held

judged_finds :
    (search later).simple_paths 1 4 3 none (by_price (some 3)) ≡ (1 ∷ 2 ∷ 3 ∷ 4 ∷ [], 0, half) ∷ []
unfolding routes_from in_each walks_from look_up contains path_value walk forward but_last_by_health
    forward_edge_value terms first_edge require_funding last_edge scale_by_health balance_suffices
    apply_ack_rate score_or_penalize scaled record_nodes_health
judged_finds = refl

finds_past_five :
    Memᴰ (1 ∷ 2 ∷ 3 ∷ 4 ∷ [], 0, half) ((search later).simple_paths 1 4 3 none (by_price (some 3)))
finds_past_five = rw judged_finds (Memᴰ.head refl)

unusable_relay_avoided_example : ¬ Memᴰ {A = ℕ} 5 (relays (1 ∷ 2 ∷ 3 ∷ 4 ∷ []))
unusable_relay_avoided_example =
    unusable_relay_avoided view search update Fixed-IsIeee (λ g. g.health) judgements held 5
      (plus 0) (by_price (some 3)) 3 none 1 4 half half (some 3) (1 ∷ 2 ∷ 3 ∷ 4 ∷ []) 0 half
      (λ node n h g. refl) (λ g a b o e. (edge-IsStored g a b o e).2) refl refl (inl refl)
      (search-ReturnsRoutes later) (view-AllMeasured later) (omega arith) refl (inl finds_past_five)
      (λ e. cc)
