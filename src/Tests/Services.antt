-- ===== src/Tests/Services.antt =====
-- The tests of src/chain/services.rs. A service type and an address are numbers.
use hopr_api.Prelude.{ℕ, ◌≡◌, refl, Bool, true, false, not, ◌&&◌, Option, ◌==◌, nat_eq, is_some_and}
use hopr_api.Chain.Services.{
  ServiceEntry, ServiceSelector, default, with_service_type, with_node, with_live_only, satisfies,
}

abbrev node : ℕ
node = 1

abbrev other_node : ℕ
other_node = 2

abbrev gvpn_exit : ℕ
gvpn_exit = 1

abbrev other_type : ℕ
other_type = 2

abbrev service_entry : ℕ → ℕ → ServiceEntry ℕ ℕ
service_entry service_type address = record { service_type = service_type; node = address }

abbrev entry : ServiceEntry ℕ ℕ
entry = service_entry gvpn_exit node

abbrev default_service_selector_should_accept_live_and_dead_entries_alike : Bool
default_service_selector_should_accept_live_and_dead_entries_alike =
    satisfies default entry true && satisfies default entry false

accepts_alike_passes : default_service_selector_should_accept_live_and_dead_entries_alike ≡ true
unfolding default satisfies
accepts_alike_passes = refl

abbrev service_selector_should_filter_by_service_type : Bool
service_selector_should_filter_by_service_type =
    satisfies (with_service_type gvpn_exit default) entry true
    && not (satisfies (with_service_type other_type default) entry true)

filters_by_type_passes : service_selector_should_filter_by_service_type ≡ true
unfolding default satisfies with_service_type
filters_by_type_passes = refl

abbrev service_selector_should_filter_by_node : Bool
service_selector_should_filter_by_node =
    satisfies (with_node node default) entry true
    && not (satisfies (with_node other_node default) entry true)

filters_by_node_passes : service_selector_should_filter_by_node ≡ true
unfolding default satisfies with_node
filters_by_node_passes = refl

abbrev service_selector_live_only_should_drop_entries_whose_node_has_no_safe_binding : Bool
service_selector_live_only_should_drop_entries_whose_node_has_no_safe_binding =
    satisfies (with_live_only true default) entry true
    && not (satisfies (with_live_only true default) entry false)

drops_dead_passes :
    service_selector_live_only_should_drop_entries_whose_node_has_no_safe_binding ≡ true
unfolding default satisfies with_live_only
drops_dead_passes = refl

abbrev composed : ServiceSelector ℕ ℕ
composed = with_live_only true (with_node node (with_service_type gvpn_exit default))

abbrev is_number : ℕ → Option ℕ → Bool
is_number n o = is_some_and o λ x. x == n

abbrev service_selector_builder_methods_should_compose : Bool
service_selector_builder_methods_should_compose =
    is_number gvpn_exit composed.service_type
    && is_number node composed.node
    && composed.live_only
    && satisfies composed (service_entry gvpn_exit node) true
    && not (satisfies composed (service_entry gvpn_exit node) false)
    && not (satisfies composed (service_entry other_type node) true)
    && not (satisfies composed (service_entry gvpn_exit other_node) true)

composes_passes : service_selector_builder_methods_should_compose ≡ true
unfolding default satisfies with_service_type with_node with_live_only
composes_passes = refl
