-- ===== src/Chain/Services.antt =====
-- src/chain/services.rs: the configuration of the service registry, and the service selector.
use hopr_api.Prelude.{
  ◌≡◌, refl, ◌↔◌, Bool, true, false, not, ◌&&◌, Option, none, some, arith, if◌then◌else◌, Eq,
  matches, matches_iff, guard_iff, if_not_iff, Every,
}

-- `B` is the type of balances.
pub record ServiceTypeConfig {ℓ} (A B : Type ℓ) : Type ℓ where
  pub owner : Option A
  pub requirement : Option A
  pub registration_burn : B
  pub update_burn : B

pub record ServiceRegistryConfig {ℓ} (A B : Type ℓ) : Type ℓ where
  pub type_registration_fee : B
  pub node_safe_registry : A

-- What the selector reads of a `ServiceEntry` of hopr_types.
pub record ServiceEntry {ℓ} (A T : Type ℓ) : Type ℓ where
  pub service_type : T
  pub node : A

pub record ServiceSelector {ℓ} (A T : Type ℓ) : Type ℓ where
  pub service_type : Option T
  pub node : Option A
  pub live_only : Bool

module _ {ℓ} {A T : Type ℓ} where
  unfoldable pub default : ServiceSelector A T
  default = record { service_type = none; node = none; live_only = false }

  unfoldable pub with_service_type : T → ServiceSelector A T → ServiceSelector A T
  with_service_type service_type s = record s { service_type = some service_type }

  unfoldable pub with_node : A → ServiceSelector A T → ServiceSelector A T
  with_node node s = record s { node = some node }

  unfoldable pub with_live_only : Bool → ServiceSelector A T → ServiceSelector A T
  with_live_only live_only s = record s { live_only = live_only }

live_iff : (only live : Bool) → ((not (only && not live)) ≡ true) ↔ (only ≡ true → live ≡ true)
live_iff only live = ground arith

module _ {ℓ} {A T : Type ℓ} ⦃ea : Eq A⦄ ⦃et : Eq T⦄ where
  -- The caller tells whether the entry's node is live.
  unfoldable pub satisfies : ServiceSelector A T → ServiceEntry A T → Bool → Bool
  satisfies s entry node_is_live =
      if s.live_only && not node_is_live
      then false
      else if not (matches s.service_type entry.service_type)
      then false
      else if not (matches s.node entry.node)
      then false
      else true

  -- An entry is selected exactly when it passes every filter that is set, and no other; a dead node
  -- counts only where live ones are asked for.
  pub service_satisfies_iff :
      (s : ServiceSelector A T) (entry : ServiceEntry A T) (node_is_live : Bool)
      → (satisfies s entry node_is_live ≡ true) ↔ (
          (s.live_only ≡ true → node_is_live ≡ true)
          × (Every (λ t. entry.service_type ≡ t) s.service_type
              × (Every (λ a. entry.node ≡ a) s.node × Unit {0})))
  unfolding satisfies
  service_satisfies_iff s entry node_is_live = guard_iff _ _ (live_iff s.live_only node_is_live) (
      if_not_iff _ _ (matches_iff s.service_type entry.service_type)
        (if_not_iff _ _ (matches_iff s.node entry.node) (λ _. tt, λ _. refl)))

  -- The order of the builder's calls does not matter, and each field that was set rejects alone: a
  -- selector with all three takes just the live entries of that type and node.
  pub composed_iff :
      (t : T) (n : A) (entry : ServiceEntry A T) (node_is_live : Bool)
      → let s = with_live_only true (with_node n (with_service_type t default)) in
        (s ≡ with_service_type t (with_node n (with_live_only true default)))
        × ((satisfies s entry node_is_live ≡ true)
            ↔ ((node_is_live ≡ true) × (entry.service_type ≡ t) × (entry.node ≡ n)))
  unfolding default with_service_type with_node with_live_only
  composed_iff t n entry node_is_live =
      let all =
        service_satisfies_iff (record { service_type = some t; node = some n; live_only = true })
          entry node_is_live in
      (
        refl,
        (
          λ h. let (a, (b, (c, _))) = all.0 h in (a refl, b, c),
          λ h. all.1 ((λ _. h.0), (h.1, (h.2, tt))),
        ),
      )
