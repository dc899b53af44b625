-- ===== src/Chain/Safe.antt =====
-- src/chain/safe.rs: deployed Safes and their selector.
use mathlib.Core.List.{Memᴰ}
use hopr_api.Prelude.{◌≡◌, ◌↔◌, Bool, true, List, Eq, contains, contains_sound, contains_complete}

pub record DeployedSafe {ℓ} (A : Type ℓ) : Type ℓ where
  pub address : A
  pub owners : List A
  pub module_address : A
  pub registered_nodes : List A
  pub deployer : A

pub data SafeSelector {ℓ} (A : Type ℓ) : Type ℓ where
  address : A → SafeSelector A
  deployer : A → SafeSelector A
  node_address : A → SafeSelector A
  owner : A → SafeSelector A

module _ {ℓ} {A : Type ℓ} ⦃e : Eq A⦄ where
  unfoldable pub satisfies : SafeSelector A → DeployedSafe A → Bool
  satisfies (address a) safe = e.beq safe.address a
  satisfies (deployer a) safe = e.beq safe.deployer a
  satisfies (node_address a) safe = contains safe.registered_nodes a
  satisfies (owner a) safe = contains safe.owners a

  -- A Safe is selected exactly when it has the address or the deployer named, or when the node or
  -- the owner named is listed in it.
  pub safe_satisfies_iff :
      (a : A) (safe : DeployedSafe A)
      → ((satisfies (address a) safe ≡ true) ↔ (safe.address ≡ a))
        × ((satisfies (deployer a) safe ≡ true) ↔ (safe.deployer ≡ a))
        × ((satisfies (node_address a) safe ≡ true) ↔ Memᴰ a safe.registered_nodes)
        × ((satisfies (owner a) safe ≡ true) ↔ Memᴰ a safe.owners)
  unfolding satisfies
  safe_satisfies_iff a safe = (
    e.beq_iff safe.address a,
    e.beq_iff safe.deployer a,
    (contains_sound safe.registered_nodes a, contains_complete safe.registered_nodes a),
    (contains_sound safe.owners a, contains_complete safe.owners a),
  )
