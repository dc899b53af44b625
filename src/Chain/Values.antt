-- ===== src/Chain/Values.antt =====
-- src/chain/values.rs and src/chain/events.rs: records of on-chain information, and what a
-- subscription replays first. `H` is the type of hashes, `B` of balances, `N` of names, `C` of
-- contract addresses.
use hopr_api.Prelude.{ℕ, List, []}

pub record DomainSeparators {ℓ} (H : Type ℓ) : Type ℓ where
  pub ledger : H
  pub safe_registry : H
  pub channel : H

pub record ChainInfo {ℓ} (N C : Type ℓ) : Type ℓ where
  pub chain_id : ℕ
  pub hopr_network_name : N
  pub contract_addresses : C

pub record RedemptionStats {ℓ} (B : Type ℓ) : Type ℓ where
  pub redeemed_count : ℕ
  pub redeemed_value : B

pub data StateSyncOptions : Type 0 where
  opened_channels public_accounts all_accounts service_registry_config : StateSyncOptions

-- `with_state_sync` is the implementor's `subscribe_with_state_sync`.
abbrev pub subscribe {ℓ} : {X : Type ℓ} → (List StateSyncOptions → X) → X
subscribe with_state_sync = with_state_sync []
