-- ===== src/Chain/Accounts.antt =====
-- src/chain/accounts.rs: the errors of account writes, and the account selector.
use hopr_api.Prelude.{
  ◌≡◌, refl, ◌↔◌, Bool, true, false, not, ◌&&◌, Option, none, some, arith, if◌then◌else◌, Eq,
  matches, matches_iff, guard_iff, if_not_iff, Every,
}

pub data AnnouncementError {ℓ} (E : Type ℓ) : Type ℓ where
  already_announced : AnnouncementError E
  processing_error : E → AnnouncementError E

pub data SafeRegistrationError {ℓ} (A E : Type ℓ) : Type ℓ where
  already_registered : A → SafeRegistrationError A E
  processing_error : E → SafeRegistrationError A E

-- What the selector reads of an `AccountEntry` of hopr_types.
pub record AccountEntry {ℓ} (A K : Type ℓ) : Type ℓ where
  pub public_key : K
  pub chain_addr : A
  pub has_announced_with_routing_info : Bool

pub record AccountSelector {ℓ} (A K : Type ℓ) : Type ℓ where
  pub public_only : Bool
  pub chain_key : Option A
  pub offchain_key : Option K

module _ {ℓ} {A K : Type ℓ} where
  unfoldable pub default : AccountSelector A K
  default = record { public_only = false; chain_key = none; offchain_key = none }

  unfoldable pub with_public_only : Bool → AccountSelector A K → AccountSelector A K
  with_public_only public_only s = record s { public_only = public_only }

  unfoldable pub with_chain_key : A → AccountSelector A K → AccountSelector A K
  with_chain_key chain_key s = record s { chain_key = some chain_key }

  unfoldable pub with_offchain_key : K → AccountSelector A K → AccountSelector A K
  with_offchain_key offchain_key s = record s { offchain_key = some offchain_key }

public_iff :
    (only announced : Bool)
    → ((not (only && not announced)) ≡ true) ↔ (only ≡ true → announced ≡ true)
public_iff only announced = ground arith

module _ {ℓ} {A K : Type ℓ} ⦃ea : Eq A⦄ ⦃ek : Eq K⦄ where
  -- The early returns, in their order.
  unfoldable pub satisfies : AccountSelector A K → AccountEntry A K → Bool
  satisfies s account =
      if s.public_only && not account.has_announced_with_routing_info
      then false
      else if not (matches s.chain_key account.chain_addr)
      then false
      else if not (matches s.offchain_key account.public_key)
      then false
      else true

  -- An account is selected exactly when it passes every filter that is set, and no other.
  pub account_satisfies_iff :
      (s : AccountSelector A K) (account : AccountEntry A K)
      → (satisfies s account ≡ true) ↔ (
          (s.public_only ≡ true → account.has_announced_with_routing_info ≡ true)
          × (Every (λ a. account.chain_addr ≡ a) s.chain_key
              × (Every (λ k. account.public_key ≡ k) s.offchain_key × Unit {0})))
  unfolding satisfies
  account_satisfies_iff s account =
      guard_iff _ _ (public_iff s.public_only account.has_announced_with_routing_info) (
        if_not_iff _ _ (matches_iff s.chain_key account.chain_addr)
          (if_not_iff _ _ (matches_iff s.offchain_key account.public_key) (λ _. tt, λ _. refl)))
