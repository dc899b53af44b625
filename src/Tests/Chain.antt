-- ===== src/Tests/Chain.antt =====
-- src/chain at concrete inputs: addresses, identifiers, keys and balances are numbers.
use hopr_api.Prelude.{
  ℕ, zero, suc, ◌+◌, ◌≡◌, refl, ◌↔◌, ◌⊎◌, inl, true, none, some, List, [], ◌∷◌, Memᴰ, false, Result,
  ok, err, arith, Every, nat_eq, unwrap_or, length,
}
use hopr_api.Chain.Channels.{
  ChannelStatus, ChannelStatusDiscriminants, ChannelEntry, ChannelSelector, default, with_source,
  with_destination, with_id, with_redeemable_channels, satisfies, included, unbounded,
}
use hopr_api.Chain.Channels.Laws.{
  StateAllowed, ClosesInRange, SameChannel, channel_satisfies_iff, Built, Built-exclusive,
}
use hopr_api.Chain.Channels.Redeemable.{RedeemableAt, redeemable_iff, closed_stays_allowed}
use hopr_api.Chain.Accounts
use hopr_api.Chain.Services
use hopr_api.Chain.Safe
use hopr_api.Chain.Pool.JoinAll.{Paired}
use hopr_api.Chain.Pool.{
  DepositPool, BatchOutcomes, deposit_funds_to_multiple, withdraw_multiple_deposits,
  pool_transfer_multiple,
}
use hopr_api.Chain.Pool.Batches.{
  DepositOutcome, WithdrawalOutcome, TransferOutcome, deposit_funds_to_multiple_lem,
  withdraw_multiple_deposits_lem, pool_transfer_multiple_lem,
}

-- Channel 5 from 1 to 2, closing at time 100.
abbrev closing : ChannelEntry ℕ ℕ
closing = record {
  id = 5;
  source = 1;
  destination = 2;
  status = ChannelStatus.pending_to_close 100;
}

abbrev closed : ChannelEntry ℕ ℕ
closed = record closing { status = ChannelStatus.closed }

abbrev any : ChannelSelector ℕ ℕ
any = record {
  source = none;
  destination = none;
  id = none;
  allowed_states = [];
  closure_time_range = (unbounded, unbounded);
}

abbrev in_time : ChannelSelector ℕ ℕ
in_time = record any {
  source = some 1;
  allowed_states = ChannelStatusDiscriminants.pending_to_close ∷ [];
  closure_time_range = (included 90, unbounded);
}

channel_satisfies_iff_example : (satisfies in_time closing ≡ true) ↔ (
    SameChannel none in_time closing
    × (StateAllowed in_time.allowed_states closing.status
        × ClosesInRange in_time.allowed_states in_time.closure_time_range closing.status))
channel_satisfies_iff_example = channel_satisfies_iff in_time closing

Built-exclusive_example :
    let s : ChannelSelector ℕ ℕ = with_id 5 (with_source 1 default) in
    (s.id ≡ none) ⊎ ((s.source ≡ none) × (s.destination ≡ none))
Built-exclusive_example = Built-exclusive (Built.id_set 5 (Built.source_set 1 Built.fresh))

redeemable_iff_example :
    (satisfies (with_redeemable_channels 80 (some 30) (with_destination 2 any)) closing ≡ true) ↔ (
      Every (λ a. closing.source ≡ a) any.source
      × (closing.destination ≡ 2)
      × RedeemableAt (80 + unwrap_or (some 30) 0) closing.status)
redeemable_iff_example = redeemable_iff any 2 80 (some 30) closing refl

closed_stays_allowed_example :
    satisfies
      (with_redeemable_channels 80 (some 30) (
        with_destination 2
          (record any { allowed_states = ChannelStatusDiscriminants.closed ∷ [] })))
      closed
    ≡ true
closed_stays_allowed_example =
    closed_stays_allowed (record any { allowed_states = ChannelStatusDiscriminants.closed ∷ [] }) 2
      80 (some 30) closed (inl refl) refl tt refl

abbrev announced : Accounts.AccountEntry ℕ ℕ
announced = record { public_key = 7; chain_addr = 1; has_announced_with_routing_info = true }

abbrev by_key : Accounts.AccountSelector ℕ ℕ
by_key = record { public_only = true; chain_key = none; offchain_key = some 7 }

account_satisfies_iff_example : (Accounts.satisfies by_key announced ≡ true) ↔ (
    (by_key.public_only ≡ true → announced.has_announced_with_routing_info ≡ true)
    × (Every (λ a. announced.chain_addr ≡ a) by_key.chain_key
        × (Every (λ k. announced.public_key ≡ k) by_key.offchain_key × Unit {0})))
account_satisfies_iff_example = Accounts.account_satisfies_iff by_key announced

-- A pool whose state is the number of its calls, and which fails where the identifier is 0.
abbrev answer : ℕ → ℕ → Result ℕ ℕ × ℕ
answer zero s = (err 1, suc s)
answer (suc id) s = (ok s, suc s)

abbrev pool : DepositPool ℕ ℕ ℕ ℕ ℕ ℕ ℕ ℕ ℕ
pool = record {
  deposit_funds_to = λ id dst amount extra s. answer id s;
  withdraw_deposit = λ id key dst amount s. answer id s;
  pool_transfer = λ id key to dst extra amount s. answer id s;
}

answer_counts : (id s : ℕ) → (answer id s).1 ≡ suc s
answer_counts zero s = refl
answer_counts (suc id) s = refl

abbrev deposits : List (ℕ × ℕ × ℕ × ℕ)
deposits = (0, 1, 10, 0) ∷ (1, 2, 20, 0) ∷ []

abbrev keys : List (ℕ × ℕ)
keys = (0, 1) ∷ (1, 2) ∷ []

-- The second deposit ends first.
deposit_funds_to_multiple_lem_example :
    (outs : BatchOutcomes ℕ ℕ ℕ) × ((deposit_funds_to_multiple pool (1 ∷ 0 ∷ []) deposits 0).0
      ≡ some outs)
    × Paired (DepositOutcome pool (λ s. s)) deposits outs
    × ((deposit_funds_to_multiple pool (1 ∷ 0 ∷ []) deposits 0).1 ≡ length deposits + 0)
deposit_funds_to_multiple_lem_example =
    deposit_funds_to_multiple_lem pool (λ s. s) (λ id dst amount extra s. answer_counts id s)
      (1 ∷ 0 ∷ []) deposits 0 (omega arith)

abbrev exit_node : Services.ServiceEntry ℕ ℕ
exit_node = record { service_type = 3; node = 8 }

abbrev live_type : Services.ServiceSelector ℕ ℕ
live_type = record { service_type = some 3; node = none; live_only = true }

service_satisfies_iff_example : (Services.satisfies live_type exit_node false ≡ true) ↔ (
    (live_type.live_only ≡ true → false ≡ true)
    × (Every (λ t. exit_node.service_type ≡ t) live_type.service_type
        × (Every (λ a. exit_node.node ≡ a) live_type.node × Unit {0})))
service_satisfies_iff_example = Services.service_satisfies_iff live_type exit_node false

abbrev safe : Safe.DeployedSafe ℕ
safe = record {
  address = 1;
  owners = 2 ∷ 3 ∷ [];
  module_address = 4;
  registered_nodes = 5 ∷ [];
  deployer = 2;
}

safe_satisfies_iff_example :
    ((Safe.satisfies (Safe.SafeSelector.address 2) safe ≡ true) ↔ (safe.address ≡ 2))
    × ((Safe.satisfies (Safe.SafeSelector.deployer 2) safe ≡ true) ↔ (safe.deployer ≡ 2))
    × ((Safe.satisfies (Safe.SafeSelector.node_address 2) safe ≡ true)
        ↔ Memᴰ 2 safe.registered_nodes)
    × ((Safe.satisfies (Safe.SafeSelector.owner 2) safe ≡ true) ↔ Memᴰ 2 safe.owners)
safe_satisfies_iff_example = Safe.safe_satisfies_iff 2 safe

withdraw_multiple_deposits_lem_example :
    (outs : BatchOutcomes ℕ ℕ ℕ) × ((withdraw_multiple_deposits pool (1 ∷ 0 ∷ []) keys 3 0).0
      ≡ some outs)
    × Paired (WithdrawalOutcome pool (λ s. s) 3) keys outs
    × ((withdraw_multiple_deposits pool (1 ∷ 0 ∷ []) keys 3 0).1 ≡ length keys + 0)
withdraw_multiple_deposits_lem_example =
    withdraw_multiple_deposits_lem pool (λ s. s) (λ id key dst amount s. answer_counts id s)
      (1 ∷ 0 ∷ []) keys 3 0 (omega arith)

pool_transfer_multiple_lem_example :
    (outs : BatchOutcomes ℕ ℕ ℕ) × ((pool_transfer_multiple pool (1 ∷ 0 ∷ []) keys 3 4 0 0).0
      ≡ some outs)
    × Paired (TransferOutcome pool (λ s. s) 3 4 0) keys outs
    × ((pool_transfer_multiple pool (1 ∷ 0 ∷ []) keys 3 4 0 0).1 ≡ length keys + 0)
pool_transfer_multiple_lem_example =
    pool_transfer_multiple_lem pool (λ s. s) (λ id key to dst extra amount s. answer_counts id s)
      (1 ∷ 0 ∷ []) keys 3 4 0 0 (omega arith)
