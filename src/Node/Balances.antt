-- ===== src/Node/Balances.antt =====
-- src/node/incentive.rs: balances, withdrawals and information about the chain, which a node asks of
-- its chain under its own addresses.
use hopr_api.Prelude.{◌≡◌, ◌↔◌, none, Result, ok, err, ◌>>=◌, map_err, arith}
use hopr_api.Node.Errors.{right, CompoundResult, ChainOutput, new_empty}
use hopr_api.Node.State.{NodeOnchainIdentity}

-- `B` is a balance, `P` a winning probability, `T` a duration, `I` the chain's information. The
-- outer result of `withdraw` is the submission's, the inner one the confirmation's.
pub record ChainApi {ℓ} (A B P T I H E : Type ℓ) : Type ℓ where
  pub balance : A → Result B E
  pub safe_allowance : A → Result B E
  pub withdraw : B → A → Result (Result H E) E
  pub chain_info : Result I E
  pub minimum_ticket_price : Result B E
  pub minimum_incoming_ticket_win_prob : Result P E
  pub channel_closure_notice_period : Result T E

module _ {ℓ} {A B P T I H E : Type ℓ} (chain : ChainApi A B P T I H E) where
  unfoldable pub get_balance : NodeOnchainIdentity A → Result B E
  get_balance identity = chain.balance identity.node_address

  unfoldable pub get_safe_balance : NodeOnchainIdentity A → Result B E
  get_safe_balance identity = chain.balance identity.safe_address

  unfoldable pub safe_allowance : NodeOnchainIdentity A → Result B E
  safe_allowance identity = chain.safe_allowance identity.safe_address

  unfoldable pub withdraw : A → B → Result (ChainOutput H (Unit {ℓ})) E
  withdraw recipient amount = do
    confirmation ← chain.withdraw amount recipient
    tx_hash ← confirmation
    ok (new_empty tx_hash)

  abbrev pub chain_info : Result I E
  chain_info = chain.chain_info

  abbrev pub get_ticket_price : Result B E
  get_ticket_price = chain.minimum_ticket_price

  abbrev pub get_minimum_incoming_ticket_win_probability : Result P E
  get_minimum_incoming_ticket_win_probability = chain.minimum_incoming_ticket_win_prob

  abbrev pub get_channel_closure_notice_period : Result T E
  get_channel_closure_notice_period = chain.channel_closure_notice_period

  -- A withdrawal returns a transaction exactly where both the submission and the confirmation
  -- succeed, and then it returns the confirmed one, without an output.
  pub withdraw_iff :
      (recipient : A) (amount : B) (out : ChainOutput H (Unit {ℓ}))
      → (withdraw recipient amount ≡ ok out)
        ↔ ((chain.withdraw amount recipient ≡ ok (ok out.tx_hash)) × (out.output ≡ none))
  unfolding withdraw
  withdraw_iff recipient amount out = go (chain.withdraw amount recipient)
    where
      go :
          (r : Result (Result H E) E)
          → ((r >>= (λ c. c >>= (λ tx. ok (new_empty tx)))) ≡ ok out)
            ↔ ((r ≡ ok (ok out.tx_hash)) × (out.output ≡ none))
      go (ok (ok tx)) = ground arith
      go (ok (err e)) = ground arith
      go (err e) = ground arith

-- `ticket_stats` is the ticket manager's, over all channels.
abbrev pub ticket_statistics {ℓ} : {X L Z : Type ℓ} → Result X Z → CompoundResult X L Z
ticket_statistics stats = map_err right stats
