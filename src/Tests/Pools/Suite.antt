-- ===== src/Tests/Pools/Suite.antt =====
-- The tests of src/chain/deposit_pool.rs, in every order in which the futures may end.
use hopr_api.Prelude.{
  ℕ, ◌≡◌, refl, Bool, true, false, not, ◌&&◌, ◌||◌, Option, some, List, [], ◌∷◌, map, ok, err,
  nat_eq, ◌==◌, contains, every, length, is_some, is_some_and,
}
use mathlib.Core.List.{reverse}
use hopr_api.Chain.Pool.{
  BatchOutcomes, deposit_funds_to_multiple, one_deposit, one_withdrawal, one_transfer,
  withdraw_multiple_deposits, pool_transfer_multiple,
}
use hopr_api.Chain.Pool.JoinAll.{join_all}
use hopr_api.Chain.Pool.Attribution.{by_allocation}
use hopr_api.Tests.Pools.{
  MockError, deposit_data_for, fails_for, mock_pool, Deposit, deposit, schedules, mixed,
}

abbrev holds_outer : Option (BatchOutcomes ℕ ℕ MockError) → Bool
holds_outer (some (ok (i, r) ∷ err _ ∷ ok (j, q) ∷ [])) = i == 1 && r == 10 && j == 3 && q == 30
holds_outer _ = false

abbrev deposit_funds_to_multiple_keeps_receipts_of_the_deposits_that_succeeded : Bool
deposit_funds_to_multiple_keeps_receipts_of_the_deposits_that_succeeded =
    every
      (λ choices. holds_outer (deposit_funds_to_multiple mock_pool choices mixed (fails_for 99)).0)
      schedules

keeps_receipts_passes :
    deposit_funds_to_multiple_keeps_receipts_of_the_deposits_that_succeeded ≡ true
unfolding deposit_funds_to_multiple one_deposit join_all contains
keeps_receipts_passes = refl

-- Both identifiers, in either order.
abbrev seen_both : List ℕ → Bool
seen_both (a ∷ b ∷ []) = (a == 1 && b == 2) || (a == 2 && b == 1)
seen_both _ = false

abbrev failing_first : List Deposit
failing_first = deposit 1 99 10 ∷ deposit 2 12 20 ∷ []

abbrev has_two : Option (BatchOutcomes ℕ ℕ MockError) → Bool
has_two outs = is_some_and outs λ results. length results == 2

abbrev deposit_funds_to_multiple_attempts_every_deposit : Bool
deposit_funds_to_multiple_attempts_every_deposit =
    every
      (λ choices.
        let run = deposit_funds_to_multiple mock_pool choices failing_first (fails_for 99) in
        has_two run.0 && seen_both run.1.seen)
      schedules

attempts_every_passes : deposit_funds_to_multiple_attempts_every_deposit ≡ true
unfolding deposit_funds_to_multiple one_deposit join_all contains
attempts_every_passes = refl

abbrev swept_then_failed : Option (BatchOutcomes ℕ ℕ MockError) → Bool
swept_then_failed (some (ok (i, r) ∷ err _ ∷ [])) = i == 1
swept_then_failed _ = false

abbrev withdraw_multiple_deposits_identifies_each_outcome_by_allocation : Bool
withdraw_multiple_deposits_identifies_each_outcome_by_allocation =
    every
      (λ choices.
        swept_then_failed
          (withdraw_multiple_deposits mock_pool choices ((1, 11) ∷ (2, 99) ∷ []) 7
            (fails_for 99)).0)
      schedules

identifies_withdrawals_passes :
    withdraw_multiple_deposits_identifies_each_outcome_by_allocation ≡ true
unfolding withdraw_multiple_deposits one_withdrawal join_all contains
identifies_withdrawals_passes = refl

abbrev failed_then_moved : Option (BatchOutcomes ℕ ℕ MockError) → Bool
failed_then_moved (some (err _ ∷ ok (i, r) ∷ [])) = i == 2 && not (i == 9)
failed_then_moved _ = false

abbrev pool_transfer_multiple_identifies_each_outcome_by_source_allocation : Bool
pool_transfer_multiple_identifies_each_outcome_by_source_allocation =
    every
      (λ choices.
        failed_then_moved
          (pool_transfer_multiple mock_pool choices ((1, 99) ∷ (2, 12) ∷ []) 9 19
            (deposit_data_for 9) (fails_for 99)).0)
      schedules

identifies_transfers_passes :
    pool_transfer_multiple_identifies_each_outcome_by_source_allocation ≡ true
unfolding pool_transfer_multiple one_transfer join_all contains
identifies_transfers_passes = refl

-- impl DepositPool for ReorderingPool: reversed, and without the first.
abbrev skip_one : List Deposit → List Deposit
skip_one [] = []
skip_one (d ∷ ds) = ds

abbrev reordering_deposit_funds_to_multiple : List Deposit → BatchOutcomes ℕ ℕ MockError
reordering_deposit_funds_to_multiple deposits =
    map (λ (d : Deposit). ok (d.0, d.2)) (reverse (skip_one deposits))

abbrev is_base : ℕ → Option ℕ → Bool
is_base n receipt = is_some_and receipt λ r. r == n

abbrev outcomes_are_attributable_when_an_implementor_reorders_them : Bool
outcomes_are_attributable_when_an_implementor_reorders_them =
    let outs =
      reordering_deposit_funds_to_multiple
        (deposit 1 11 10 ∷ deposit 2 12 20 ∷ deposit 3 13 30 ∷ []) in
    is_base 20 (by_allocation outs 2)
    && is_base 30 (by_allocation outs 3)
    && not (is_some (by_allocation outs 1))

attributable_passes : outcomes_are_attributable_when_an_implementor_reorders_them ≡ true
unfolding by_allocation
attributable_passes = refl
