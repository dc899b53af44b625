-- ===== src/Tests/Pools/Batches.antt =====
-- The batch operations of src/chain/deposit_pool.rs at concrete inputs.
use hopr_api.Prelude.{
  arith, ℕ, ◌≡◌, refl, ◌↔◌, none, some, List, [], ◌∷◌, ◌++◌, Memᴰ, inl, inr, Result, nat_eq,
}
use mathlib.Core.List.Memᴰ
use mathlib.Core.List.{Perm}
use hopr_api.Chain.Pool.{
  BatchOutcomes, deposit_funds_to_multiple, withdraw_multiple_deposits, pool_transfer_multiple,
}
use hopr_api.Chain.Pool.Attribution.Moves.{moves_attributed}
use hopr_api.Chain.Pool.Attempts.{LogsAttempts, batches_attempt_each}
use hopr_api.Chain.Pool.Attribution.{by_allocation, receipt_of, DistinctBy, deposits_attributed}
use hopr_api.Tests.Pools.{
  MockError, deposit_data_for, fails_for, MockPool, mock_pool, Deposit, mixed,
}

-- The caller has the first outcome last.
abbrev turned : BatchOutcomes ℕ ℕ MockError → BatchOutcomes ℕ ℕ MockError
turned [] = []
turned (out ∷ outs) = outs ++ out ∷ []

turned_same :
    (l : BatchOutcomes ℕ ℕ MockError) (out : Result (ℕ × ℕ) MockError)
    → Memᴰ out (turned l) ↔ Memᴰ out l
turned_same [] out = (λ m. m, λ m. m)
turned_same (o ∷ l) out = (
  λ m. elim (Memᴰ.append_cases l m) [
    | inl h ↦ Memᴰ.tail h
    | inr (Memᴰ.head h) ↦ Memᴰ.head h
    | inr (Memᴰ.tail h) ↦ elim h [ ]
  ],
  λ m. elim m [
    | Memᴰ.head h ↦ Memᴰ.append_right l (Memᴰ.head h)
    | Memᴰ.tail h ↦ Memᴰ.append_left {s = l} _ h
  ],
)

mixed-Distinct : DistinctBy (λ (d : Deposit). d.0) mixed
mixed-Distinct = ((λ e. cc, (λ e. cc, tt)), ((λ e. cc, tt), (tt, tt)))

deposits_attributed_example :
    (outs : BatchOutcomes ℕ ℕ MockError) × ((deposit_funds_to_multiple mock_pool
        (2 ∷ 1 ∷ 0 ∷ [])
        mixed
        (fails_for 99)).0
      ≡ some outs)
    × ((s : MockPool) × (by_allocation (turned outs) 3
          ≡ receipt_of (mock_pool.deposit_funds_to 3 13 30 (deposit_data_for 3) s).0))
deposits_attributed_example =
    deposits_attributed mock_pool (2 ∷ 1 ∷ 0 ∷ []) mixed (fails_for 99) turned 3 13 30
      (deposit_data_for 3) mixed-Distinct (omega arith) turned_same
      (Memᴰ.tail (Memᴰ.tail (Memᴰ.head refl)))

mock_pool-LogsAttempts : LogsAttempts mock_pool (λ pool. pool.seen)
mock_pool-LogsAttempts = record {
  deposits = λ id dst amount extra pool. refl;
  withdrawals = λ id key dst amount pool. refl;
  transfers = λ id key to dst extra amount pool. refl;
}

abbrev two_keys : List (ℕ × ℕ)
two_keys = (1, 11) ∷ (2, 99) ∷ []

batches_attempt_each_example :
    Perm
      (deposit_funds_to_multiple mock_pool (1 ∷ 1 ∷ 0 ∷ []) mixed (fails_for 99)).1.seen
      (1 ∷ 2 ∷ 3 ∷ [])
    × Perm
        (withdraw_multiple_deposits mock_pool (1 ∷ 1 ∷ 0 ∷ []) two_keys 7 (fails_for 99)).1.seen
        (1 ∷ 2 ∷ [])
    × Perm
        (pool_transfer_multiple mock_pool
          (1 ∷ 1 ∷ 0 ∷ [])
          two_keys
          9
          19
          (deposit_data_for 9)
          (fails_for 99)).1.seen
        (1 ∷ 2 ∷ [])
batches_attempt_each_example =
    batches_attempt_each mock_pool (λ pool. pool.seen) mock_pool-LogsAttempts (1 ∷ 1 ∷ 0 ∷ []) mixed
      two_keys 7 9 19 (deposit_data_for 9) (fails_for 99) (omega arith) (omega arith)

moves_attributed_example :
    ((outs : BatchOutcomes ℕ ℕ MockError) × ((withdraw_multiple_deposits mock_pool
          (0 ∷ 0 ∷ [])
          two_keys
          7
          (fails_for 99)).0
        ≡ some outs)
      × ((s : MockPool) × (by_allocation (turned outs) 1
            ≡ receipt_of (mock_pool.withdraw_deposit 1 11 7 none s).0)))
    × ((outs : BatchOutcomes ℕ ℕ MockError) × ((pool_transfer_multiple mock_pool
            (0 ∷ 0 ∷ [])
            two_keys
            9
            19
            (deposit_data_for 9)
            (fails_for 99)).0
          ≡ some outs)
        × ((s : MockPool) × (by_allocation (turned outs) 1
              ≡ receipt_of (mock_pool.pool_transfer 1 11 9 19 (deposit_data_for 9) none s).0)))
moves_attributed_example =
    moves_attributed mock_pool (0 ∷ 0 ∷ []) two_keys 7 9 19 (deposit_data_for 9) (fails_for 99)
      turned 1 11 ((λ e. cc, tt), (tt, tt)) (omega arith) turned_same (Memᴰ.head refl)
