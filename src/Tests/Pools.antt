-- ===== src/Tests/Pools.antt =====
-- The tests of src/chain/deposit_pool.rs: their mock pool. An allocation's identifier and a public
-- key are numbers, a key pair is given by its public key, and amounts are in base units.
mod Suite
mod Batches
use hopr_api.Prelude.{
  arith, ℕ, ◌≡◌, refl, ◌↔◌, Bool, true, false, not, ◌&&◌, ◌||◌, Option, some, List, [], ◌∷◌, map,
  Memᴰ, Result, ok, err, nat_eq, ◌==◌, contains, every, length, is_some, is_some_and,
}
use mathlib.Core.List.{reverse, Perm}
use hopr_api.Chain.Pool.{
  PixDepositData, BatchOutcomes, DepositPool, deposit_funds_to_multiple, one_deposit,
  one_withdrawal, one_transfer, withdraw_multiple_deposits, pool_transfer_multiple,
}
use hopr_api.Chain.Pool.JoinAll.{join_all}
use hopr_api.Chain.Pool.Attempts.{LogsAttempts, batches_attempt_each}

pub data MockError : Type 0 where
  mock_error : MockError

pub record MockDepositData : Type 0 where
  pub pix : PixDepositData ℕ

-- `TryFrom` in both directions.
abbrev pub wrap : PixDepositData ℕ → Result MockDepositData MockError
wrap value = ok (record { pix = value })

abbrev pub unwrap : MockDepositData → Result (PixDepositData ℕ) MockError
unwrap value = ok value.pix

abbrev pub deposit_data_for : ℕ → MockDepositData
deposit_data_for id = record { pix = record { id = id; bytes = [] } }

pub record MockPool : Type 0 where
  pub fail_for : List ℕ
  pub seen : List ℕ

abbrev pub fails_for : ℕ → MockPool
fails_for dst = record { fail_for = dst ∷ []; seen = [] }

abbrev pub would_fail : MockPool → ℕ → Bool
would_fail pool dst = contains pool.fail_for dst

-- The latest identifier stands first.
abbrev pub see : ℕ → MockPool → MockPool
see id pool = record pool { seen = id ∷ pool.seen }

abbrev pub receipt_unless : Bool → ℕ → Result ℕ MockError
receipt_unless true receipt = err mock_error
receipt_unless false receipt = ok receipt

-- impl DepositPool for MockPool
abbrev pub mock_pool : DepositPool MockPool ℕ ℕ ℕ ℕ ℕ MockDepositData ℕ MockError
mock_pool = record {
  deposit_funds_to =
      λ id dst amount extra pool. (receipt_unless (would_fail pool dst) amount, see id pool);
  withdraw_deposit =
      λ id key dst amount pool. (receipt_unless (would_fail pool key) 1, see id pool);
  pool_transfer =
      λ id key dst_id dst extra amount pool. (receipt_unless (would_fail pool key) 1, see id pool);
}

abbrev pub Deposit : Type 0
Deposit = ℕ × ℕ × ℕ × MockDepositData

abbrev pub deposit : ℕ → ℕ → ℕ → Deposit
deposit id dst amount = (id, dst, amount, deposit_data_for id)

-- Orders in which at most three futures end.
abbrev pub schedules : List (List ℕ)
schedules = (0 ∷ 0 ∷ 0 ∷ []) ∷ (2 ∷ 1 ∷ 0 ∷ []) ∷ (1 ∷ 1 ∷ 0 ∷ []) ∷ []

abbrev pub mixed : List Deposit
mixed = deposit 1 11 10 ∷ deposit 2 99 20 ∷ deposit 3 13 30 ∷ []
