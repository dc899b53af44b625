-- ===== src/Chain/Pool/Attempts.antt =====
-- Which inputs of a batch a deposit pool of src/chain/deposit_pool.rs attempts.
use mathlib.Core.List.{Perm}
use hopr_api.Prelude.{ℕ, ◌≤◌, ◌≡◌, Option, none, List, ◌∷◌, ◌++◌, map, length}
use hopr_api.Chain.Pool.JoinAll.Order.{join_all_order}
use hopr_api.Chain.Pool.{
  DepositPool, one_deposit, one_withdrawal, one_transfer, deposit_funds_to_multiple,
  withdraw_multiple_deposits, pool_transfer_multiple,
}

-- The pool's operations put the identifier that they are called with before those in its log.
pub record LogsAttempts {ℓ} {S I A K N B D R E : Type ℓ} (pool : DepositPool S I A K N B D R E)
    (attempts : S → List I) : Type ℓ where
  pub deposits :
      (id : I) (dst : A) (amount : B) (extra : D) (s : S)
      → attempts (pool.deposit_funds_to id dst amount extra s).1 ≡ id ∷ attempts s
  pub withdrawals :
      (id : I) (key : K) (dst : N) (amount : Option B) (s : S)
      → attempts (pool.withdraw_deposit id key dst amount s).1 ≡ id ∷ attempts s
  pub transfers :
      (id : I) (key : K) (to : I) (dst : A) (extra : D) (amount : Option B) (s : S)
      → attempts (pool.pool_transfer id key to dst extra amount s).1 ≡ id ∷ attempts s

module _ {ℓ} {S I A K N B D R E : Type ℓ} (pool : DepositPool S I A K N B D R E)
    (attempts : S → List I) (logs : LogsAttempts pool attempts) where
  -- A failure skips none of a batch and repeats none: in a pool that logs the identifiers that it is
  -- called with, in whatever order the operations end, a batch of deposits, of withdrawals or of
  -- transfers adds exactly the identifiers of its inputs, in some order, each as often as it is
  -- there; for a transfer it is that of the source. One choice for each input is enough.
  pub batches_attempt_each :
      (choices : List ℕ) (deposits : List (I × A × B × D)) (keys : List (I × K)) (dst : N) (to : I)
      (address : A) (extra : D) (s : S)
      → length deposits ≤ length choices
      → length keys ≤ length choices
      → Perm
          (attempts (deposit_funds_to_multiple pool choices deposits s).1)
          (map (λ (op : I × A × B × D). op.0) deposits ++ attempts s)
        × Perm
            (attempts (withdraw_multiple_deposits pool choices keys dst s).1)
            (map (λ (op : I × K). op.0) keys ++ attempts s)
        × Perm
            (attempts (pool_transfer_multiple pool choices keys to address extra s).1)
            (map (λ (op : I × K). op.0) keys ++ attempts s)
  unfolding deposit_funds_to_multiple withdraw_multiple_deposits pool_transfer_multiple one_deposit
      one_withdrawal one_transfer
  batches_attempt_each choices deposits keys dst to address extra s h k = (
    join_all_order (one_deposit pool) (λ (op : I × A × B × D). op.0) attempts
        (λ (id, dst, amount, extra) s. logs.deposits id dst amount extra s) choices deposits s h,
    join_all_order (one_withdrawal pool dst) (λ (op : I × K). op.0) attempts
        (λ (id, key) s. logs.withdrawals id key dst none s) choices keys s k,
    join_all_order (one_transfer pool to address extra) (λ (op : I × K). op.0) attempts
        (λ (id, key) s. logs.transfers id key to address extra none s) choices keys s k,
  )
