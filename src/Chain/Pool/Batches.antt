-- ===== src/Chain/Pool/Batches.antt =====
-- The batch operations of a deposit pool: one outcome for each input, under its own identifier.
use hopr_api.Prelude.{ℕ, suc, ◌+◌, ◌≤◌, ◌≡◌, refl, Option, none, some, List, Result, map_ok, length}
use hopr_api.Chain.Pool.JoinAll.{Paired}
use hopr_api.Chain.Pool.JoinAll.Counts.{join_all_lem}
use hopr_api.Chain.Pool.{
  DepositPool, BatchOutcomes, one_deposit, one_withdrawal, one_transfer, deposit_funds_to_multiple,
  withdraw_multiple_deposits, pool_transfer_multiple,
}

module _ {ℓ} {S I A K N B D R E : Type ℓ} (pool : DepositPool S I A K N B D R E)
    (calls : S → ℕ) where
  -- The outcome is what the pool answered for this input in some state, under the input's identifier.
  abbrev pub DepositOutcome : I × A × B × D → Result (I × R) E → Type ℓ
  DepositOutcome (id, dst, amount, extra) out =
      (s : S) × (out
        ≡ map_ok (λ receipt. (id, receipt)) (pool.deposit_funds_to id dst amount extra s).0)

  abbrev pub WithdrawalOutcome : N → I × K → Result (I × R) E → Type ℓ
  WithdrawalOutcome dst (id, key) out =
      (s : S) × (out
        ≡ map_ok (λ receipt. (id, receipt)) (pool.withdraw_deposit id key dst none s).0)

  abbrev pub TransferOutcome : I → A → D → I × K → Result (I × R) E → Type ℓ
  TransferOutcome dst_id dst extra (id, key) out =
      (s : S) × (out
        ≡ map_ok (λ receipt. (id, receipt)) (pool.pool_transfer id key dst_id dst extra none s).0)

  -- A batch deposit of a pool that counts its calls: in whatever order the deposits end, there is an
  -- outcome for each, at its place and under its identifier, a failure takes no receipt with it, and
  -- each deposit was attempted once. One choice for each deposit is enough.
  pub deposit_funds_to_multiple_lem :
      ((id : I) (dst : A) (amount : B) (extra : D) (s : S)
        → calls (pool.deposit_funds_to id dst amount extra s).1 ≡ suc (calls s))
      → (choices : List ℕ) (deposits : List (I × A × B × D)) (s : S)
      → length deposits ≤ length choices
      → (outs : BatchOutcomes I R E) × ((deposit_funds_to_multiple pool choices deposits s).0
          ≡ some outs)
        × Paired DepositOutcome deposits outs
        × (calls (deposit_funds_to_multiple pool choices deposits s).1 ≡ length deposits + calls s)
  unfolding deposit_funds_to_multiple one_deposit
  deposit_funds_to_multiple_lem counts =
      join_all_lem (one_deposit pool) calls
        (λ (id, dst, amount, extra) s. counts id dst amount extra s) DepositOutcome
        (λ op s. (s, refl))

  -- A batch withdrawal of whole deposits to one address, in a pool that counts its calls: in whatever
  -- order the withdrawals end, there is an outcome for each, at its place and under its identifier,
  -- and each was attempted once. One choice for each is enough.
  pub withdraw_multiple_deposits_lem :
      ((id : I) (key : K) (dst : N) (amount : Option B) (s : S)
        → calls (pool.withdraw_deposit id key dst amount s).1 ≡ suc (calls s))
      → (choices : List ℕ) (keys : List (I × K)) (dst : N) (s : S) → length keys ≤ length choices
      → (outs : BatchOutcomes I R E) × ((withdraw_multiple_deposits pool choices keys dst s).0
          ≡ some outs)
        × Paired (WithdrawalOutcome dst) keys outs
        × (calls (withdraw_multiple_deposits pool choices keys dst s).1 ≡ length keys + calls s)
  unfolding withdraw_multiple_deposits one_withdrawal
  withdraw_multiple_deposits_lem counts choices keys dst =
      join_all_lem (one_withdrawal pool dst) calls (λ (id, key) s. counts id key dst none s)
        (WithdrawalOutcome dst) (λ op s. (s, refl)) choices keys

  -- A batch transfer within a pool that counts its calls: in whatever order the transfers end, there is
  -- an outcome for each, at its place and under the identifier of its source allocation, and each was
  -- attempted once. One choice for each is enough.
  pub pool_transfer_multiple_lem :
      ((id : I) (key : K) (to : I) (dst : A) (extra : D) (amount : Option B) (s : S)
        → calls (pool.pool_transfer id key to dst extra amount s).1 ≡ suc (calls s))
      → (choices : List ℕ) (keys : List (I × K)) (dst_id : I) (dst : A) (extra : D) (s : S)
      → length keys ≤ length choices
      → (outs : BatchOutcomes I R E) × ((pool_transfer_multiple pool choices keys dst_id dst extra
            s).0
          ≡ some outs)
        × Paired (TransferOutcome dst_id dst extra) keys outs
        × (calls (pool_transfer_multiple pool choices keys dst_id dst extra s).1
            ≡ length keys + calls s)
  unfolding pool_transfer_multiple one_transfer
  pool_transfer_multiple_lem counts choices keys dst_id dst extra =
      join_all_lem (one_transfer pool dst_id dst extra) calls
        (λ (id, key) s. counts id key dst_id dst extra none s) (TransferOutcome dst_id dst extra)
        (λ op s. (s, refl)) choices keys
