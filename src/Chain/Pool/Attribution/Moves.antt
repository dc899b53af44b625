-- ===== src/Chain/Pool/Attribution/Moves.antt =====
-- src/chain/deposit_pool.rs: matching the outcomes of withdrawals and transfers with their sources.
use hopr_api.Prelude.{ℕ, ◌≤◌, ◌≡◌, refl, ◌↔◌, none, some, List, Memᴰ, Result, Eq, length}
use hopr_api.Chain.Pool.JoinAll.{join_all_finishes}
use hopr_api.Chain.Pool.Attribution.{by_allocation, DistinctBy, Names, attributed, receipt_of}
use hopr_api.Chain.Pool.{
  DepositPool, BatchOutcomes, one_withdrawal, one_transfer, withdraw_multiple_deposits,
  pool_transfer_multiple,
}

abbrev pub source {ℓ} : {I K : Type ℓ} → I × K → I
source (id, key) = id

module _ {ℓ} {S I A K N B D R E : Type ℓ} ⦃e : Eq I⦄ (pool : DepositPool S I A K N B D R E) where
  abbrev withdrawn : N → I × K → S → Result R E
  withdrawn dst (id, key) s = (pool.withdraw_deposit id key dst none s).0

  abbrev transferred : I → A → D → I × K → S → Result R E
  transferred to dst extra (id, key) s = (pool.pool_transfer id key to dst extra none s).0

  -- A caller of a batch withdrawal or of a batch transfer finds the receipt of each source under the
  -- identifier of the source, not under the destination that the batch shares, and nothing there
  -- where the operation failed. In whatever order the operations end and the caller has their
  -- outcomes, what it finds is what the pool answered for this source, asked to move the whole
  -- deposit, in some state. No two sources have the same identifier; one choice for each is enough.
  pub moves_attributed :
      (choices : List ℕ) (keys : List (I × K)) (address : N) (to : I) (dst : A) (extra : D) (s : S)
      (shuffle : BatchOutcomes I R E → BatchOutcomes I R E) (id : I) (key : K)
      → DistinctBy source keys
      → length keys ≤ length choices
      → ((l : BatchOutcomes I R E) (out : Result (I × R) E) → Memᴰ out (shuffle l) ↔ Memᴰ out l)
      → Memᴰ (id, key) keys
      → ((outs : BatchOutcomes I R E) × ((withdraw_multiple_deposits pool choices keys address s).0
            ≡ some outs)
          × ((s' : S) × (by_allocation (shuffle outs) id
                ≡ receipt_of (pool.withdraw_deposit id key address none s').0)))
        × ((outs : BatchOutcomes I R E) × ((pool_transfer_multiple pool choices keys to dst extra
                s).0
              ≡ some outs)
            × ((s' : S) × (by_allocation (shuffle outs) id
                  ≡ receipt_of (pool.pool_transfer id key to dst extra none s').0)))
  unfolding withdraw_multiple_deposits pool_transfer_multiple one_withdrawal one_transfer
  moves_attributed choices keys address to dst extra s shuffle id key d c same m =
      let (outs, h, p) =
        join_all_finishes (one_withdrawal pool address) (Names source (withdrawn address))
          (λ op s. (s, refl)) choices keys s c in
      let (outs', h', p') =
        join_all_finishes (one_transfer pool to dst extra) (Names source (transferred to dst extra))
          (λ op s. (s, refl)) choices keys s c in
      (
        (outs, h, attributed source (withdrawn address) shuffle (id, key) d p same m),
        (outs', h', attributed source (transferred to dst extra) shuffle (id, key) d p' same m),
      )
