-- ===== src/Chain/Pool.antt =====
-- src/chain/deposit_pool.rs: deposit data, and the provided batch operations. A pool's own
-- operations are the implementor's: arguments that take the pool's state to an outcome and a new
-- state. `join_all` runs the futures in an order that the executor chooses and returns the outcomes
-- in the order of the inputs.
pub mod JoinAll
pub mod Batches
pub mod Attribution
pub mod Attempts
use hopr_api.Prelude.{
  ℕ, Bool, true, false, Option, none, some, List, [], ◌∷◌, map, Result, ok, err, map_ok,
}
use hopr_api.Chain.Pool.JoinAll.{join_all}

pub record PixDepositData {ℓ} (I : Type ℓ) : Type ℓ where
  pub id : I
  pub bytes : List ℕ

abbrev pub is_empty {ℓ} : {I : Type ℓ} → PixDepositData I → Bool
is_empty d = elim d.bytes [ [] ↦ true | _ ∷ _ ↦ false ]

-- Per-item outcomes of a batch.
abbrev pub BatchOutcomes {ℓ} : Type ℓ → Type ℓ → Type ℓ → Type ℓ
BatchOutcomes I R E = List (Result (I × R) E)

-- `I` identifies an allocation, `A` is a deposit address, `K` a key pair, `N` an on-chain address,
-- `B` a balance, `D` the pool's data; `S` is the state of the pool.
pub record DepositPool {ℓ} (S I A K N B D R E : Type ℓ) : Type ℓ where
  pub deposit_funds_to : I → A → B → D → S → Result R E × S
  pub withdraw_deposit : I → K → N → Option B → S → Result R E × S
  pub pool_transfer : I → K → I → A → D → Option B → S → Result R E × S

module _ {ℓ} {S I A K N B D R E : Type ℓ} (pool : DepositPool S I A K N B D R E) where
  abbrev tagged : I → Result R E × S → Result (I × R) E × S
  tagged id (r, s) = (map_ok (λ receipt. (id, receipt)) r, s)

  -- The bodies of the three `async move` blocks.
  unfoldable pub one_deposit : I × A × B × D → S → Result (I × R) E × S
  one_deposit (id, dst, amount, extra) s = tagged id (pool.deposit_funds_to id dst amount extra s)

  unfoldable pub one_withdrawal : N → I × K → S → Result (I × R) E × S
  one_withdrawal dst (id, key) s = tagged id (pool.withdraw_deposit id key dst none s)

  unfoldable pub one_transfer : I → A → D → I × K → S → Result (I × R) E × S
  one_transfer dst_id dst extra (id, key) s =
      tagged id (pool.pool_transfer id key dst_id dst extra none s)

  unfoldable pub deposit_funds_to_multiple :
      List ℕ → List (I × A × B × D) → S → Option (BatchOutcomes I R E) × S
  deposit_funds_to_multiple choices deposits = join_all one_deposit choices deposits

  unfoldable pub withdraw_multiple_deposits :
      List ℕ → List (I × K) → N → S → Option (BatchOutcomes I R E) × S
  withdraw_multiple_deposits choices keys dst = join_all (one_withdrawal dst) choices keys

  unfoldable pub pool_transfer_multiple :
      List ℕ → List (I × K) → I → A → D → S → Option (BatchOutcomes I R E) × S
  pool_transfer_multiple choices keys dst_id dst extra =
      join_all (one_transfer dst_id dst extra) choices keys
