-- ===== src/Node/Errors.antt =====
-- src/node/mod.rs and src/node/types.rs: compound errors, and the output of a chain operation.
use hopr_api.Prelude.{Option, none, some, Result}

pub data EitherErr {ℓ} (L R : Type ℓ) : Type ℓ where
  left : L → EitherErr L R
  right : R → EitherErr L R

abbrev pub CompoundResult {ℓ} : Type ℓ → Type ℓ → Type ℓ → Type ℓ
CompoundResult T L R = Result T (EitherErr L R)

-- `H` is the type of transaction hashes.
pub record ChainOutput {ℓ κ} (H : Type ℓ) (T : Type κ) : Type (ℓ ⊔ κ) where
  pub tx_hash : H
  pub output : Option T

module _ {ℓ κ} {H : Type ℓ} {T : Type κ} where
  abbrev pub output_of : H → T → ChainOutput H T
  output_of tx_hash output = record { tx_hash = tx_hash; output = some output }

  abbrev pub new_empty : H → ChainOutput H T
  new_empty tx_hash = record { tx_hash = tx_hash; output = none }
