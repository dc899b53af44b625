-- ===== src/Node/Events.antt =====
-- src/node/types.rs and src/node/events.rs: the events of the protocol for incentivization of exits
-- and the events that a strategy acts on. `I` identifies deposit addresses, `D` is the deposit data,
-- `S` and `T` are the ends of the channels that deposits and data are reported on.
use hopr_api.Prelude.{ℕ, List}

pub record PixNewDepositAddress {ℓ} (I A D : Type ℓ) : Type ℓ where
  pub id : I
  pub address : A
  pub quota : ℕ
  pub deposit_data : D

pub record PixDepositAddressReceived {ℓ} (I A D S : Type ℓ) : Type ℓ where
  pub id : I
  pub address : A
  pub quota : ℕ
  pub deposit_data : D
  pub deposit_updated : S

-- `K` is the type of deposit secrets.
pub record PixPrivateKeyRecovered {ℓ} (I K : Type ℓ) : Type ℓ where
  pub id : I
  pub secret : K

pub record PixDepositDataRequest {ℓ} (I T : Type ℓ) : Type ℓ where
  pub deposit_ids : List I
  pub deposit_data_created : T

pub data PixEvent {ℓ} (I A D K S T : Type ℓ) : Type ℓ where
  new_deposit_address : PixNewDepositAddress I A D → PixEvent I A D K S T
  deposit_data_request : PixDepositDataRequest I T → PixEvent I A D K S T
  deposit_address_received : PixDepositAddressReceived I A D S → PixEvent I A D K S T
  private_key_recovered : PixPrivateKeyRecovered I K → PixEvent I A D K S T

-- An event of the chain, of the network, of a ticket or of the protocol.
pub data ActionableEvent {ℓ} (C N T P : Type ℓ) : Type ℓ where
  chain : C → ActionableEvent C N T P
  network : N → ActionableEvent C N T P
  ticket : T → ActionableEvent C N T P
  pix : P → ActionableEvent C N T P
