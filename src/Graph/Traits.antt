-- ===== src/Graph/Traits.antt =====
-- src/graph/traits.rs: what an edge's observations are, as the value functions read them. A trait
-- of getters is the record of what its getters return.
use hopr_api.Prelude.{ℕ, Bool, Option, is_some, Result}

-- Milliseconds of a probe, or the unit error.
abbrev pub EdgeTransportMeasurement : Type 0
EdgeTransportMeasurement = Result ℕ (Unit {0})

pub data EdgeWeightType {ℓ} (U : Type ℓ) : Type ℓ where
  immediate : EdgeTransportMeasurement → EdgeWeightType U
  intermediate : EdgeTransportMeasurement → EdgeWeightType U
  balance : Option U → EdgeWeightType U
  connected : Bool → EdgeWeightType U
  immediate_protocol_conformance : (num_packets num_acks : ℕ) → EdgeWeightType U
  surb_round_trips : (expected observed : ℕ) → EdgeWeightType U

-- trait EdgeLinkObservable
pub record LinkObservable {ℓ} (F : Type ℓ) : Type ℓ where
  pub average_latency : Option ℕ
  pub average_probe_rate : Option F
  pub score : Option F

-- The provided method: derived from the probe rate.
abbrev pub has_observations {ℓ} : {F : Type ℓ} → LinkObservable F → Bool
has_observations l = is_some l.average_probe_rate

-- EdgeLinkObservable + EdgeNetworkObservableRead + EdgeImmediateProtocolObservable
pub record ImmediateMeasurement {ℓ} (F : Type ℓ) : Type ℓ where
  pub link : LinkObservable F
  pub is_connected : Option Bool
  pub ack_rate : Option F

-- EdgeLinkObservable + EdgeProtocolObservable
pub record IntermediateMeasurement {ℓ} (F U : Type ℓ) : Type ℓ where
  pub link : LinkObservable F
  pub balance : Option U

-- trait EdgeObservableRead
pub record EdgeObservableRead {ℓ} (F U : Type ℓ) : Type ℓ where
  pub last_update : ℕ
  pub immediate_qos : Option (ImmediateMeasurement F)
  pub intermediate_qos : Option (IntermediateMeasurement F U)
  pub score : Option F
  pub health : Option F
