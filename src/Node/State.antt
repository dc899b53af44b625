-- ===== src/Node/State.antt =====
-- src/node/state.rs, src/node/status.rs, src/network/types.rs, src/node/events.rs and
-- src/node/types.rs: states, health and events.
use Prim.Native.String.{String}
use text.Mathlib.Text.{◌==◌}
use hopr_api.Prelude.{
  refl, sym, ap, ◌∙◌, if◌then◌else◌, ℕ, ◌≤◌, ◌≡◌, ◌↔◌, Bool, true, false, Option, List, arith,
}

pub data HoprState : Type 0 where
  uninitialized waiting_for_funds checking_balance validating_network_config : HoprState
  checking_onchain_address registering_safe announcing_node awaiting_key_binding : HoprState
  initializing_services running terminated degraded failed : HoprState

abbrev pub discriminant : HoprState → ℕ
discriminant uninitialized = 0
discriminant waiting_for_funds = 1
discriminant checking_balance = 2
discriminant validating_network_config = 3
discriminant checking_onchain_address = 4
discriminant registering_safe = 5
discriminant announcing_node = 6
discriminant awaiting_key_binding = 7
discriminant initializing_services = 8
discriminant running = 9
discriminant terminated = 10
discriminant degraded = 11
discriminant failed = 12

-- `strum::Display`
abbrev pub state_text : HoprState → String
state_text uninitialized = "Node is not yet initialized"
state_text waiting_for_funds = "Waiting for initial wallet funding"
state_text checking_balance = "Verifying wallet balance"
state_text validating_network_config = "Validating network configuration"
state_text checking_onchain_address = "Checking onchain address"
state_text registering_safe = "Registering Safe contract"
state_text announcing_node = "Announcing node on chain"
state_text awaiting_key_binding = "Waiting for on-chain key binding confirmation"
state_text initializing_services = "Initializing internal services"
state_text running = "Node is running"
state_text terminated = "Node has been terminated"
state_text degraded = "Node is running in degraded state"
state_text failed = "Node has failed"

-- The state of a number and the number of a text, to be compared with the two above.
abbrev number_of : String → ℕ
number_of t =
    if t == "Node is not yet initialized"
    then 0
    else if t == "Waiting for initial wallet funding"
    then 1
    else if t == "Verifying wallet balance"
    then 2
    else if t == "Validating network configuration"
    then 3
    else if t == "Checking onchain address"
    then 4
    else if t == "Registering Safe contract"
    then 5
    else if t == "Announcing node on chain"
    then 6
    else if t == "Waiting for on-chain key binding confirmation"
    then 7
    else if t == "Initializing internal services"
    then 8
    else if t == "Node is running"
    then 9
    else if t == "Node has been terminated"
    then 10
    else if t == "Node is running in degraded state"
    then 11
    else 12

number_of_lem : (s : HoprState) → number_of (state_text s) ≡ discriminant s
number_of_lem uninitialized = refl
number_of_lem waiting_for_funds = refl
number_of_lem checking_balance = refl
number_of_lem validating_network_config = refl
number_of_lem checking_onchain_address = refl
number_of_lem registering_safe = refl
number_of_lem announcing_node = refl
number_of_lem awaiting_key_binding = refl
number_of_lem initializing_services = refl
number_of_lem running = refl
number_of_lem terminated = refl
number_of_lem degraded = refl
number_of_lem failed = refl

state_of_number : (s t : HoprState) → discriminant s ≡ discriminant t → s ≡ t
state_of_number s t = ground arith

-- `atomic_enum` stores the discriminant, and `Display` writes a text: two states that share a number
-- or a text are one, and the numbers are 0 to 12.
pub discriminant_faithful :
    (s t : HoprState)
    → ((discriminant s ≡ discriminant t) ↔ (s ≡ t))
      × ((state_text s ≡ state_text t) ↔ (s ≡ t))
      × (discriminant s ≤ 12)
discriminant_faithful s t = (
  (state_of_number s t, ap discriminant),
  (
    λ h. state_of_number s t (sym (number_of_lem s) ∙ (ap number_of h ∙ number_of_lem t)),
    ap state_text,
  ),
  ground arith,
)

-- `T` is the type of texts.
pub data ComponentStatus {ℓ} (T : Type ℓ) : Type ℓ where
  ready : ComponentStatus T
  initializing : T → ComponentStatus T
  degraded : T → ComponentStatus T
  unavailable : T → ComponentStatus T

pub data Health : Type 0 where
  unknown red orange yellow green : Health

abbrev pub health_number : Health → ℕ
health_number unknown = 0
health_number red = 1
health_number orange = 2
health_number yellow = 3
health_number green = 4

-- `derive(Ord)`: the order of declaration.
abbrev pub health_le : Health → Health → Bool
health_le unknown _ = true
health_le red unknown = false
health_le red _ = true
health_le orange unknown = false
health_le orange red = false
health_le orange _ = true
health_le yellow yellow = true
health_le yellow green = true
health_le yellow _ = false
health_le green green = true
health_le green _ = false

-- The derived order is that of the numbers, and healths of one number are one.
pub health_le_iff :
    (h k : Health)
    → ((health_le h k ≡ true) ↔ (health_number h ≤ health_number k))
      × (health_number h ≡ health_number k → h ≡ k)
health_le_iff h k = ground arith

-- `P` is the type of peer identifiers.
pub data NetworkEvent {ℓ} (P : Type ℓ) : Type ℓ where
  peer_connected : P → NetworkEvent P
  peer_disconnected : P → NetworkEvent P

pub record NodeOnchainIdentity {ℓ} (A : Type ℓ) : Type ℓ where
  pub node_address : A
  pub safe_address : A
  pub module_address : A

pub data AnnouncementOrigin : Type 0 where
  chain dht : AnnouncementOrigin

pub record AnnouncedPeer {ℓ} (A M : Type ℓ) : Type ℓ where
  pub address : A
  pub multiaddresses : List M
  pub origin : AnnouncementOrigin

-- `R` is the type of redeemable tickets, `T` of tickets.
pub data TicketEvent {ℓ} (R T A : Type ℓ) : Type ℓ where
  winning_ticket : R → TicketEvent R T A
  rejected_ticket : T → Option A → TicketEvent R T A
