-- ===== src/Tickets.antt =====
-- src/tickets/mod.rs and the redemption half of src/node/incentive.rs. A stream of redemptions is
-- the list of its items; the group of streams yields any interleaving of them.
pub mod Merge
pub mod Redemption
pub mod Collection
pub mod Queue
pub mod Draining
pub mod Settled
pub mod Neglect
pub mod Value
use hopr_api.Prelude.{
  ℕ, Option, none, some, List, [], ◌∷◌, Result, ok, err, ◌>>=◌, map_err, unwrap_or,
}
use hopr_api.Chain.Channels.{
  ChannelEntry, ChannelSelector, default, with_source, with_destination, with_redeemable_channels,
}
use hopr_api.Node.Errors.{EitherErr, left, right, CompoundResult}

pub record ChannelStats {ℓ} (B : Type ℓ) : Type ℓ where
  pub winning_tickets : ℕ
  pub unredeemed_value : B
  pub rejected_value : B
  pub neglected_value : B

-- `V` is the type of verified tickets, `X` of texts.
pub data RedemptionResult {ℓ} (V X : Type ℓ) : Type ℓ where
  redeemed : V → RedemptionResult V X
  value_too_low : V → RedemptionResult V X
  rejected_on_chain : V → X → RedemptionResult V X

abbrev pub as_ref {ℓ} : {V X : Type ℓ} → RedemptionResult V X → V
as_ref (redeemed ticket) = ticket
as_ref (value_too_low ticket) = ticket
as_ref (rejected_on_chain ticket reason) = ticket

-- The provided method of `TicketFactory`, over the balance of a channel.
abbrev pub remaining_incoming_channel_stake {ℓ} : {B E : Type ℓ} → B → Result B E
remaining_incoming_channel_stake balance = ok balance

-- What the chain's client answers, and at what time the call is made.
pub record Client {ℓ} (A I E : Type ℓ) : Type ℓ where
  pub me : A
  pub now : ℕ
  pub stream_channels : ChannelSelector A I → Result (List (ChannelEntry A I)) E

-- `try_collect`: the items up to the first error, which takes their place.
unfoldable pub try_collect {ℓ} : {X E : Type ℓ} → List (Result X E) → Result (List X) E
try_collect [] = ok []
try_collect (ok x ∷ items) =
    let rest = try_collect items in elim rest [ ok xs ↦ ok (x ∷ xs) | err e ↦ err e ]
try_collect (err e ∷ items) = err e

module _ {ℓ} {A I E : Type ℓ} (client : Client A I E) where
  abbrev pub requested : Option (ChannelSelector A I) → Option ℕ → ChannelSelector A I
  requested selector min_grace_period =
      with_redeemable_channels client.now min_grace_period
        (with_destination client.me (unwrap_or selector default))

-- `R` is a redemption result or error, `B` a balance, `Z` the error of the ticket manager.
module _ {ℓ} {A I R B Z : Type ℓ} (redeem_stream : I → Option B → Result (List R) Z) where
  -- `filter_map(… .ok())`: a channel whose stream cannot be opened is skipped.
  unfoldable pub open_streams : Option B → List (ChannelEntry A I) → List (List R)
  open_streams min_amount [] = []
  open_streams min_amount (c ∷ channels) =
      let rest = open_streams min_amount channels in
      elim (redeem_stream c.id min_amount) [ ok stream ↦ stream ∷ rest | err e ↦ rest ]

module _ {ℓ} {A I E R B Z : Type ℓ} (client : Client A I E)
    (redeem_stream : I → Option B → Result (List R) Z) where
  -- The streams of the group that is returned.
  unfoldable pub redeem_in_channels :
      Option (ChannelSelector A I) → Option B → Option ℕ → Result (List (List R)) E
  redeem_in_channels selector min_amount min_grace_period = do
    channels ← client.stream_channels (requested client selector min_grace_period)
    ok (open_streams redeem_stream min_amount channels)

-- Seconds before a closing channel's time at which it is no longer redeemed in.
abbrev pub pending_to_close_redemption_tolerance : ℕ
pending_to_close_redemption_tolerance = 30

-- `merge` is the order in which the group yields the items of its streams.
module _ {ℓ} {A I E V B Z : Type ℓ} (client : Client A I E)
    (redeem_stream : I → Option B → Result (List (Result V Z)) Z)
    (merge : List (List (Result V Z)) → List (Result V Z)) where
  unfoldable pub redeem_with : Option (ChannelSelector A I) → B → CompoundResult (List V) E Z
  redeem_with selector min_value = do
    streams ← map_err left (
        redeem_in_channels client redeem_stream selector (some min_value)
          (some pending_to_close_redemption_tolerance))
    map_err right (try_collect (merge streams))

  unfoldable pub redeem_all_tickets : B → CompoundResult (List V) E Z
  unfolding redeem_with
  redeem_all_tickets min_value = redeem_with none min_value

  -- `node_address` is this node's.
  unfoldable pub redeem_tickets_with_counterparty : A → A → B → CompoundResult (List V) E Z
  unfolding redeem_with default with_source with_destination
  redeem_tickets_with_counterparty node_address issuer min_value =
      redeem_with (some (with_destination node_address (with_source issuer default))) min_value
