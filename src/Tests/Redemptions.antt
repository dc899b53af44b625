-- ===== src/Tests/Redemptions.antt =====
-- The tests of src/tickets/mod.rs. A ticket is the identifier of its channel and its index, and an
-- address is a number; the mocks answer only the calls that they expect.
use hopr_api.Prelude.{
  ℕ, zero, suc, ◌≡◌, refl, Bool, true, false, Option, none, some, List, [], ◌∷◌, ◌++◌, Result, ok,
  err, ◌==◌, nat_eq, is_some_and, length, if◌then◌else◌,
}
use hopr_api.Chain.Channels.{
  ChannelStatus, ChannelEntry, ChannelSelector, default, with_destination, with_redeemable_channels,
}
use hopr_api.Tickets.{
  Client, RedemptionResult, redeemed, open_streams, redeem_in_channels, try_collect,
}

abbrev Ticket : Type 0
Ticket = ℕ × ℕ

abbrev Redemption : Type 0
Redemption = Result (RedemptionResult Ticket ℕ) ℕ

abbrev mock_client : (ChannelSelector ℕ ℕ → Result (List (ChannelEntry ℕ ℕ)) ℕ) → Client ℕ ℕ ℕ
mock_client stream_channels = record { me = 0; now = 100; stream_channels = stream_channels }

-- In one order that the group of streams may yield.
abbrev concat : List (List Redemption) → List Redemption
concat [] = []
concat (stream ∷ streams) = stream ++ concat streams

abbrev yields : ℕ → Result (List (List Redemption)) ℕ → Bool
yields n (ok streams) = elim (try_collect (concat streams)) [
  | ok results ↦ length results == n
  | err e ↦ false
]
yields n (err e) = false

-- No stream is expected.
abbrev no_stream : ℕ → Option ℕ → Result (List Redemption) ℕ
no_stream id min_amount = err 0

abbrev test_redeem_in_channels_empty : Bool
test_redeem_in_channels_empty =
    yields 0 (redeem_in_channels (mock_client (λ selector. ok [])) no_stream none none none)

redeems_none_passes : test_redeem_in_channels_empty ≡ true
unfolding redeem_in_channels open_streams try_collect
redeems_none_passes = refl

abbrev generate_tickets_in_channel : ℕ → ℕ → List Ticket
generate_tickets_in_channel channel zero = []
generate_tickets_in_channel channel (suc count) =
    (channel, count) ∷ generate_tickets_in_channel channel count

abbrev channel : ℕ → ℕ → ChannelEntry ℕ ℕ
channel id source = record {
  id = id;
  source = source;
  destination = 0;
  status = ChannelStatus.open_channel;
}

abbrev stream_two : ChannelSelector ℕ ℕ → Result (List (ChannelEntry ℕ ℕ)) ℕ
stream_two selector =
    if (is_some_and selector.destination λ d. d == 0)
    then ok (channel 1 11 ∷ channel 2 12 ∷ [])
    else err 0

abbrev all_redeemed : List Ticket → List Redemption
all_redeemed [] = []
all_redeemed (ticket ∷ tickets) = ok (redeemed ticket) ∷ all_redeemed tickets

-- Expected of either channel, with the minimum amount of 100.
abbrev stream_ten : ℕ → Option ℕ → Result (List Redemption) ℕ
stream_ten id min_amount =
    if (is_some_and min_amount λ a. a == 100)
    then ok (all_redeemed (generate_tickets_in_channel id 10))
    else err 0

abbrev test_redeem_in_channels_multiple_channels : Bool
test_redeem_in_channels_multiple_channels =
    yields 20 (redeem_in_channels (mock_client stream_two) stream_ten none (some 100) none)

redeems_both_passes : test_redeem_in_channels_multiple_channels ≡ true
unfolding redeem_in_channels open_streams try_collect default with_destination
    with_redeemable_channels
redeems_both_passes = refl
