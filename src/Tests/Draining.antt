-- ===== src/Tests/Draining.antt =====
-- src/tickets/mod.rs: redeeming all tickets at a concrete input. A ticket is its value; one of value
-- 0 cannot be processed.
use hopr_api.Prelude.{
  ℕ, zero, suc, ◌+◌, ◌*◌, ◌≤◌, ◌≡◌, refl, ◌↔◌, Bool, true, false, ltb, Option, none, some, List, [],
  ◌∷◌, map, Memᴰ, Result, ok, err, nat_eq, ◌==◌, if◌then◌else◌, Bool-cases, inl, inr,
}
use hopr_api.Chain.Channels.{
  ChannelEntry, satisfies, with_redeemable_channels, with_destination, with_source, default,
}
use hopr_api.Node.Errors.{right}
use hopr_api.Tickets.{
  RedemptionResult, redeemed, value_too_low, as_ref, requested, redeem_all_tickets, try_collect,
  Client, redeem_tickets_with_counterparty, open_streams, redeem_in_channels,
  pending_to_close_redemption_tolerance,
}
use hopr_api.Tickets.Queue.{is_low, Attempts, Settles, Redeemed, HonoursQueues}
use hopr_api.Tickets.Draining.{opened_queues, redeem_all_drains}
use hopr_api.Tickets.Value.{
  settled_value, neglected_value, neglected_count, total_value, value_conserved,
}
use hopr_api.Tickets.Settled.{Redeemable, settled_iff, settled_with_counterparty_iff}
use hopr_api.Tests.Tickets.{
  channel, client, known, filtered, client-Honours, in_turn, in_turn-Merges,
}

abbrev pub Item : Type 0
Item = Result (RedemptionResult ℕ ℕ) ℕ

abbrev queue : ℕ → List ℕ
queue id = id ∷ 2 ∷ 9 ∷ []

abbrev settle : Bool → ℕ → RedemptionResult ℕ ℕ
settle true t = value_too_low t
settle false t = redeemed t

unfoldable pub attempt : Option ℕ → List ℕ → List Item
attempt least [] = []
attempt least (zero ∷ q) = err 3 ∷ []
attempt least (suc t ∷ q) = ok (settle (is_low ltb least (suc t)) (suc t)) ∷ attempt least q

pub attempt-Attempts : (least : Option ℕ) (q : List ℕ) → Attempts ltb least q (attempt least q)
unfolding attempt
attempt-Attempts least [] = Attempts.drained
attempt-Attempts least (zero ∷ q) = Attempts.fails
attempt-Attempts least (suc t ∷ q) =
    let rest = attempt-Attempts least q in
    elim (Bool-cases (is_low ltb least (suc t))) [
      | inl e ↦ rw e (Attempts.settles (Settles.neglects e) rest)
      | inr e ↦ rw e (Attempts.settles (Settles.redeems e) rest)
    ]

abbrev stream : ℕ → Option ℕ → Result (List Item) ℕ
stream id least = ok (attempt least (queue id))

stream-HonoursQueues : HonoursQueues ltb queue stream
stream-HonoursQueues id least items e = rw (yielded id least items e) (attempt-Attempts least _)
  where
    yielded :
        (id : ℕ) (least : Option ℕ) (items : List Item)
        → stream id least ≡ ok items
        → items ≡ attempt least (queue id)
    yielded id least items e = cc

abbrev pub answer : List (ChannelEntry ℕ ℕ)
answer = filtered (requested client none (some pending_to_close_redemption_tolerance)) known

redeem_all_drains_example :
    Redeemed {X = ℕ} ltb {E = ℕ} {Z = ℕ}
      (some 4)
      (opened_queues ltb queue stream (some 4) answer)
      (in_turn (open_streams stream (some 4) answer))
      (redeem_all_tickets client stream in_turn 4)
redeem_all_drains_example =
    redeem_all_drains ltb client queue stream in_turn 4 answer stream-HonoursQueues in_turn-Merges
      refl

abbrev settled : List (RedemptionResult ℕ ℕ)
settled = redeemed 5 ∷ value_too_low 2 ∷ redeemed 9 ∷ []

redeems_all : redeem_all_tickets client stream in_turn 4 ≡ ok settled
unfolding redeem_all_tickets redeem_in_channels attempt try_collect open_streams filtered satisfies
    with_redeemable_channels with_destination default
redeems_all = refl

settled_iff_example :
    Memᴰ 2 (map as_ref settled)
    ↔ Redeemable {X = ℕ} {Z = ℕ} ltb client known queue stream in_turn none 4 2
settled_iff_example =
    settled_iff ltb client known queue stream in_turn 4 answer settled client-Honours
      stream-HonoursQueues in_turn-Merges refl redeems_all 2

-- The channel 5 is the one from 1.
abbrev answer_from_one : List (ChannelEntry ℕ ℕ)
answer_from_one =
    filtered
      (requested client (some (with_destination 2 (with_source 1 default)))
        (some pending_to_close_redemption_tolerance))
      known

redeems_from_one : redeem_tickets_with_counterparty client stream in_turn 2 1 4 ≡ ok settled
unfolding redeem_tickets_with_counterparty redeem_in_channels attempt try_collect open_streams
    filtered satisfies with_redeemable_channels with_destination with_source default
redeems_from_one = refl

settled_with_counterparty_iff_example :
    Memᴰ 9 (map as_ref settled)
    ↔ Redeemable {X = ℕ} {Z = ℕ} ltb client known queue stream in_turn (some 1) 4 9
settled_with_counterparty_iff_example =
    settled_with_counterparty_iff ltb client known queue stream in_turn 2 1 4 answer_from_one
      settled client-Honours stream-HonoursQueues in_turn-Merges refl redeems_from_one 9

value_conserved_example :
    (settled_value (λ t. t) settled
      ≡ total_value (λ t. t) (opened_queues ltb queue stream (some 4) answer))
    × (neglected_value (λ t. t) settled + neglected_count settled ≤ neglected_count settled * 4)
value_conserved_example =
    value_conserved (λ t. t) (λ b. b) client queue stream in_turn 4 answer settled
      stream-HonoursQueues in_turn-Merges refl redeems_all

-- Two open channels, of which the first has a ticket that cannot be processed: its error ends the
-- redemption in the other one too, whose stream has not been asked yet.
abbrev two_open : Client ℕ ℕ ℕ
two_open = record client { stream_channels = λ s. ok (channel ∷ record channel { id = 7 } ∷ []) }

abbrev blocked : ℕ → Option ℕ → Result (List Item) ℕ
blocked id least = ok (attempt least (if id == 5 then 0 ∷ 9 ∷ [] else 8 ∷ []))

one_error_stops_all : redeem_all_tickets two_open blocked in_turn 4 ≡ err (right 3)
unfolding redeem_all_tickets redeem_in_channels attempt try_collect open_streams
one_error_stops_all = refl
