-- ===== src/Tests/Neglect.antt =====
-- src/tickets/mod.rs: neglecting and then redeeming at a concrete input. A ticket is its value, which
-- is its index too, and the manager keeps the queue of each channel.
use hopr_api.Prelude.{
  ℕ, ◌≡◌, refl, sym, ap, ◌∙◌, ◌⊎◌, true, not, ltb, Option, some, List, [], ◌∷◌, map, Memᴰ, ok,
  nat_eq, ◌==◌, ==_iff, if◌then◌else◌,
}
use hopr_api.Chain.Channels.{satisfies, with_redeemable_channels, with_destination, default}
use hopr_api.Tickets.{
  RedemptionResult, redeemed, as_ref, redeem_all_tickets, try_collect, open_streams,
  redeem_in_channels,
}
use hopr_api.Tickets.Queue.{HonoursQueues}
use hopr_api.Tickets.Neglect.{
  TicketManagement, picked, is_up_to, NeglectsUpTo, neglected_or_settled,
}
use hopr_api.Tests.Tickets.{
  channel, client, known, filtered, client-Honours, in_turn, in_turn-Merges,
}
use hopr_api.Tests.Draining.{Item, attempt, attempt-Attempts, answer}

abbrev Queues : Type 0
Queues = ℕ → List ℕ

abbrev kept : Option ℕ → List ℕ → List ℕ
kept most ts = picked (λ t. not (is_up_to (λ u. u) most t)) ts

abbrev manager : TicketManagement Queues ℕ ℕ ℕ ℕ Item ℕ
manager = record {
  redeem_stream = λ s id least. ok (attempt least (s id));
  neglect_tickets = λ id most s.
      ok (picked (is_up_to (λ u. u) most) (s id), λ j. if id == j then kept most (s id) else s j);
  ticket_stats = λ s id. ok (record {
    winning_tickets = 0;
    unredeemed_value = 0;
    rejected_value = 0;
    neglected_value = 0;
  });
  insert_incoming_ticket = λ t s. ok ([], s);
}

abbrev queued_before : Queues
queued_before id = 3 ∷ 2 ∷ 9 ∷ []

abbrev remaining : Queues
remaining j = if 5 == j then 9 ∷ [] else queued_before j

manager-NeglectsUpTo : NeglectsUpTo manager (λ u. u) (λ s id. s id)
manager-NeglectsUpTo id most s later ts e =
    let left : List ℕ × Queues =
      (picked (is_up_to (λ u. u) most) (s id), λ j. if id == j then kept most (s id) else s j) in
    let same : left ≡ (ts, later) = cc e in
    let here : (id == id) ≡ true = (==_iff id id).1 refl in
    (sym (ap (λ p. p.0) same), sym (ap (λ p. p.1 id) same) ∙ rw here refl)

remaining-HonoursQueues : HonoursQueues ltb remaining (manager.redeem_stream remaining)
remaining-HonoursQueues id least items e = rw (yielded items e) (attempt-Attempts least _)
  where
    yielded :
        (items : List Item)
        → manager.redeem_stream remaining id least ≡ ok items
        → items ≡ attempt least (remaining id)
    yielded items e = cc

abbrev results : List (RedemptionResult ℕ ℕ)
results = redeemed 9 ∷ []

redeems_rest : redeem_all_tickets client (manager.redeem_stream remaining) in_turn 4 ≡ ok results
unfolding redeem_all_tickets redeem_in_channels attempt try_collect open_streams filtered satisfies
    with_redeemable_channels with_destination default
redeems_rest = refl

neglected_or_settled_example : Memᴰ {A = ℕ} 9 (3 ∷ 2 ∷ []) ⊎ Memᴰ 9 (map as_ref results)
unfolding attempt
neglected_or_settled_example =
    neglected_or_settled ltb (λ u. u) client known manager (λ s id. s id) in_turn 5 (some 4)
      queued_before remaining (3 ∷ 2 ∷ []) 4 answer results channel (ok (redeemed 9) ∷ []) 9
      manager-NeglectsUpTo client-Honours remaining-HonoursQueues in_turn-Merges refl refl
      redeems_rest refl (Memᴰ.head refl) refl tt refl (Memᴰ.tail (Memᴰ.tail (Memᴰ.head refl)))
